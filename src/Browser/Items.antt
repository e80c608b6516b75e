-- ===== src/Browser/Items.antt =====
-- The auctions that the client shows: frontend/lib/auction/summaryToAuctionItem.ts and
-- auctionToFormData.ts, `summaryToItem` of frontend/hooks/query/useMainAuctions.ts and
-- useAuctionList.ts, and `wishlistToItem` of frontend/hooks/query/useMyWishlist.ts. JavaScript's
-- `Number` of a size is a parameter.
pub mod Agreement
mod Tests
use sneakerbid.Base.{
  ℕ, ◌+◌, ◌*◌, Bool, true, false, Option, none, some, List, [], ◌∷◌, ◌++◌, ◌==◌, ◌||◌, leb, map,
  if◌then◌else◌, or_else, is_some, String, same_text, not,
}
use sneakerbid.Store.Rows.{AuctionStatus, is_opened}
use sneakerbid.Listing.{Summary}
use sneakerbid.Browser.Bidding.{ItemStatus, ongoing, ending_soon, closed, failed, buy_now}

-- `AuctionItem`, as far as these functions fill it
pub record AuctionItem : Type 0 where
  pub id : ℕ
  pub model_name : String
  pub brand : String
  pub image_url : String
  pub current_bid : ℕ
  pub buy_now_price : Option ℕ
  pub end_time : ℕ
  pub participants : ℕ
  pub status : ItemStatus
  pub size : Option ℕ
  pub is_wishlisted : Option Bool
  pub winner_user_id : Option ℕ
  pub minimum_increment : Option ℕ

-- The text of a status in a summary.
abbrev pub status_text : AuctionStatus → String
status_text AuctionStatus.opened = "OPEN"
status_text AuctionStatus.closed = "CLOSED"

-- `TERMINAL_STATUS_MAP`
unfoldable pub terminal_status : String → Option ItemStatus
terminal_status s =
    if same_text s "CLOSED"
    then some closed
    else if same_text s "FAILED"
    then some failed
    else if same_text s "BUY_NOW"
    then some buy_now
    else none

-- The status by the time that is left.
abbrev pub status_by_time : ℕ → ℕ → ItemStatus
status_by_time end_time now =
    if leb end_time now
    then closed
    else if leb end_time (now + 60 * 1000)
    then ending_soon
    else ongoing

-- `WishlistItem`
pub record WishlistItem : Type 0 where
  pub auction_id : ℕ
  pub sneaker_name : String
  pub brand : String
  pub image_url : String
  pub size : String
  pub current_price : ℕ
  pub buy_now_price : Option ℕ
  pub end_time : ℕ
  pub status : String
  pub bid_count : ℕ

-- `WISHLIST_TERMINAL_STATUSES`
abbrev is_wishlist_terminal : String → Bool
is_wishlist_terminal s =
    same_text s "CLOSED" || same_text s "FAILED" || same_text s "BUY_NOW" || same_text s "CANCELLED"

-- `Number(size)`
module _ (number_of : String → ℕ) where
  abbrev size_of : String → Option ℕ
  size_of s = if same_text s "" then none else some (number_of s)

  -- `buildItem`
  unfoldable pub build_item : Summary → ItemStatus → AuctionItem
  build_item s status = record {
    id = s.auction_id;
    model_name = s.sneaker_name;
    brand = s.brand;
    image_url = s.image_url;
    current_bid = s.current_price;
    buy_now_price = s.buy_now_price;
    end_time = s.end_time;
    participants = s.bid_count;
    status = status;
    size = size_of s.size;
    is_wishlisted = none;
    winner_user_id = s.winner_user_id;
    minimum_increment = some s.minimum_increment;
  }

  -- `summaryToAuctionItem`
  unfoldable pub summary_to_auction_item : ℕ → Summary → AuctionItem
  unfolding build_item terminal_status
  summary_to_auction_item now s =
      build_item s
        (or_else (terminal_status (status_text s.status)) (status_by_time s.end_time now))

  -- `summaryToItem`
  unfoldable pub summary_to_item : Summary → AuctionItem
  summary_to_item s = record {
    id = s.auction_id;
    model_name = s.sneaker_name;
    brand = s.brand;
    image_url = s.image_url;
    current_bid = s.current_price;
    buy_now_price = s.buy_now_price;
    end_time = s.end_time;
    participants = s.bid_count;
    status = if same_text (status_text s.status) "OPEN" then ongoing else closed;
    size = size_of s.size;
    is_wishlisted = s.is_wishlisted;
    winner_user_id = none;
    minimum_increment = some s.minimum_increment;
  }

  -- `mainAuctionsToItems`
  unfoldable pub main_auctions_to_items : Option (List Summary) → List AuctionItem
  unfolding summary_to_item
  main_auctions_to_items none = []
  main_auctions_to_items (some xs) = map summary_to_item xs

  -- `auctionListPagesToItems`
  unfoldable pub auction_list_pages_to_items : List (List Summary) → List AuctionItem
  unfolding summary_to_item
  auction_list_pages_to_items [] = []
  auction_list_pages_to_items (p ∷ pages) =
      map summary_to_item p ++ auction_list_pages_to_items pages

  -- `wishlistToItem`
  unfoldable pub wishlist_to_item : ℕ → WishlistItem → AuctionItem
  wishlist_to_item now w = record {
    id = w.auction_id;
    model_name = w.sneaker_name;
    brand = w.brand;
    image_url = w.image_url;
    current_bid = w.current_price;
    buy_now_price = w.buy_now_price;
    end_time = w.end_time;
    participants = w.bid_count;
    status = if is_wishlist_terminal w.status then closed else status_by_time w.end_time now;
    size = size_of w.size;
    is_wishlisted = some true;
    winner_user_id = none;
    minimum_increment = none;
  }
