-- ===== src/Listing/Detail.antt =====
-- The page of an auction: `getAuctionById`, `toDetail` and `getBids` of
-- backend/src/auctions/auctions.service.ts. The columns of a sneaker that no service writes are left
-- out; JavaScript's `parseInt` and `toFixed` and the texts of numbers are parameters.
use sneakerbid.Base.{
  ℕ, ◌+◌, ◌-◌, ◌*◌, ◌/◌, Bool, true, false, Option, none, some, List, [], ◌∷◌, ◌&&◌, ◌==◌, ltb, leb,
  if◌then◌else◌, not, filter_by, take, is_some, String, append_text,
}
use sneakerbid.Store.Rows.{Auction, Bid, BidSourceType, User, Wishlist, is_opened}
use sneakerbid.Store.Table.{find}
use sneakerbid.Store.Tx.{Result, Error, ok, err}
use sneakerbid.Store.Pages.{sort_by}
use sneakerbid.Listing.{Entry, id_of, wishlisted_map, flag_of}

-- `AuctionDetail['status']`
pub data DetailStatus : Type 0 where
  ongoing ending_soon closed failed : DetailStatus

-- `ENDING_SOON_MS`
abbrev pub ending_soon_ms : ℕ
ending_soon_ms = 15 * 60 * 1000

unfoldable pub detail_status : ℕ → Auction → DetailStatus
detail_status now a =
    if is_opened a.status
    then (if leb a.end_time now
        then closed
        else if leb a.end_time (now + ending_soon_ms)
        then ending_soon
        else ongoing)
    else if is_some a.winner_user_id
    then closed
    else failed

-- `AuctionDetail`
pub record Detail : Type 0 where
  pub id : ℕ
  pub model_name : String
  pub brand : String
  pub colorway : Option String
  pub size : Option ℕ
  pub description : Option String
  pub image_url : String
  pub start_price : ℕ
  pub current_bid : ℕ
  pub buy_now_price : Option ℕ
  pub end_time : ℕ
  pub participants : ℕ
  pub status : DetailStatus
  pub is_wishlisted : Bool
  pub price_increase_percent : String
  pub minimum_increment : ℕ

-- `parseInt(size, 10)`, and `(((current - start) / start) * 100).toFixed(1)`
module _ (parse_int : String → Option ℕ) (rise_percent : ℕ → ℕ → String) where
  -- `toDetail` of `rowToAuctionWithDetails`
  unfoldable pub to_detail : ℕ → Bool → Entry → Detail
  unfolding detail_status
  to_detail now wished e = record {
    id = id_of e;
    model_name = e.sneaker.model_name;
    brand = e.sneaker.brand;
    colorway = e.sneaker.colorway;
    size = parse_int e.auction.size;
    description = e.sneaker.description;
    image_url = e.sneaker.image_url;
    start_price = e.auction.start_price;
    current_bid = e.auction.current_price;
    buy_now_price = e.auction.buy_now_price;
    end_time = e.auction.end_time;
    participants = e.bid_count;
    status = detail_status now e.auction;
    is_wishlisted = wished;
    price_increase_percent =
        if e.auction.start_price == 0
        then "0"
        else rise_percent e.auction.start_price e.auction.current_price;
    minimum_increment = e.auction.minimum_increment;
  }

  -- `incrementViewCount`, on the column by the auction's id.
  abbrev pub increment_view_count : ℕ → (ℕ → ℕ) → ℕ → ℕ
  increment_view_count a views j = if j == a then views j + 1 else views j

  -- `getAuctionById`: the page, and the counts of views, which stay as they are if the update, whose
  -- failure is ignored, does not reach the database.
  unfoldable pub get_auction_by_id :
      Bool → ℕ → Option ℕ → ℕ → List Wishlist → List Entry → (ℕ → ℕ) → Result (Detail × (ℕ → ℕ))
  unfolding to_detail
  get_auction_by_id reached a user now ws es views = elim (find id_of a es) [
    | none ↦ err Error.auction_not_found
    | some e ↦ ok (
      to_detail now (flag_of a (wishlisted_map user ws (e ∷ []))) e,
      if reached then increment_view_count a views else views,
    )
  ]

-- `BidLogItem`
pub record BidLogItem : Type 0 where
  pub id : ℕ
  pub user : String
  pub amount : ℕ
  pub time : String
  pub is_bot : Bool

abbrev pub is_bot_source : BidSourceType → Bool
is_bot_source BidSourceType.from_user = false
is_bot_source BidSourceType.from_bot = true

-- `ORDER BY b."bidPrice" DESC`
abbrev by_price : Bid → Bid → Bool
by_price a b = leb b.bid_price a.bid_price

module _ (number_text : ℕ → String) (created_at : ℕ → ℕ) where
  -- `formatTime` of seconds that have passed
  unfoldable pub format_time : ℕ → String
  format_time sec =
      if ltb sec 60
      then "방금 전"
      else if ltb sec 3600
      then append_text (number_text (sec / 60)) "분 전"
      else if ltb sec 86400
      then append_text (number_text (sec / 3600)) "시간 전"
      else append_text (number_text (sec / 86400)) "일 전"

  abbrev log_item : ℕ → Bid → User → BidLogItem
  log_item now b u = record {
    id = b.id;
    user = u.nickname;
    amount = b.bid_price;
    time = format_time ((now - created_at b.id) / 1000);
    is_bot = is_bot_source b.source_type;
  }

  -- The join with the users, and the rows as items.
  abbrev pub log_items : ℕ → List User → List Bid → List BidLogItem
  log_items now users [] = []
  log_items now users (b ∷ bids) =
      let rest = log_items now users bids in
      elim (find (λ u. u.id) b.user_id users) [ none ↦ rest | some u ↦ log_item now b u ∷ rest ]

  -- `getBids` over `findBidsForAuction`
  unfoldable pub get_bids : ℕ → ℕ → ℕ → List User → List Bid → List BidLogItem
  unfolding format_time
  get_bids a limit now users bids = take limit (
      log_items now users (
        sort_by by_price
          (filter_by (λ b. b.auction_id == a && not (is_some b.disqualified_at)) bids)))
