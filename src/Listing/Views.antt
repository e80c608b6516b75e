-- ===== src/Listing/Views.antt =====
-- The lists of the main page, of a seller and of a bidder: `getMainAuctions`,
-- `getMySellingAuctions` and `getMyBiddingAuctions` of
-- backend/src/auctions/auctions.service.ts, with their queries. Rows that an ORDER BY does not tell
-- apart stay in the order of the table.
use sneakerbid.Base.{
  ℕ, Bool, true, false, Option, none, some, List, [], ◌∷◌, ◌&&◌, ◌||◌, ◌==◌, ltb, leb,
  if◌then◌else◌, not, filter_by, length, take, map, is_some,
}
use sneakerbid.Store.Rows.{Bid, Wishlist, is_opened}
use sneakerbid.Store.Pages.{sort_by}
use sneakerbid.Wishlist.{contains}
use sneakerbid.Listing.{Entry, id_of, Summary, to_summary, is_ongoing, with_wishes}

-- `ORDER BY a."endTime" ASC`
abbrev by_end : Entry → Entry → Bool
by_end a b = leb a.auction.end_time b.auction.end_time

-- `findMainAuctions`
unfoldable pub find_main_auctions : ℕ → List Entry → List Entry
find_main_auctions now es = take 20 (sort_by by_end (filter_by (is_ongoing now) es))

-- `getMainAuctions`, of one who may be logged in.
unfoldable pub get_main_auctions : Option ℕ → List Wishlist → ℕ → List Entry → List Summary
unfolding find_main_auctions
get_main_auctions user ws now es = with_wishes user ws now (find_main_auctions now es)

pub data StatusFilter : Type 0 where
  all ongoing closed : StatusFilter

-- `a.status = 'CLOSED' OR (a.status = 'OPEN' AND a."endTime" <= now)`
abbrev pub is_over : ℕ → Entry → Bool
is_over now e =
    not (is_opened e.auction.status) || is_opened e.auction.status && leb e.auction.end_time now

abbrev pub has_status : StatusFilter → ℕ → Entry → Bool
has_status all now e = true
has_status ongoing now e = is_ongoing now e
has_status closed now e = is_over now e

-- `ORDER BY a."createdAt" DESC`
abbrev pub by_creation : Entry → Entry → Bool
by_creation a b = leb b.created_at a.created_at

-- `findMySelling`
unfoldable pub find_my_selling : ℕ → StatusFilter → ℕ → List Entry → List Entry
find_my_selling seller status now es =
    sort_by by_creation
      (filter_by (has_status status now) (filter_by (λ e. e.auction.seller_user_id == seller) es))

-- `getMySellingAuctions`
unfoldable pub get_my_selling_auctions : ℕ → StatusFilter → ℕ → List Entry → List Summary
unfolding find_my_selling
get_my_selling_auctions seller status now es =
    map (to_summary now none) (find_my_selling seller status now es)

-- `SELECT DISTINCT`
abbrev pub distinct : List ℕ → List ℕ
distinct [] = []
distinct (x ∷ xs) = let rest = distinct xs in if contains x rest then rest else x ∷ rest

-- `findAuctionIdsByUserId`
unfoldable pub find_auction_ids_by_user_id : ℕ → List Bid → List ℕ
find_auction_ids_by_user_id u bids = distinct (
    map (λ b. b.auction_id)
      (filter_by (λ b. b.user_id == u && not (is_some b.disqualified_at)) bids))

-- `ORDER BY a."closedAt" DESC NULLS LAST, a."updatedAt" DESC`
abbrev closed_first : Option ℕ → Option ℕ → Bool → Bool
closed_first none none tie = tie
closed_first none (some t) tie = false
closed_first (some s) none tie = true
closed_first (some s) (some t) tie = ltb t s || s == t && tie

abbrev by_closing : Entry → Entry → Bool
by_closing a b =
    closed_first a.auction.closed_at b.auction.closed_at (leb b.updated_at a.updated_at)

abbrev order_of : StatusFilter → Entry → Entry → Bool
order_of ongoing = by_end
order_of all = by_closing
order_of closed = by_closing

-- `findByIdsWithSneaker`
unfoldable pub find_by_ids_with_sneaker : List ℕ → StatusFilter → ℕ → List Entry → List Entry
find_by_ids_with_sneaker ids status now es =
    sort_by (order_of status)
      (filter_by (has_status status now) (filter_by (λ e. contains (id_of e) ids) es))

-- `getMyBiddingAuctions`; for no ids the query is not made.
unfoldable pub get_my_bidding_auctions : ℕ → StatusFilter → ℕ → List Bid → List Entry → List Summary
unfolding find_auction_ids_by_user_id find_by_ids_with_sneaker
get_my_bidding_auctions u status now bids es =
    let ids = find_auction_ids_by_user_id u bids in
    if length ids == 0
    then []
    else map (to_summary now none) (find_by_ids_with_sneaker ids status now es)
