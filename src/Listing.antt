-- ===== src/Listing.antt =====
-- The list of open auctions with its cursor: `listAuctions` and `toSummary` of
-- backend/src/auctions/auctions.service.ts over `listWithFilters` of
-- backend/src/database/repositories/auction.repository.ts. Ids are compared as numbers and times are
-- milliseconds. JavaScript's `trim` and `slice(0, 80)` and PostgreSQL's ILIKE are parameters.
pub mod Paging
pub mod Following
pub mod Skipping
pub mod Views
pub mod Status
pub mod Detail
pub mod History
pub mod Figures
pub mod Bounds
mod Tests
use Prim.Native.Char.{code}
use Prim.Native.String as Native
use sneakerbid.Base.{
  ℕ, zero, suc, ◌+◌, Bool, true, false, Option, none, some, List, [], ◌∷◌, ◌++◌, ◌&&◌, ◌||◌, ◌==◌,
  ltb, leb, if◌then◌else◌, filter_by, length, take, map, String, same_text, append_text, or_else,
}
use sneakerbid.Store.Rows.{Auction, AuctionStatus, Sneaker, Bid, Db, Wishlist, is_opened}
use sneakerbid.Store.Table.{find}
use sneakerbid.Store.Pages.{sort_by, last_key}
use sneakerbid.Wishlist.{get_wishlisted_map}

-- A row of `AuctionListRow`: an auction joined with its sneaker, the number of its bids, and the
-- columns that only the order of a list reads.
pub record Entry : Type 0 where
  pub auction : Auction
  pub sneaker : Sneaker
  pub bid_count : ℕ
  pub created_at : ℕ
  pub updated_at : ℕ

abbrev pub id_of : Entry → ℕ
id_of e = e.auction.id

-- `(SELECT COUNT(*) FROM "Bid" WHERE "auctionId" = a.id)`
abbrev pub count_bids : ℕ → List Bid → ℕ
count_bids a bids = length (filter_by (λ b. b.auction_id == a) bids)

-- `FROM "Auction" a JOIN "Sneaker" s ON a."sneakerId" = s.id`, where the times of creation and of
-- the last change are given by the auction's id.
module _ (created_at updated_at : ℕ → ℕ) (sneakers : List Sneaker) (bids : List Bid) where
  abbrev entry_of : Auction → Sneaker → Entry
  entry_of a s = record {
    auction = a;
    sneaker = s;
    bid_count = count_bids a.id bids;
    created_at = created_at a.id;
    updated_at = updated_at a.id;
  }

  unfoldable pub join : List Auction → List Entry
  join [] = []
  join (a ∷ xs) =
      let rest = join xs in
      elim (find (λ s. s.id) a.sneaker_id sneakers) [ none ↦ rest | some s ↦ entry_of a s ∷ rest ]

-- `SORT_OPTIONS`
pub data Sort : Type 0 where
  ending_soon popular newest price_low bid_count : Sort

-- `(a.v, a.id) < (b.v, b.id)`, and `ORDER BY v ASC, a.id ASC`
abbrev pub row_lt : (Entry → ℕ) → Entry → Entry → Bool
row_lt v a b = ltb (v a) (v b) || v a == v b && ltb (id_of a) (id_of b)

-- `ORDER BY v DESC, a.id ASC`
abbrev pub descending : (Entry → ℕ) → Entry → Entry → Bool
descending v a b = ltb (v b) (v a) || v a == v b && ltb (id_of a) (id_of b)

-- The column that each sort reads.
abbrev pub sort_value : Sort → Entry → ℕ
sort_value ending_soon e = e.auction.end_time
sort_value popular e = e.auction.current_price
sort_value newest e = e.created_at
sort_value price_low e = e.auction.current_price
sort_value bid_count e = e.bid_count

-- `orderMap[sort]`
abbrev pub order_clause : Sort → Entry → Entry → Bool
order_clause ending_soon = row_lt (sort_value ending_soon)
order_clause popular = descending (sort_value popular)
order_clause newest = descending (sort_value newest)
order_clause price_low = row_lt (sort_value price_low)
order_clause bid_count = descending (sort_value bid_count)

-- The condition for `afterId`, whose row may be missing: then a comparison with its columns keeps no
-- row, while the number of its bids is 0.
abbrev is_past : Sort → ℕ → Option Entry → Entry → Bool
is_past newest k (some c) e = row_lt (sort_value newest) e c
is_past ending_soon k (some c) e = row_lt (sort_value ending_soon) c e
is_past popular k (some c) e = row_lt (sort_value popular) e c
is_past price_low k (some c) e = row_lt (sort_value price_low) c e
is_past bid_count k (some c) e = row_lt (sort_value bid_count) e c
is_past bid_count k none e = ltb e.bid_count 0 || e.bid_count == 0 && ltb (id_of e) k
is_past _ k none e = false

-- `search.replace(/c/g, '\\c')`, for a character by its code.
abbrev escape_char : ℕ → String → String
escape_char c Native.[] = Native.[]
escape_char c (Native.◌∷◌ x s) =
    if code x == c
    then append_text "\\" (Native.◌∷◌ x (escape_char c s))
    else Native.◌∷◌ x (escape_char c s)

-- The pattern of a search, with its wildcards escaped.
abbrev pub term_of : String → String
term_of s =
    append_text "%" (append_text (escape_char b'_' (escape_char b'%' (escape_char b'\\' s))) "%")

-- `AuctionListQueryDto` as the service reads it, with its defaults.
pub record ListQuery : Type 0 where
  pub brand : Option String
  pub size : Option String
  pub sort : Sort
  pub limit : ℕ
  pub search : Option String

-- A filter that is missing, or empty, keeps every row.
abbrev is_same : Option String → String → Bool
is_same none t = true
is_same (some s) t = if same_text s "" then true else same_text s t

-- `AuctionSummary`
pub record Summary : Type 0 where
  pub auction_id : ℕ
  pub sneaker_name : String
  pub brand : String
  pub image_url : String
  pub size : String
  pub current_price : ℕ
  pub end_time : ℕ
  pub status : AuctionStatus
  pub bid_count : ℕ
  pub buy_now_price : Option ℕ
  pub winner_user_id : Option ℕ
  pub closed_at : Option ℕ
  pub minimum_increment : ℕ
  pub is_wishlisted : Option Bool

-- `effectiveStatus`
abbrev pub effective_status : ℕ → Auction → AuctionStatus
effective_status now a =
    if is_opened a.status && leb a.end_time now then AuctionStatus.closed else a.status

-- `toSummary` of `rowToAuctionWithDetails`
unfoldable pub to_summary : ℕ → Option Bool → Entry → Summary
to_summary now wished e = record {
  auction_id = e.auction.id;
  sneaker_name = e.sneaker.model_name;
  brand = e.sneaker.brand;
  image_url = e.sneaker.image_url;
  size = e.auction.size;
  current_price = e.auction.current_price;
  end_time = e.auction.end_time;
  status = effective_status now e.auction;
  bid_count = e.bid_count;
  buy_now_price = e.auction.buy_now_price;
  winner_user_id = e.auction.winner_user_id;
  closed_at = e.auction.closed_at;
  minimum_increment = e.auction.minimum_increment;
  is_wishlisted = wished;
}

-- `a.status = 'OPEN' AND a."endTime" > now`
abbrev pub is_ongoing : ℕ → Entry → Bool
is_ongoing now e = is_opened e.auction.status && ltb now e.auction.end_time

pub record ListPage : Type 0 where
  pub items : List Summary
  pub next_cursor : Option ℕ
  pub has_more : Bool

-- `wishlistedMap`, which is empty where nobody is logged in.
abbrev pub wishlisted_map : Option ℕ → List Wishlist → List Entry → List (ℕ × Bool)
wishlisted_map none ws es = []
wishlisted_map (some u) ws es = get_wishlisted_map u (map id_of es) ws

-- `wishlistedMap[id] ?? false`
abbrev pub flag_of : ℕ → List (ℕ × Bool) → Bool
flag_of k [] = false
flag_of k ((j, b) ∷ m) = if j == k then b else flag_of k m

-- The summaries of rows with the flags of a map.
abbrev pub with_flags : ℕ → List (ℕ × Bool) → List Entry → List Summary
with_flags now flags = map (λ e. to_summary now (some (flag_of (id_of e) flags)) e)

module _ (user : Option ℕ) (ws : List Wishlist) where
  abbrev pub with_wishes : ℕ → List Entry → List Summary
  with_wishes now es = with_flags now (wishlisted_map user ws es) es

  abbrev pub page_of : ListQuery → ℕ → List Entry → ListPage
  page_of q now rows =
      if ltb q.limit (length rows)
      then record {
        items = with_wishes now (take q.limit rows);
        next_cursor = last_key id_of (take q.limit rows);
        has_more = true;
      }
      else record { items = with_wishes now rows; next_cursor = none; has_more = false }

module _ (trim slice_80 : String → String) (ilike : String → String → Bool) where
  -- `searchTrim`
  abbrev search_trim : Option String → Option String
  search_trim none = none
  search_trim (some s) = if same_text (trim s) "" then none else some (slice_80 (trim s))

  abbrev finds : Option String → Entry → Bool
  finds none e = true
  finds (some s) e =
      ilike e.sneaker.brand (term_of s)
      || ilike e.sneaker.model_name (term_of s)
      || ilike (or_else e.sneaker.colorway "") (term_of s)
      || ilike (or_else e.sneaker.description "") (term_of s)

  -- The WHERE clause without the cursor.
  pub matches : ListQuery → ℕ → Entry → Bool
  matches q now e =
      is_ongoing now e
      && is_same q.brand e.sneaker.brand
      && is_same q.size e.auction.size
      && finds (search_trim q.search) e

  -- `listWithFilters`, without its LIMIT
  unfoldable pub rows_after : ListQuery → ℕ → List Entry → Option ℕ → List Entry
  rows_after q now es none = sort_by (order_clause q.sort) (filter_by (matches q now) es)
  rows_after q now es (some k) =
      sort_by (order_clause q.sort)
        (filter_by (is_past q.sort k (find id_of k es)) (filter_by (matches q now) es))

  -- `listWithFilters`
  unfoldable pub list_with_filters : ListQuery → ℕ → List Entry → Option ℕ → List Entry
  unfolding rows_after
  list_with_filters q now es after_id = take (q.limit + 1) (rows_after q now es after_id)

  module _ (user : Option ℕ) (ws : List Wishlist) where
    -- `listAuctions`
    unfoldable pub list_auctions : ListQuery → ℕ → List Entry → Option ℕ → ListPage
    unfolding list_with_filters
    list_auctions q now es after_id = page_of user ws q now (list_with_filters q now es after_id)

    -- What a client gets that asks for a page and then for those after it, `fuel` pages at most.
    unfoldable pub follow : ℕ → ListQuery → ℕ → List Entry → Option ℕ → List Summary
    follow zero q now es after_id = []
    follow (suc fuel) q now es after_id =
        let page = list_auctions q now es after_id in
        page.items ++ (elim page.next_cursor [ none ↦ [] | some k ↦ follow fuel q now es (some k) ])
