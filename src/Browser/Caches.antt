-- ===== src/Browser/Caches.antt =====
-- The caches of the lists of auctions: frontend/lib/util/mainCacheUpdater.ts, the optimistic toggle
-- of frontend/hooks/query/useMyWishlist.ts and the bid of frontend/hooks/query/useMainAuctions.ts.
-- A query that has no data yet is `none`; the refetch that an invalidation asks for is another step.
pub mod Rollback
pub mod Counts
mod Tests
use sneakerbid.Base.{
  ℕ, ◌+◌, Bool, true, false, Option, none, some, List, [], ◌∷◌, ◌||◌, ◌==◌, not, if◌then◌else◌, map,
  any, or_else,
}
use mathlib.Core.Option
use sneakerbid.Store.Table.{find}
use sneakerbid.Listing.{Summary}

-- The data of the main page, the pages of each list that was asked for, and the ids of the list of
-- wishes, and which of the queries are out of date.
pub record Caches : Type 0 where
  pub main : Option (List Summary)
  pub lists : List (Option (List (List Summary)))
  pub wishlist_my : Option (List ℕ)
  pub wishlist_my_is_stale : Bool

-- `updateOne`
abbrev pub update_one : (Summary → Summary) → ℕ → List Summary → List Summary
update_one f id = map (λ a. if a.auction_id == id then f a else a)

abbrev pub set_wished : Bool → Summary → Summary
set_wished b a = record a { is_wishlisted = some b }

-- The amount of a bid with the number of bids, as a number or as what is added.
abbrev pub set_bid : ℕ → ℕ → Bool → Summary → Summary
set_bid amount delta_or_count is_absolute a = record a {
  current_price = amount;
  bid_count = if is_absolute then delta_or_count else a.bid_count + delta_or_count;
}

abbrev pub update_main : (Summary → Summary) → ℕ → Caches → Caches
update_main f id c = record c { main = Option.map (update_one f id) c.main }

abbrev pub update_lists : (Summary → Summary) → ℕ → Caches → Caches
update_lists f id c = record c { lists = map (λ l. Option.map (map (update_one f id)) l) c.lists }

-- `updateMainCacheWishlist`
unfoldable pub update_main_cache_wishlist : ℕ → Bool → Caches → Caches
update_main_cache_wishlist id b = update_main (set_wished b) id

-- `updateListCacheWishlist`
unfoldable pub update_list_cache_wishlist : ℕ → Bool → Caches → Caches
update_list_cache_wishlist id b = update_lists (set_wished b) id

-- `updateMainCacheAuctionBid`
unfoldable pub update_main_cache_auction_bid : ℕ → ℕ → ℕ → Bool → Caches → Caches
update_main_cache_auction_bid id amount n is_absolute =
    update_main (set_bid amount n is_absolute) id

-- `updateListCacheAuctionBid`
unfoldable pub update_list_cache_auction_bid : ℕ → ℕ → ℕ → Bool → Caches → Caches
update_list_cache_auction_bid id amount n is_absolute =
    update_lists (set_bid amount n is_absolute) id

-- `WishlistToggleContext`
pub record Context : Type 0 where
  pub previous_main : Option (List Summary)
  pub previous_is_wishlisted : Bool

abbrev flag_in : Option Summary → Bool
flag_in none = false
flag_in (some a) = or_else a.is_wishlisted false

-- `inWishlist || (current?.isWishlisted ?? false)`
unfoldable pub was_wishlisted : ℕ → Caches → Bool
was_wishlisted id c =
    any (λ k. k == id) (or_else c.wishlist_my [])
    || flag_in (find (λ a. a.auction_id) id (or_else c.main []))

-- `onMutate` of `useWishlistToggle`
unfoldable pub on_mutate : ℕ → Caches → Context × Caches
unfolding was_wishlisted update_main_cache_wishlist update_list_cache_wishlist
on_mutate id c =
    let before = was_wishlisted id c in
    (
      record { previous_main = c.main; previous_is_wishlisted = before },
      update_list_cache_wishlist id (not before) (update_main_cache_wishlist id (not before) c),
    )

-- `onSuccess`, with what the server answered
unfoldable pub on_success : Option Bool → ℕ → Caches → Caches
unfolding update_main_cache_wishlist update_list_cache_wishlist
on_success result id c =
    let next = or_else result false in
    record (update_list_cache_wishlist id next (update_main_cache_wishlist id next c)) {
      wishlist_my_is_stale = true;
    }

abbrev restore_main : Option (List Summary) → Caches → Caches
restore_main none c = c
restore_main (some xs) c = record c { main = some xs }

-- `onError`
unfoldable pub on_error : ℕ → Context → Caches → Caches
unfolding update_list_cache_wishlist
on_error id context c =
    update_list_cache_wishlist id context.previous_is_wishlisted
      (restore_main context.previous_main c)

-- `onSuccess` of `usePlaceBid`, with the price that the server answered, on these caches
unfoldable pub on_bid_placed : Option ℕ → ℕ → ℕ → Caches → Caches
unfolding update_main_cache_auction_bid update_list_cache_auction_bid
on_bid_placed answered id amount c =
    let price = or_else answered amount in
    update_list_cache_auction_bid id price 1 false
      (update_main_cache_auction_bid id price 1 false c)

-- The caches of `handleNewBidFromSSE` in frontend/components/detail/AuctionDetailClient.tsx
unfoldable pub on_bid_event : ℕ → ℕ → Option ℕ → Caches → Caches
unfolding update_main_cache_auction_bid update_list_cache_auction_bid
on_bid_event id amount (some n) c =
    update_list_cache_auction_bid id amount n true
      (update_main_cache_auction_bid id amount n true c)
on_bid_event id amount none c =
    update_list_cache_auction_bid id amount 1 false
      (update_main_cache_auction_bid id amount 1 false c)
