-- ===== src/Listing/Tests.antt =====
-- Runs of the list of auctions on three open ones, two of which have one price.
use sneakerbid.Base.{
  true, false, Bool, none, some, List, [], ◌∷◌, ◌≡◌, ◌≢◌, refl, arith, All, map, String, inl,
}
use sneakerbid.Samples.{auction, sneaker}
use sneakerbid.Store.Rows.{Auction, AuctionStatus, Wishlist}
use sneakerbid.Listing.{
  Entry, Sort, popular, price_low, ListQuery, join, list_auctions, rows_after, matches, follow,
  order_clause, to_summary, term_of,
}
use sneakerbid.Wishlist.{get_wishlisted_map}
use sneakerbid.Listing.Paging.{matching}
use sneakerbid.Listing.Following.{follow-sorted, summary_of}
use sneakerbid.Listing.Skipping.{follow-skips}
use sneakerbid.Store.Pages.{sort_by}
use sneakerbid.Listing.Figures.{avg_bid_speed}
use sneakerbid.Listing.History.{stats_of}

abbrev open_auctions : List Auction
open_auctions =
    auction
    ∷ record auction { id = 11 }
    ∷ record auction { id = 12; current_price = 300 }
    ∷ record auction { id = 13; status = AuctionStatus.closed }
    ∷ []

abbrev entry : Auction → Entry
entry a = record {
  auction = a;
  sneaker = sneaker;
  bid_count = 0;
  created_at = a.id;
  updated_at = a.id;
}

abbrev entries : List Entry
entries =
    entry auction
    ∷ entry (record auction { id = 11 })
    ∷ entry (record auction { id = 12; current_price = 300 })
    ∷ entry (record auction { id = 13; status = AuctionStatus.closed })
    ∷ []

-- The join gives each auction with its sneaker.
joined : join (λ a. a) (λ a. a) (sneaker ∷ []) [] open_auctions ≡ entries
unfolding join
joined = refl

abbrev same : String → String
same s = s

abbrev nothing_found : String → String → Bool
nothing_found t p = false

abbrev by_sort : Sort → ListQuery
by_sort s = record { brand = none; size = none; sort = s; limit = 1; search = none }

abbrev wishes : List Wishlist
wishes = record { user_id = 2; auction_id = 12 } ∷ []

-- The wildcards of a search are escaped.
escaped : term_of "50%_off" ≡ "%50\\%\\_off%"
escaped = refl

-- By the lowest price a client gets the three open auctions.
cheapest :
    map
      (λ s. s.auction_id)
      (follow same same nothing_found (some 2) wishes 4 (by_sort price_low) 0 entries none)
    ≡ 10 ∷ 11 ∷ 12 ∷ []
unfolding follow list_auctions rows_after matches to_summary get_wishlisted_map
cheapest = refl

-- By the highest price the second of the two that have one price is missing.
highest :
    map
      (λ s. s.auction_id)
      (follow same same nothing_found (some 2) wishes 4 (by_sort popular) 0 entries none)
    ≡ 12 ∷ 10 ∷ []
unfolding follow list_auctions rows_after matches to_summary get_wishlisted_map
highest = refl

-- Three bids, four seconds and one second apart, and a lone one.
speeds : (avg_bid_speed (9000 ∷ 8000 ∷ 4000 ∷ []) ≡ 25) × (avg_bid_speed (9000 ∷ []) ≡ 8)
unfolding avg_bid_speed
speeds = (refl, refl)

-- The statistics of a day.
averaged :
    stats_of (100 ∷ 101 ∷ [])
    ≡ record { trades_today = 2; average_price_today = some 101; max_price_today = some 101 }
unfolding stats_of
averaged = refl

follow-sorted_example :
    follow same same nothing_found (some 2) wishes 4 (by_sort price_low) 0 entries none
    ≡ map (summary_of (some 2) wishes 0) (
        sort_by
          (order_clause price_low)
          (matching same same nothing_found (by_sort price_low) 0 entries))
unfolding matches
follow-sorted_example =
    follow-sorted same same nothing_found (some 2) wishes (by_sort price_low) 0 entries 4 0
      (omega arith) (inl refl) refl (omega arith)

follow-skips_example :
    (order_clause popular (entry auction) (entry (record auction { id = 11 })) ≡ true)
    × All
        (λ s. s.auction_id ≢ 11)
        (follow same same nothing_found (some 2) wishes 4 (by_sort popular) 0 entries (some 10))
follow-skips_example =
    follow-skips same same nothing_found (some 2) wishes (by_sort popular) 0 entries (entry auction)
      (entry (record auction { id = 11 })) 4 (omega arith) refl refl refl refl (omega arith)
