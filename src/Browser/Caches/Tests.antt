-- ===== src/Browser/Caches/Tests.antt =====
-- Toggles and bids on the caches of a client.
use sneakerbid.Base.{◌+◌, Bool, true, false, Option, none, some, [], ◌∷◌, ◌≡◌, refl}
use sneakerbid.Store.Rows.{AuctionStatus}
use sneakerbid.Listing.{Summary}
use sneakerbid.Browser.Caches.{
  Caches, was_wishlisted, on_mutate, on_error, on_bid_placed, on_bid_event,
}
use sneakerbid.Browser.Caches.Rollback.{AllLists, on_error-on_mutate}
use sneakerbid.Browser.Caches.Counts.{InCaches, Shows, on_bid_placed-on_bid_event}

abbrev summary : Option Bool → Summary
summary wished = record {
  auction_id = 10;
  sneaker_name = "Air Max 1";
  brand = "Nike";
  image_url = "/air-max.webp";
  size = "270";
  current_price = 120;
  end_time = 60000;
  status = AuctionStatus.opened;
  bid_count = 3;
  buy_now_price = none;
  winner_user_id = none;
  closed_at = none;
  minimum_increment = 10;
  is_wishlisted = wished;
}

-- The auction is in a list alone, with the mark.
abbrev listed : Caches
listed = record {
  main = none;
  lists = some ((summary (some true) ∷ []) ∷ []) ∷ none ∷ [];
  wishlist_my = none;
  wishlist_my_is_stale = false;
}

-- A toggle that fails takes the mark away.
unmarked :
    (on_error 10 (on_mutate 10 listed).0 (on_mutate 10 listed).1).lists
    ≡ some ((summary (some false) ∷ []) ∷ []) ∷ none ∷ []
unfolding on_error on_mutate
unmarked = refl

on_error-on_mutate_example :
    let after = on_error 10 (on_mutate 10 listed).0 (on_mutate 10 listed).1 in
    (after.main ≡ none)
    × AllLists 10 (some (was_wishlisted 10 listed)) after
    × (AllLists 10 (some (was_wishlisted 10 listed)) listed → after ≡ listed)
on_error-on_mutate_example = on_error-on_mutate 10 listed

on_bid_placed-on_bid_event_example :
    InCaches
      (Shows 130 4)
      10
      (on_bid_event 10 130 (some 4) (on_bid_placed (some 130) 10 130 listed))
    × InCaches
        (Shows 130 (4 + 1))
        10
        (on_bid_placed (some 130) 10 130 (on_bid_event 10 130 (some 4) listed))
on_bid_placed-on_bid_event_example = on_bid_placed-on_bid_event 10 130 4 (some 130) listed
