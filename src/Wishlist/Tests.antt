-- ===== src/Wishlist/Tests.antt =====
-- Kim puts an auction on the list, and is told of its end.
use sneakerbid.Base.{Bool, ℕ, true, [], ◌∷◌, ◌≡◌, refl, String}
use sneakerbid.Store.Rows.{Auction, Db}
use sneakerbid.Samples.{db}
use sneakerbid.Notifications.{Box}
use sneakerbid.Wishlist.{notify_ending_soon, find_open_ending_before}
use sneakerbid.Wishlist.Alerts.{told, notify_ending_soon-told}

abbrev wished : Db
wished = record db { wishlists = record { user_id = 2; auction_id = 10 } ∷ [] }

abbrev empty : Box
empty = record { rows = []; published = [] }

abbrev new_id : ℕ → ℕ → ℕ
new_id a u = a

abbrev no_lag : ℕ → ℕ → ℕ
no_lag a u = 0

abbrev always : ℕ → ℕ → Bool
always a u = true

abbrev as_text : ℕ → String
as_text n = "120"

abbrev hint : Auction → String
hint a = "Nike Air Max 1"

notify_ending_soon-told_example :
    told 2 10 50000
      (notify_ending_soon new_id no_lag always as_text as_text hint 50000 wished empty)
    ≡ true
unfolding find_open_ending_before
notify_ending_soon-told_example =
    notify_ending_soon-told new_id no_lag always as_text as_text hint 50000 2 10 wished empty refl
      refl refl
