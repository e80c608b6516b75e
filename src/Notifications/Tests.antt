-- ===== src/Notifications/Tests.antt =====
-- Three notifications of one user in pages of two, one of them read, and one asked for again.
use sneakerbid.Base.{map, refl, ℕ, none, List, [], ◌∷◌, ◌≡◌, arith, String}
use sneakerbid.Base.Int.{pos}
use sneakerbid.Store.Pages.Order.{UniqueKeys}
use sneakerbid.Notifications.{
  notify_wishlist_ending_soon, notify_bid_overtaken, create_and_publish,
  exists_recent_for_auction_type, Notification, Box, Metadata, follow, newest_first, of_user, id_of,
}
use sneakerbid.Notifications.Paging.{time_of, follow-newest_first}
use sneakerbid.Notifications.Spacing.{Call, called_all, AllSpaced, called_all-AllSpaced}

abbrev of_auction : Metadata
of_auction = record { auction_id = 10; final_price = none; current_price = none; end_time = none }

abbrev note : ℕ → ℕ → ℕ → Notification
note id u time = record {
  id = id;
  user_id = u;
  type = "BID_OVERTAKEN";
  title = "";
  body = none;
  read_at = none;
  metadata = of_auction;
  created_at = time;
}

abbrev notes : List Notification
notes = note 1 2 500 ∷ note 2 2 700 ∷ note 3 3 600 ∷ note 4 2 600 ∷ []

distinct_times : UniqueKeys time_of (of_user 2 notes)
distinct_times =
    ((λ e. omega (arith, e), (λ e. omega (arith, e), tt)), ((λ e. omega (arith, e), tt), (tt, tt)))

distinct_ids : UniqueKeys id_of (of_user 2 notes)
distinct_ids =
    ((λ e. omega (arith, e), (λ e. omega (arith, e), tt)), ((λ e. omega (arith, e), tt), (tt, tt)))

follow-newest_first_example : follow 4 2 (pos 2) none notes ≡ newest_first (of_user 2 notes)
follow-newest_first_example =
    follow-newest_first 2 (pos 2) notes 4 distinct_times distinct_ids (omega arith)

abbrev as_text : ℕ → String
as_text n = "120"

-- The second call asks before the row of the first is there, and the third one after.
abbrev calls : List Call
calls =
    Call.wishlist_ending_soon 0 900 5 1000 2 10 "Nike" 9000
    ∷ Call.wishlist_ending_soon 1 950 6 1100 2 10 "Nike" 9000
    ∷ Call.wishlist_ending_soon 0 2000 7 2000 2 10 "Nike" 9000
    ∷ Call.bid_overtaken 8 3000 2 10
    ∷ []

abbrev empty : Box
empty = record { rows = []; published = [] }

-- The user is told twice.
told_twice : map (λ n. n.id) (called_all as_text as_text calls empty).rows ≡ 8 ∷ 6 ∷ 5 ∷ []
unfolding notify_wishlist_ending_soon notify_bid_overtaken create_and_publish
    exists_recent_for_auction_type
told_twice = refl

called_all-AllSpaced_example : AllSpaced as_text as_text 1 (called_all as_text as_text calls empty)
called_all-AllSpaced_example =
    called_all-AllSpaced as_text as_text 1 calls empty
      (
        (omega arith, omega arith),
        ((omega arith, omega arith), ((omega arith, omega arith), (tt, tt))),
      )
      (tt, tt)
