-- ===== src/Wishlist.antt =====
-- backend/src/wishlist/wishlist.service.ts and wishlist-alerts.service.ts, with
-- backend/src/database/repositories/wishlist-toggle.repository.ts and wishlist-read.repository.ts.
pub mod Toggling
pub mod Alerts
mod Tests
use sneakerbid.Base.{
  ℕ, ◌+◌, ◌*◌, Bool, true, false, List, [], ◌∷◌, ◌&&◌, ◌==◌, ltb, leb, if◌then◌else◌, not, any,
  filter_by, map, String, drop,
}
use sneakerbid.Store.Rows.{Auction, Wishlist, Db, is_opened}
use sneakerbid.Store.Table.{find}
use sneakerbid.Store.Tx.{Result, Error, ok, err}
use sneakerbid.Notifications.{Box, notify_wishlist_ending_soon}

abbrev pub is_wish : ℕ → ℕ → Wishlist → Bool
is_wish u a w = w.user_id == u && w.auction_id == a

abbrev pub is_wishlisted : ℕ → ℕ → List Wishlist → Bool
is_wishlisted u a ws = any (is_wish u a) ws

-- `toggleAtomic`: whether a row was inserted, and the rows.
unfoldable pub toggle_atomic : ℕ → ℕ → List Wishlist → Bool × List Wishlist
toggle_atomic u a ws =
    if is_wishlisted u a ws
    then (false, filter_by (λ w. not (is_wish u a w)) ws)
    else (true, record { user_id = u; auction_id = a } ∷ ws)

-- `toggle`, of an auction by a user: whether it is on the list afterwards.
unfoldable pub toggle : ℕ → ℕ → Db → Result (Bool × Db)
unfolding toggle_atomic
toggle a u db =
    if any (λ x. x.id == a) db.auctions
    then (let (inserted, ws) = toggle_atomic u a db.wishlists in
        ok (inserted, record db { wishlists = ws }))
    else err Error.auction_not_found

-- `findUserIdsByAuctionId`
unfoldable pub find_user_ids_by_auction_id : ℕ → List Wishlist → List ℕ
find_user_ids_by_auction_id a ws = map (λ w. w.user_id) (filter_by (λ w. w.auction_id == a) ws)

abbrev pub contains : ℕ → List ℕ → Bool
contains a ids = any (λ x. x == a) ids

-- `findWishlistedAuctionIdsIn`
unfoldable pub find_wishlisted_auction_ids_in : ℕ → List ℕ → List Wishlist → List ℕ
find_wishlisted_auction_ids_in u ids ws =
    map (λ w. w.auction_id) (filter_by (λ w. w.user_id == u && contains w.auction_id ids) ws)

-- `getWishlistedMap`, as its entries.
unfoldable pub get_wishlisted_map : ℕ → List ℕ → List Wishlist → List (ℕ × Bool)
unfolding find_wishlisted_auction_ids_in
get_wishlisted_map u ids ws =
    map (λ a. (a, contains a (find_wishlisted_auction_ids_in u ids ws))) ids

-- `findOpenEndingBefore`
abbrev pub is_open_ending : ℕ → ℕ → Auction → Bool
is_open_ending until now a = is_opened a.status && ltb now a.end_time && leb a.end_time until

unfoldable pub find_open_ending_before : ℕ → ℕ → List Auction → List Auction
find_open_ending_before until now xs = filter_by (is_open_ending until now) xs

-- The ids of new rows, the texts of numbers and dates, and the text of a sneaker's brand and model.
-- The calls for an auction and a user are not awaited: `lag` tells how many rows were inserted between
-- the two queries of a call, and `up` whether the database takes them; a failure is only logged.
module _ (new_id : ℕ → ℕ → ℕ) (lag : ℕ → ℕ → ℕ) (up : ℕ → ℕ → Bool)
    (number_text date_text : ℕ → String) (title_hint : Auction → String) where
  abbrev pub alert_user : ℕ → Auction → ℕ → Box → Box
  alert_user now a u b =
      if up a.id u
      then notify_wishlist_ending_soon number_text date_text (drop (lag a.id u) b.rows) now
          (new_id a.id u) now u a.id (title_hint a) a.end_time b
      else b

  -- The loop over the users of an auction, in the order in which the rows are inserted.
  unfoldable pub alert_users : ℕ → Auction → List ℕ → Box → Box
  alert_users now a [] b = b
  alert_users now a (u ∷ us) b = let rest = alert_users now a us in rest (alert_user now a u b)

  -- The loop over the auctions.
  unfoldable pub alert_auctions : ℕ → List Auction → List Wishlist → Box → Box
  unfolding find_user_ids_by_auction_id alert_users
  alert_auctions now [] ws b = b
  alert_auctions now (a ∷ xs) ws b =
      let rest = alert_auctions now xs ws in
      rest (alert_users now a (find_user_ids_by_auction_id a.id ws) b)

  -- `notifyEndingSoon`, where every auction has a sneaker
  unfoldable pub notify_ending_soon : ℕ → Db → Box → Box
  unfolding find_open_ending_before alert_auctions
  notify_ending_soon now db b =
      alert_auctions now (find_open_ending_before (now + 15 * 60 * 1000) now db.auctions)
        db.wishlists b
