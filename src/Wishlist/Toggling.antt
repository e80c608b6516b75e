-- ===== src/Wishlist/Toggling.antt =====
-- What toggling an auction of the wish list does.
use sneakerbid.Base.{
  ℕ, Bool, true, false, List, [], ◌∷◌, ◌≡◌, refl, arith, ◌==◌, ◌&&◌, not, any, filter_by, map,
  Bool-cases, inl, inr,
}
use sneakerbid.Store.Rows.{Wishlist, Db}
use sneakerbid.Store.Tx.{ok}
use sneakerbid.Wishlist.{
  is_wish, is_wishlisted, toggle_atomic, toggle, contains, find_wishlisted_auction_ids_in,
  get_wishlisted_map,
}

is_wishlisted-filter_self :
    (u a : ℕ) (ws : List Wishlist)
    → is_wishlisted u a (filter_by (λ w. not (is_wish u a w)) ws) ≡ false
is_wishlisted-filter_self u a [] = refl
is_wishlisted-filter_self u a (w ∷ ws) = ground (arith, is_wishlisted-filter_self u a ws)

is_wishlisted-filter_ne :
    (u a v c : ℕ) (ws : List Wishlist)
    → (v == u && c == a) ≡ false
    → is_wishlisted v c (filter_by (λ w. not (is_wish u a w)) ws) ≡ is_wishlisted v c ws
is_wishlisted-filter_ne u a v c [] h = refl
is_wishlisted-filter_ne u a v c (w ∷ ws) h = ground (arith, is_wishlisted-filter_ne u a v c ws)

-- The rows after a toggle.
toggle_atomic-is_wishlisted :
    (u a : ℕ) (ws : List Wishlist)
    → let r = toggle_atomic u a ws in
      (r.0 ≡ not (is_wishlisted u a ws))
      × (is_wishlisted u a r.1 ≡ r.0)
      × ((v c : ℕ) → (v == u && c == a) ≡ false → is_wishlisted v c r.1 ≡ is_wishlisted v c ws)
unfolding toggle_atomic
toggle_atomic-is_wishlisted u a ws = elim (Bool-cases (is_wishlisted u a ws)) [
  | inl there ↦
      rw there
        (refl, is_wishlisted-filter_self u a ws, λ v c ne. is_wishlisted-filter_ne u a v c ws ne)
  | inr missing ↦ rw missing (refl, ground arith, λ v c ne. ground arith)
]

-- Toggling succeeds for any auction that is there. It answers whether the auction is on the user's
-- list afterwards, which is when it was not before, and changes nothing else: neither another user's
-- list nor another auction on it, nor any other table.
pub toggle-is_wishlisted :
    (a u : ℕ) (db : Db)
    → any (λ x. x.id == a) db.auctions ≡ true
    → (b : Bool) × (ws : List Wishlist) × (toggle a u db ≡ ok (b, record db { wishlists = ws }))
      × (b ≡ not (is_wishlisted u a db.wishlists))
      × (is_wishlisted u a ws ≡ b)
      × ((v c : ℕ)
          → (v == u && c == a) ≡ false
          → is_wishlisted v c ws ≡ is_wishlisted v c db.wishlists)
unfolding toggle
toggle-is_wishlisted a u db h =
    let (is_b, after, others) = toggle_atomic-is_wishlisted u a db.wishlists in
    let (b, ws) = toggle_atomic u a db.wishlists in (b, ws, rw h refl, is_b, after, others)

contains-found :
    (u a : ℕ) (ids : List ℕ) (ws : List Wishlist)
    → contains a ids ≡ true
    → contains a (find_wishlisted_auction_ids_in u ids ws) ≡ is_wishlisted u a ws
unfolding find_wishlisted_auction_ids_in
contains-found u a ids [] h = refl
contains-found u a ids (w ∷ ws) h = ground (arith, contains-found u a ids ws h)

map-contains :
    (u : ℕ) (ids some_ids : List ℕ) (ws : List Wishlist)
    → ((a : ℕ) → contains a some_ids ≡ true → contains a ids ≡ true)
    → map {B = ℕ × Bool} (λ a. (a, contains a (find_wishlisted_auction_ids_in u ids ws))) some_ids
      ≡ map {B = ℕ × Bool} (λ a. (a, is_wishlisted u a ws)) some_ids
map-contains u ids [] ws h = refl
map-contains u ids (a ∷ some_ids) ws h =
    let head : contains a (find_wishlisted_auction_ids_in u ids ws) ≡ is_wishlisted u a ws =
      contains-found u a ids ws (h a (ground arith)) in
    let tail = map-contains u ids some_ids ws (λ c k. h c (ground (arith, k))) in
    rw (head, tail) refl

-- The map of an account's wishes that one query fills says of each auction that was asked for whether
-- the user has it on the list.
pub get_wishlisted_map-is_wishlisted :
    (u : ℕ) (ids : List ℕ) (ws : List Wishlist)
    → get_wishlisted_map u ids ws ≡ map {B = ℕ × Bool} (λ a. (a, is_wishlisted u a ws)) ids
unfolding get_wishlisted_map
get_wishlisted_map-is_wishlisted u ids ws = map-contains u ids ids ws (λ a h. h)
