-- ===== src/Retention/Daily.antt =====
-- A whole run of the retention, and the days it keeps rows.
use sneakerbid.Base.{
  ℕ, suc, ◌+◌, ◌≤◌, ◌<◌, some, List, [], ◌∷◌, ◌≡◌, refl, arith, ltb, filter_by, length, Bool,
  String, Bool-cases, inl, inr, same_text, ◌||◌, none, Option,
}
use sneakerbid.Base.Int.{ℤ, pos, negsuc}
use sneakerbid.Store.Rows.{Order, Db}
use sneakerbid.Retention.{
  is_expired, is_orphan, cutoff_of, Purged, purge_old_closed_auctions, purge_auctions, purge_orders,
  purge_sneakers, Setting, missing, number, text, days_of, normalize_data_retention_days,
}
use sneakerbid.Retention.Ending.{closed_auctions-ends, old_orders-ends, orphan_sneakers-ends}

days_of-bound : (n : Option ℤ) → days_of n ≤ 365
days_of-bound none = omega arith
days_of-bound (some (pos n)) = omega arith
days_of-bound (some (negsuc n)) = omega arith

-- Whatever is configured, rows are kept for a year at most.
normalize_data_retention_days-bound :
    (trim : String → String) (parse_int : String → Option ℤ) (s : Setting)
    → normalize_data_retention_days trim parse_int s ≤ 365
unfolding normalize_data_retention_days
normalize_data_retention_days-bound trim parse_int missing = omega arith
normalize_data_retention_days-bound trim parse_int (number floor) = days_of-bound floor
normalize_data_retention_days-bound trim parse_int (text raw) =
    elim (Bool-cases (same_text raw "" || same_text (trim raw) "")) [
      | inl e ↦ rw e (omega arith)
      | inr e ↦ rw e (days_of-bound (parse_int (trim raw)))
    ]

length-filter_by : (p : Order → Bool) (xs : List Order) → length (filter_by p xs) ≤ length xs
length-filter_by p [] = omega arith
length-filter_by p (x ∷ xs) = ground (arith, length-filter_by p xs)

-- What the deletion of auctions keeps, that of orders, and that of sneakers.
abbrev KeepsUsers : Db → Db → Type 0
KeepsUsers db d =
    (d.users ≡ db.users) × (d.sneakers ≡ db.sneakers) × (length d.orders ≤ length db.orders)

purge_auctions-KeepsUsers :
    (db : Db) (ids : List ℕ) (d : Db) → KeepsUsers db d → KeepsUsers db (purge_auctions ids d)
unfolding purge_auctions
purge_auctions-KeepsUsers db ids d (u, s, o) = (u, s, omega (arith, length-filter_by _ d.orders, o))

abbrev KeepsAuctions : Db → Db → Type 0
KeepsAuctions db d = (d.users ≡ db.users) × (d.sneakers ≡ db.sneakers) × (d.auctions ≡ db.auctions)

abbrev KeepsOrders : Db → Db → Type 0
KeepsOrders db d = (d.users ≡ db.users) × (d.orders ≡ db.orders) × (d.auctions ≡ db.auctions)

-- With days to keep, a run of the retention ends, each loop with at most one batch more than its table
-- has rows. It leaves no auction that was closed before the cutoff, no order that was made before it,
-- and no sneaker made before it that no auction has; it reports as many auctions and sneakers as are
-- gone, and changes no balance.
pub purge_old_closed_auctions-ends :
    (fuel days now : ℕ) (db : Db)
    → length db.auctions < fuel
    → length db.orders < fuel
    → length db.sneakers < fuel
    → (r : Purged) × (db' : Db) × (purge_old_closed_auctions fuel (suc days) now db
        ≡ some (some r, db'))
      × (filter_by (is_expired (cutoff_of (suc days) now)) db'.auctions ≡ [])
      × (filter_by (λ o. ltb o.created_at (cutoff_of (suc days) now)) db'.orders ≡ [])
      × (filter_by (is_orphan (cutoff_of (suc days) now) db'.auctions) db'.sneakers ≡ [])
      × (r.total_auctions + length db'.auctions ≡ length db.auctions)
      × (r.total_sneakers + length db'.sneakers ≡ length db.sneakers)
      × (db'.users ≡ db.users)
unfolding purge_old_closed_auctions purge_orders purge_sneakers
purge_old_closed_auctions-ends fuel days now db few_auctions few_orders few_sneakers =
    let cutoff = cutoff_of (suc days) now in
    let (n_1, d_1, e_1, c_1, left_1, (u_1, s_1, o_1)) =
      closed_auctions-ends (KeepsUsers db) cutoff fuel db (purge_auctions-KeepsUsers db)
        few_auctions (refl, refl, omega arith) in
    let (n_2, d_2, e_2, c_2, left_2, (u_2, s_2, a_2)) =
      old_orders-ends (KeepsAuctions d_1) cutoff fuel d_1 (λ ids d k. k) (omega arith)
        (refl, refl, refl) in
    let few : length d_2.sneakers < fuel = rw (s_2, s_1) few_sneakers in
    let (n_3, d_3, e_3, c_3, left_3, (u_3, o_3, a_3)) =
      orphan_sneakers-ends (KeepsOrders d_2) cutoff fuel d_2 (λ ids d k. k) few
        (refl, refl, refl) in
    (
      record { total_auctions = n_1; total_orders = n_2; total_sneakers = n_3 },
      d_3,
      rw (e_1, e_2, e_3) refl,
      rw (a_3, a_2) left_1,
      rw o_3 left_2,
      left_3,
      rw (a_3, a_2) c_1,
      cc,
      cc,
    )
