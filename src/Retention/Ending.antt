-- ===== src/Retention/Ending.antt =====
-- That the deletions end, and what they leave.
use sneakerbid.Base.{
  ℕ, zero, suc, ◌+◌, ◌-◌, ◌<◌, false, some, List, [], ◌∷◌, ◌≡◌, refl, arith, ◌==◌, ltb, filter_by,
  length, map, Bool-cases, inl, inr,
}
use sneakerbid.Store.Rows.{Auction, Order, Db}
use sneakerbid.Retention.{
  purge_batches, purge_closed_auction_batches, purge_orders_older_than, closed_batch, order_batch,
  purge_auctions, purge_orders, purge_sneakers, purge_orphan_sneakers_older_than, sneaker_batch,
  is_orphan, is_expired, forget_origins, or_zero, data_retention_batch_size, without,
}
use sneakerbid.Retention.Batches.{batch_of-fewer, batch_of-all, batch_of-none}

-- A loop whose batches, while they are not empty, leave fewer rows, and are empty or the last one only
-- when it is done.
module _ (batch : Db → List ℕ) (purge : List ℕ → Db → Db) (rows : Db → ℕ) (size : ℕ)
    (Done : Db → Type 0)
    (fewer : (db : Db) → (length (batch db) == 0) ≡ false → rows (purge (batch db) db) < rows db)
    (empty : (db : Db) → length (batch db) ≡ 0 → Done db)
    (last : (db : Db) → length (batch db) < size → Done (purge (batch db) db)) (P : Db → Type 0)
    (keeps : (ids : List ℕ) (db : Db) → P db → P (purge ids db)) where
  purge_batches-ends :
      (fuel total : ℕ) (db : Db)
      → rows db < fuel
      → P db
      → (n : ℕ) × (db' : Db) × (purge_batches batch purge rows size fuel total db ≡ some (n, db'))
        × (n + rows db' ≡ total + rows db)
        × Done db'
        × P db'
  unfolding purge_batches
  purge_batches-ends zero total db few p = absurd (omega arith)
  purge_batches-ends (suc fuel) total db few p = elim (Bool-cases (length (batch db) == 0)) [
    | inl none_old ↦ (total, db, rw none_old refl, refl, empty db (ground arith), p)
    | inr some_old ↦
        let db' = purge (batch db) db in
        let total' = total + (rows db - rows db') in
        let less = fewer db some_old in
        elim (Bool-cases (ltb (length (batch db)) size)) [
          | inl short ↦ (
            total',
            db',
            rw (some_old, short) refl,
            omega (arith, less),
            last db (ground arith),
            keeps (batch db) db p,
          )
          | inr full ↦
              let (n, d, e, count, done, q) =
                purge_batches-ends fuel total' db' (omega (arith, less)) (keeps (batch db) db p) in
              (n, d, rw (some_old, full) e, omega (arith, count, less), done, q)
        ]
  ]

  -- The loop from its start.
  purge_batches-ends_all :
      (fuel : ℕ) (db : Db)
      → rows db < fuel
      → P db
      → (n : ℕ) × (db' : Db) × (purge_batches batch purge rows size fuel 0 db ≡ some (n, db'))
        × (n + rows db' ≡ rows db)
        × Done db'
        × P db'
  purge_batches-ends_all fuel db few p =
      let (n, d, e, count, done, q) = purge_batches-ends fuel 0 db few p in
      (n, d, e, omega (arith, count), done, q)

filter-forget_origins :
    (cutoff : ℕ) (ids : List ℕ) (xs : List Auction)
    → filter_by (is_expired cutoff) xs ≡ []
    → filter_by (is_expired cutoff) (map (forget_origins ids) xs) ≡ []
filter-forget_origins cutoff ids [] h = refl
filter-forget_origins cutoff ids (a ∷ xs) h = ground (arith, filter-forget_origins cutoff ids xs)

length-map {ℓ} : {A B : Type ℓ} (f : A → B) (xs : List A) → length (map f xs) ≡ length xs
length-map f [] = refl
length-map f (x ∷ xs) = omega (arith, length-map f xs)

abbrev size : ℕ
size = data_retention_batch_size

-- What a kept condition stays true of, for each of the three loops.
module _ (P : Db → Type 0) (cutoff : ℕ) where
  pub closed_auctions-ends :
      (fuel : ℕ) (db : Db)
      → ((ids : List ℕ) (d : Db) → P d → P (purge_auctions ids d))
      → length db.auctions < fuel
      → P db
      → (n : ℕ) × (db' : Db) × (purge_closed_auction_batches fuel cutoff db ≡ some (n, db'))
        × (n + length db'.auctions ≡ length db.auctions)
        × (filter_by (is_expired cutoff) db'.auctions ≡ [])
        × P db'
  unfolding purge_closed_auction_batches purge_auctions
  closed_auctions-ends fuel db keeps few p =
      purge_batches-ends_all (closed_batch cutoff size) purge_auctions (λ d. length d.auctions) size
        (λ d. filter_by (is_expired cutoff) d.auctions ≡ [])
        (λ d h. omega (
          arith,
          length-map (forget_origins (closed_batch cutoff size d))
              (without (λ a. a.id) (closed_batch cutoff size d) d.auctions),
          batch_of-fewer (λ a. a.id) (λ a. or_zero a.closed_at) (is_expired cutoff) size d.auctions
              h,
        ))
        (λ d h.
          batch_of-none (λ a. a.id) (λ a. or_zero a.closed_at) (is_expired cutoff) size d.auctions
            (omega arith) h)
        (λ d h.
          filter-forget_origins cutoff (closed_batch cutoff size d)
            (without (λ a. a.id) (closed_batch cutoff size d) d.auctions)
            (batch_of-all (λ a. a.id) (λ a. or_zero a.closed_at) (is_expired cutoff) size d.auctions
              h))
        P keeps fuel db few p

  pub old_orders-ends :
      (fuel : ℕ) (db : Db)
      → ((ids : List ℕ) (d : Db) → P d → P (purge_orders ids d))
      → length db.orders < fuel
      → P db
      → (n : ℕ) × (db' : Db) × (purge_orders_older_than fuel cutoff db ≡ some (n, db'))
        × (n + length db'.orders ≡ length db.orders)
        × (filter_by (λ o. ltb o.created_at cutoff) db'.orders ≡ [])
        × P db'
  unfolding purge_orders_older_than purge_orders
  old_orders-ends fuel db keeps few p =
      let old = λ (o : Order). ltb o.created_at cutoff in
      purge_batches-ends_all (order_batch cutoff size) purge_orders (λ d. length d.orders) size
        (λ d. filter_by old d.orders ≡ [])
        (λ d h. batch_of-fewer (λ o. o.id) (λ o. o.created_at) old size d.orders h)
        (λ d h. batch_of-none (λ o. o.id) (λ o. o.created_at) old size d.orders (omega arith) h)
        (λ d h. batch_of-all (λ o. o.id) (λ o. o.created_at) old size d.orders h) P keeps fuel db
        few p

  pub orphan_sneakers-ends :
      (fuel : ℕ) (db : Db)
      → ((ids : List ℕ) (d : Db) → P d → P (purge_sneakers ids d))
      → length db.sneakers < fuel
      → P db
      → (n : ℕ) × (db' : Db) × (purge_orphan_sneakers_older_than fuel cutoff db ≡ some (n, db'))
        × (n + length db'.sneakers ≡ length db.sneakers)
        × (filter_by (is_orphan cutoff db'.auctions) db'.sneakers ≡ [])
        × P db'
  unfolding purge_orphan_sneakers_older_than purge_sneakers
  orphan_sneakers-ends fuel db keeps few p =
      purge_batches-ends_all (sneaker_batch cutoff size) purge_sneakers (λ d. length d.sneakers)
        size (λ d. filter_by (is_orphan cutoff d.auctions) d.sneakers ≡ [])
        (λ d h.
          batch_of-fewer (λ s. s.id) (λ s. s.created_at) (is_orphan cutoff d.auctions) size
            d.sneakers h)
        (λ d h.
          batch_of-none (λ s. s.id) (λ s. s.created_at) (is_orphan cutoff d.auctions) size
            d.sneakers (omega arith) h)
        (λ d h.
          batch_of-all (λ s. s.id) (λ s. s.created_at) (is_orphan cutoff d.auctions) size d.sneakers
            h)
        P keeps fuel db few p

-- The deletion of closed auctions ends, with as many batches at most as there are auctions, and one: it
-- leaves no auction that was closed before the cutoff, reports as many as are gone, and changes no
-- balance.
purge_closed_auction_batches-ends :
    (fuel cutoff : ℕ) (db : Db)
    → length db.auctions < fuel
    → (n : ℕ) × (db' : Db) × (purge_closed_auction_batches fuel cutoff db ≡ some (n, db'))
      × (n + length db'.auctions ≡ length db.auctions)
      × (filter_by (is_expired cutoff) db'.auctions ≡ [])
      × (db'.users ≡ db.users)
unfolding purge_auctions
purge_closed_auction_batches-ends fuel cutoff db few =
    closed_auctions-ends (λ d. d.users ≡ db.users) cutoff fuel db (λ ids d h. h) few refl

-- The deletion of orders ends likewise: it leaves none that was made before the cutoff, whatever its
-- status, reports as many as are gone, and changes no balance.
purge_orders_older_than-ends :
    (fuel cutoff : ℕ) (db : Db)
    → length db.orders < fuel
    → (n : ℕ) × (db' : Db) × (purge_orders_older_than fuel cutoff db ≡ some (n, db'))
      × (n + length db'.orders ≡ length db.orders)
      × (filter_by (λ o. ltb o.created_at cutoff) db'.orders ≡ [])
      × (db'.users ≡ db.users)
unfolding purge_orders
purge_orders_older_than-ends fuel cutoff db few =
    old_orders-ends (λ d. d.users ≡ db.users) cutoff fuel db (λ ids d h. h) few refl
