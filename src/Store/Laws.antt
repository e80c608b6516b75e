-- ===== src/Store/Laws.antt =====
-- What the calls of the client do to a row that is there.
use sneakerbid.Base.{
  Option, none, List, ◌⊎◌, inl, inr, Option-cases, Bool-cases, ℕ, true, false, some, ◌∷◌, any, ◌==◌,
  ◌≡◌, refl,
}
use sneakerbid.Store.Rows.{Auction, Order, Db}
use sneakerbid.Store.Table.{find, update}
use sneakerbid.Store.Tx.{Tx, Result, ok, err, Error, after, ◌>>=◌}
use sneakerbid.Store.Client.{auction_update, auction_check, order_create}

module _ (id : ℕ) (f : Auction → Auction) (a : Auction) (db : Db)
    (e : find (λ x. x.id) id db.auctions ≡ some a) where
  -- An UPDATE of an auction that is there writes the row when the constraints hold of it,
  pub auction_update-written :
      auction_check (f a) ≡ true
      → auction_update id f db
        ≡ ok (some (f a), record db { auctions = update (λ x. x.id) id f db.auctions })
  unfolding auction_update
  auction_update-written c = rw e (rw c refl)

  -- and throws otherwise.
  pub auction_update-violation :
      auction_check (f a) ≡ false → auction_update id f db ≡ err Error.check_violation
  unfolding auction_update
  auction_update-violation c = rw e (rw c refl)

auction_update-missing :
    (id : ℕ) (f : Auction → Auction) (db : Db)
    → find (λ x. x.id) id db.auctions ≡ none
    → auction_update id f db ≡ ok (none, db)
unfolding auction_update
auction_update-missing id f db e = rw e refl

-- An order can be made only for an auction that has none.
pub order_create-free :
    (o : Order) (db : Db)
    → any (λ x. x.auction_id == o.auction_id) db.orders ≡ false
    → order_create o db ≡ ok (o, record db { orders = o ∷ db.orders })
unfolding order_create
order_create-free o db h = rw h refl

pub order_create-blocked :
    (o : Order) (db : Db)
    → any (λ x. x.auction_id == o.auction_id) db.orders ≡ true
    → order_create o db ≡ err Error.unique_violation
unfolding order_create
order_create-blocked o db h = rw h refl

-- Inversion of a step that succeeded.
pub >>=-eq-ok :
    {A B : Type 0} (m : Tx A) (f : A → Tx B) {b : B} {db db' : Db}
    → (m >>= f) db ≡ ok (b, db')
    → (a : A) × (db1 : Db) × (m db ≡ ok (a, db1)) × (f a db1 ≡ ok (b, db'))
>>=-eq-ok {A} {B} m f {b} {db} {db'} h = go (m db) refl h
  where
    go :
        (r : Result (A × Db))
        → m db ≡ r
        → after f r ≡ ok (b, db')
        → (a : A) × (db1 : Db) × (m db ≡ ok (a, db1)) × (f a db1 ≡ ok (b, db'))
    go (ok (a, db1)) e k = (a, db1, e, k)
    go (err x) e k = cc

-- An UPDATE of an auction throws, or changes auctions alone.
pub auction_update-auctions :
    (id : ℕ) (f : Auction → Auction) (db : Db)
    → (auction_update id f db ≡ err Error.check_violation)
      ⊎ ((x : Option Auction) × (xs : List Auction) × (auction_update id f db
            ≡ ok (x, record db { auctions = xs })))
auction_update-auctions id f db = elim (Option-cases (find (λ x. x.id) id db.auctions)) [
  | inl missing ↦ inr (none, db.auctions, auction_update-missing id f db missing)
  | inr (a, e) ↦ elim (Bool-cases (auction_check (f a))) [
    | inl holds ↦ inr (some (f a), _, auction_update-written id f a db e holds)
    | inr fails ↦ inl (auction_update-violation id f a db e fails)
  ]
]
