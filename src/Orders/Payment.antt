-- ===== src/Orders/Payment.antt =====
-- The transaction of `payOrder` and the order that it claims.
use sneakerbid.Base.{
  ℕ, Bool, true, false, some, List, [], ◌∷◌, ◌≡◌, refl, arith, ◌==◌, Option-cases, Bool-cases, inl,
  inr, ◌∙◌, subst, ap,
}
use sneakerbid.Store.Rows.{Bid, Order, Db, is_pending}
use sneakerbid.Store.Table.{find, update, find-update_self}
use sneakerbid.Store.Tx.{ok, err, Error, ◌>>◌}
use sneakerbid.Store.Client.{
  order_update_pending, order_find_or_throw, auction_find, auction_bids, disqualify, bid_disqualify,
  active_bids,
}
use sneakerbid.Store.Laws.{>>=-eq-ok}
use sneakerbid.Wallet.{pay, settle_seller, convert_hold_to_payment}
use sneakerbid.Orders.{
  pay_order_tx, OrderPayRow, charge_buyer, drop_all, paid_order, return_bids, after_claim,
  settle_order,
}
use sneakerbid.Orders.Releases.{released, release_bid_hold-released, released-orders}

-- An order that is not pending cannot be claimed.
claim_refused :
    (id : ℕ) (f : Order → Order) (o : Order) (db : Db)
    → find (λ x. x.id) id db.orders ≡ some o
    → is_pending o.status ≡ false
    → order_update_pending id f db ≡ ok (0, db)
unfolding order_update_pending
claim_refused id f o db e p = rw e (rw p refl)

pub claim_cases :
    (id : ℕ) (f : Order → Order) (n : ℕ) (db db' : Db)
    → order_update_pending id f db ≡ ok (n, db')
    → (n == 0) ≡ false
    → (o : Order) × (find (λ x. x.id) id db.orders ≡ some o)
      × (is_pending o.status ≡ true)
      × (db' ≡ record db { orders = update (λ x. x.id) id f db.orders })
unfolding order_update_pending
claim_cases id f n db db' h p = elim (Option-cases (find (λ x. x.id) id db.orders)) [
  | inl missing ↦ absurd (ground arith)
  | inr (o, e) ↦ (o, e, ground arith, ground arith)
]

-- The database with bids taken out and their holds given back.
unfoldable pub dropped : List Bid → ℕ → Db → Db
dropped [] now db = db
dropped (b ∷ bs) now db = dropped bs now (
    released b.user_id b.bid_price b.id
      (record db { bids = update (λ x. x.id) b.id (disqualify now) db.bids }))

pub drop_all-dropped :
    (bs : List Bid) (now : ℕ) (db : Db) → drop_all bs now db ≡ ok (tt, dropped bs now db)
unfolding drop_all dropped bid_disqualify
drop_all-dropped [] now db = refl
drop_all-dropped (b ∷ bs) now db =
    rw
      (release_bid_hold-released b.user_id b.bid_price b.id
        (record db { bids = update (λ x. x.id) b.id (disqualify now) db.bids }))
      (drop_all-dropped bs now _)

dropped-orders : (bs : List Bid) (now : ℕ) (db : Db) → (dropped bs now db).orders ≡ db.orders
unfolding dropped
dropped-orders [] now db = refl
dropped-orders (b ∷ bs) now db =
    dropped-orders bs now _ ∙ released-orders b.user_id b.bid_price b.id _

drop_all-orders :
    (bs : List Bid) (now : ℕ) (db db' : Db)
    → drop_all bs now db ≡ ok (tt, db')
    → db'.orders ≡ db.orders
drop_all-orders bs now db db' h =
    let same : dropped bs now db ≡ db' = cc (drop_all-dropped bs now db) in
    subst (λ (d : Db). d.orders ≡ db.orders) same (dropped-orders bs now db)

pay-orders :
    (u n o : ℕ) (x : Bool) (db db' : Db) → pay u n o db ≡ ok (x, db') → db'.orders ≡ db.orders
unfolding pay
pay-orders u n o x db db' h = ground arith

return_bids-orders :
    (auction_id now : ℕ) (db db' : Db)
    → return_bids auction_id now db ≡ ok (tt, db')
    → db'.orders ≡ db.orders
unfolding auction_find auction_bids
return_bids-orders auction_id now db db' h = ground (
  arith,
  drop_all-orders (active_bids auction_id db.bids) now db db',
  drop_all-orders [] now db db',
)

pub clash : {A : Type 0} {x : A} {e : Error} → err e ≡ ok x → ⊥
clash h = cc

charge_buyer-orders :
    (w : Bool) (order_id auction_id user_id price now : ℕ) (db db' : Db)
    → charge_buyer w order_id auction_id user_id price now db ≡ ok (tt, db')
    → db'.orders ≡ db.orders
unfolding convert_hold_to_payment
charge_buyer-orders true order_id auction_id user_id price now db db' h = ground arith
charge_buyer-orders false order_id auction_id user_id price now db db' h =
    let (paid, db1, e, k) = >>=-eq-ok (pay user_id price order_id) _ h in
    elim (Bool-cases paid) [
      | inl enough ↦
          return_bids-orders auction_id now db1 db' (rw enough at k)
          ∙ pay-orders user_id price order_id paid db db1 e
      | inr short ↦ absurd (clash (rw short at k))
    ]

settle_seller-orders :
    (u n o : ℕ) (db db' : Db) → settle_seller u n o db ≡ ok (tt, db') → db'.orders ≡ db.orders
unfolding settle_seller
settle_seller-orders u n o db db' h = ground arith

pub reread :
    (id : ℕ) (o r : Order) (db db' : Db)
    → find (λ x. x.id) id db.orders ≡ some o
    → order_find_or_throw id db ≡ ok (r, db')
    → (r ≡ o) × (db' ≡ db)
unfolding order_find_or_throw
reread id o r db db' e h = ground arith

after_won :
    (row : OrderPayRow) (w : Bool) (u now n : ℕ) (r : Order) (db db1 db' : Db)
    → order_update_pending row.order.id (paid_order now) db ≡ ok (n, db1)
    → (n == 0) ≡ false
    → (charge_buyer w row.order.id row.order.auction_id u row.order.final_price now
          >> settle_order row)
        db1
      ≡ ok (r, db')
    → (o : Order) × (find (λ x. x.id) row.order.id db.orders ≡ some o)
      × (is_pending o.status ≡ true)
      × (r ≡ paid_order now o)
      × (db'.orders ≡ update (λ x. x.id) row.order.id (paid_order now) db.orders)
after_won row w u now n r db db1 db' e1 won h =
    let id = row.order.id in
    let charge = charge_buyer w id row.order.auction_id u row.order.final_price now in
    let (o, found, pending, e) = claim_cases id (paid_order now) n db db1 e1 won in
    let (_, db2, e2, h2) = >>=-eq-ok charge (λ _. settle_order row) {db = db1} h in
    let (_, db3, e3, h3) =
      >>=-eq-ok (settle_seller row.seller_user_id row.order.final_price id)
        (λ _. order_find_or_throw id) {db = db2} h2 in
    let same =
      settle_seller-orders row.seller_user_id row.order.final_price id db2 db3 e3
      ∙ charge_buyer-orders w id row.order.auction_id u row.order.final_price now db1 db2 e2
      ∙ ap (λ (d : Db). d.orders) e in
    let paid : find (λ x. x.id) id db3.orders ≡ some (paid_order now o) =
      ap (find (λ x. x.id) id) same
      ∙ find-update_self (λ x. x.id) (paid_order now) (λ x. refl) id db.orders o found in
    let (is_r, is_db) = reread id (paid_order now o) r db3 db' paid h3 in
    (o, found, pending, is_r, ap (λ (d : Db). d.orders) is_db ∙ same)

-- A payment that succeeds finds the order pending, returns it as paid, and changes no other order.
pub pay_order_tx-orders :
    (row : OrderPayRow) (w : Bool) (u now : ℕ) (r : Order) (db db' : Db)
    → pay_order_tx row w u now db ≡ ok (r, db')
    → (o : Order) × (find (λ x. x.id) row.order.id db.orders ≡ some o)
      × (is_pending o.status ≡ true)
      × (r ≡ paid_order now o)
      × (db'.orders ≡ update (λ x. x.id) row.order.id (paid_order now) db.orders)
unfolding pay_order_tx
pay_order_tx-orders row w u now r db db' h =
    let id = row.order.id in
    let f = paid_order now in
    let (n, db1, e1, h1) =
      >>=-eq-ok (order_update_pending id f) (after_claim row w u now) {db = db} h in
    elim (Bool-cases (n == 0)) [
      | inl lost ↦ absurd (clash (rw lost at h1))
      | inr won ↦ after_won row w u now n r db db1 db' e1 won (rw won at h1)
    ]

-- A payment that succeeds finds the order pending, leaves it paid, and returns it so.
pub pay_order_tx-ok :
    (row : OrderPayRow) (w : Bool) (u now : ℕ) (r : Order) (db db' : Db)
    → pay_order_tx row w u now db ≡ ok (r, db')
    → (o : Order) × (find (λ x. x.id) row.order.id db.orders ≡ some o)
      × (is_pending o.status ≡ true)
      × (r ≡ paid_order now o)
      × (find (λ x. x.id) row.order.id db'.orders ≡ some (paid_order now o))
pay_order_tx-ok row w u now r db db' h =
    let (o, found, pending, is_r, orders) = pay_order_tx-orders row w u now r db db' h in
    (
      o,
      found,
      pending,
      is_r,
      ap (find (λ x. x.id) row.order.id) orders
          ∙ find-update_self (λ x. x.id) (paid_order now) (λ x. refl) row.order.id db.orders o
              found,
    )

-- After a payment of an order succeeded, a second payment of it on the database that it left, whoever
-- asks for it and whatever was read before, is refused as a conflict.
pub pay_order_tx-pay_order_tx :
    (row row' : OrderPayRow) (w w' : Bool) (u u' now now' : ℕ) (r : Order) (db db' : Db)
    → row'.order.id ≡ row.order.id
    → pay_order_tx row w u now db ≡ ok (r, db')
    → pay_order_tx row' w' u' now' db' ≡ err Error.already_paid
unfolding pay_order_tx
pay_order_tx-pay_order_tx row row' w w' u u' now now' r db db' same h =
    let (o, _, _, _, e) = pay_order_tx-ok row w u now r db db' h in
    rw (claim_refused row'.order.id (paid_order now') (paid_order now o) db' (rw same e) refl) refl
