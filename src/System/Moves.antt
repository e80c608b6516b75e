-- ===== src/System/Moves.antt =====
-- What a transaction does to the table of orders.
use sneakerbid.Base.{
  ℕ, ◌≤◌, Bool, true, false, none, some, List, [], ◌∷◌, ◌≡◌, refl, arith, ◌==◌, any, filter_by,
  length, not, String,
}
use sneakerbid.Store.Rows.{Order, Db, is_pending}
use sneakerbid.Store.Table.{find, update, find-update-none}
use sneakerbid.Orders.{paid_order, cancelled_order}
use sneakerbid.Auctions.Deletion.{blocking_orders}

-- A transaction leaves the orders, or places a pending one for an auction that has none, or marks a
-- pending one as paid or cancelled, or takes out those of an auction, all cancelled.
pub data OrdersMove (d d' : Db) : Type 0 where
  kept : d'.orders ≡ d.orders → OrdersMove d d'
  placed :
      (o : Order)
      → is_pending o.status ≡ true
      → find (λ x. x.id) o.id d.orders ≡ none
      → any (λ x. x.auction_id == o.auction_id) d.orders ≡ false
      → d'.orders ≡ o ∷ d.orders
      → OrdersMove d d'
  settled :
      (id now : ℕ) (o : Order)
      → find (λ x. x.id) id d.orders ≡ some o
      → is_pending o.status ≡ true
      → d'.orders ≡ update (λ x. x.id) id (paid_order now) d.orders
      → OrdersMove d d'
  dropped :
      (id : ℕ) (reason : String) (o : Order)
      → find (λ x. x.id) id d.orders ≡ some o
      → is_pending o.status ≡ true
      → d'.orders ≡ update (λ x. x.id) id (cancelled_order reason) d.orders
      → OrdersMove d d'
  purged :
      (auction_id : ℕ)
      → blocking_orders auction_id d ≡ 0
      → d'.orders ≡ filter_by (λ o. not (o.auction_id == auction_id)) d.orders
      → OrdersMove d d'

-- The ids of the orders are distinct.
abbrev pub Distinct : List Order → Type 0
Distinct [] = Unit
Distinct (o ∷ os) = (find (λ x. x.id) o.id os ≡ none) × Distinct os

Distinct-update :
    (id : ℕ) (f : Order → Order) (os : List Order)
    → ((x : Order) → (f x).id ≡ x.id)
    → Distinct os
    → Distinct (update (λ x. x.id) id f os)
Distinct-update id f [] keeps h = tt
Distinct-update id f (o ∷ os) keeps h = ground (
  arith,
  keeps o,
  Distinct-update id f os keeps h.1,
  find-update-none (λ x. x.id) f keeps o.id id os h.0,
)

pub find-filter-none :
    (k : ℕ) (p : Order → Bool) (os : List Order)
    → find (λ x. x.id) k os ≡ none
    → find (λ x. x.id) k (filter_by p os) ≡ none
find-filter-none k p [] h = refl
find-filter-none k p (o ∷ os) h = ground (arith, find-filter-none k p os)

Distinct-filter : (p : Order → Bool) (os : List Order) → Distinct os → Distinct (filter_by p os)
Distinct-filter p [] h = tt
Distinct-filter p (o ∷ os) h =
    ground (arith, Distinct-filter p os h.1, find-filter-none o.id p os h.0)

pub OrdersMove-Distinct : (d d' : Db) → OrdersMove d d' → Distinct d.orders → Distinct d'.orders
OrdersMove-Distinct d d' (kept e) h = rw e h
OrdersMove-Distinct d d' (placed o pending fresh free e) h = rw e (fresh, h)
OrdersMove-Distinct d d' (settled id now o found pending e) h =
    rw e (Distinct-update id (paid_order now) d.orders (λ x. refl) h)
OrdersMove-Distinct d d' (dropped id reason o found pending e) h =
    rw e (Distinct-update id (cancelled_order reason) d.orders (λ x. refl) h)
OrdersMove-Distinct d d' (purged auction_id none_left e) h =
    rw e (Distinct-filter (λ o. not (o.auction_id == auction_id)) d.orders h)

-- How many orders an auction has.
abbrev pub orders_of : ℕ → List Order → ℕ
orders_of a os = length (filter_by (λ o. o.auction_id == a) os)

orders_of-update :
    (a id : ℕ) (f : Order → Order) (os : List Order)
    → ((x : Order) → (f x).auction_id ≡ x.auction_id)
    → orders_of a (update (λ x. x.id) id f os) ≡ orders_of a os
orders_of-update a id f [] keeps = refl
orders_of-update a id f (o ∷ os) keeps = ground (arith, keeps o, orders_of-update a id f os keeps)

orders_of-filter :
    (a : ℕ) (p : Order → Bool) (os : List Order) → orders_of a (filter_by p os) ≤ orders_of a os
orders_of-filter a p [] = omega arith
orders_of-filter a p (o ∷ os) = ground (arith, orders_of-filter a p os)

orders_of-free :
    (a : ℕ) (os : List Order) → any (λ x. x.auction_id == a) os ≡ false → orders_of a os ≡ 0
orders_of-free a [] h = refl
orders_of-free a (o ∷ os) h = ground (arith, orders_of-free a os)

-- No auction has two orders.
abbrev pub Single : Db → Type 0
Single d = (a : ℕ) → orders_of a d.orders ≤ 1

pub OrdersMove-Single : (d d' : Db) → OrdersMove d d' → Single d → Single d'
OrdersMove-Single d d' (kept e) h a = rw e (h a)
OrdersMove-Single d d' (placed o pending fresh free e) h a =
    rw e (ground (arith, h a, orders_of-free o.auction_id d.orders free))
OrdersMove-Single d d' (settled id now o found pending e) h a =
    rw (e, orders_of-update a id (paid_order now) d.orders (λ x. refl)) (h a)
OrdersMove-Single d d' (dropped id reason o found pending e) h a =
    rw (e, orders_of-update a id (cancelled_order reason) d.orders (λ x. refl)) (h a)
OrdersMove-Single d d' (purged auction_id none_left e) h a =
    rw e (omega (arith, h a, orders_of-filter a (λ o. not (o.auction_id == auction_id)) d.orders))
