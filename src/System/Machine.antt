-- ===== src/System/Machine.antt =====
-- The life of an order as the rest of the system sees it: a machine on its status alone.
use sneakerbid.Base.{
  ℕ, Bool, true, false, Option, none, some, List, [], ◌∷◌, ◌≡◌, refl, arith, ◌==◌, if◌then◌else◌,
  filter_by, length, not, ◌&&◌, Bool-cases, Option-cases, inl, inr, ◌∙◌, ap, sym, eq_of_==, String,
}
use sneakerbid.Store.Rows.{Order, OrderStatus, Db, is_pending}
use sneakerbid.Store.Table.{find, update, find-update_self, find-update_ne}
use sneakerbid.Store.Deletes.{is_blocking}
use sneakerbid.Orders.{paid_order, cancelled_order}
use sneakerbid.Auctions.Deletion.{blocking_orders}
use sneakerbid.System.Moves.{
  OrdersMove, kept, placed, settled, dropped, purged, Distinct, find-filter-none,
}

-- The status of an order, if there is one with that id.
abbrev status_of : Option Order → Option OrderStatus
status_of none = none
status_of (some o) = some o.status

abbrev pub order_status : ℕ → Db → Option OrderStatus
order_status id d = status_of (find (λ o. o.id) id d.orders)

-- The machine. Nothing leads out of `paid`, and no order of any status but `cancelled` goes away.
pub data Transition (s t : Option OrderStatus) : Type 0 where
  stay : t ≡ s → Transition s t
  place : s ≡ none → t ≡ some OrderStatus.pending → Transition s t
  settle : s ≡ some OrderStatus.pending → t ≡ some OrderStatus.paid → Transition s t
  cancel : s ≡ some OrderStatus.pending → t ≡ some OrderStatus.cancelled → Transition s t
  purge : s ≡ some OrderStatus.cancelled → t ≡ none → Transition s t

-- A row is found after a filter when it was found before and passes.
abbrev kept_by : (Order → Bool) → Option Order → Option Order
kept_by p none = none
kept_by p (some o) = if p o then some o else none

find-filter :
    (k : ℕ) (p : Order → Bool) (os : List Order)
    → Distinct os
    → find (λ x. x.id) k (filter_by p os) ≡ kept_by p (find (λ x. x.id) k os)
find-filter k p [] h = refl
find-filter k p (o ∷ os) h = ground (arith, find-filter k p os h.1, find-filter-none o.id p os h.0)

-- Where an auction has no blocking order, its orders are cancelled.
unblocked :
    (a k : ℕ) (o : Order) (os : List Order)
    → length (filter_by (λ x. x.auction_id == a && is_blocking x.status) os) ≡ 0
    → find (λ x. x.id) k os ≡ some o
    → (o.auction_id == a) ≡ true
    → o.status ≡ OrderStatus.cancelled
unblocked a k o [] n e m = cc
unblocked a k o (x ∷ os) n e m = ground (arith, unblocked a k o os)

status-pending : (o : Order) → is_pending o.status ≡ true → o.status ≡ OrderStatus.pending
status-pending o h = ground arith

module _ (d d' : Db) (k id : ℕ) (f : Order → Order) (o : Order) (t : OrderStatus)
    (keeps : (x : Order) → (f x).id ≡ x.id) (to : (f o).status ≡ t)
    (found : find (λ x. x.id) id d.orders ≡ some o)
    (e : d'.orders ≡ update (λ x. x.id) id f d.orders) where
  order_status-update_self : (k == id) ≡ true → order_status k d' ≡ some t
  order_status-update_self same =
      let is_k = eq_of_== k id same in
      rw (e, is_k, find-update_self (λ x. x.id) f keeps id d.orders o found) (ap some to)

  order_status-update_ne : (k == id) ≡ false → order_status k d' ≡ order_status k d
  order_status-update_ne other =
      ap status_of
        (ap (find (λ x. x.id) k) e ∙ find-update_ne (λ x. x.id) f keeps k id d.orders other)

module _ (d d' : Db) (distinct : Distinct d.orders) (k : ℕ) where
  move-settled :
      (id now : ℕ) (o : Order)
      → find (λ x. x.id) id d.orders ≡ some o
      → is_pending o.status ≡ true
      → d'.orders ≡ update (λ x. x.id) id (paid_order now) d.orders
      → Transition (order_status k d) (order_status k d')
  move-settled id now o found pending e = elim (Bool-cases (k == id)) [
    | inl same ↦
        Transition.settle (rw (eq_of_== k id same, found) (ap some (status-pending o pending))) (
          order_status-update_self d d' k id (paid_order now) o OrderStatus.paid (λ x. refl) refl
            found e same)
    | inr other ↦ Transition.stay (
        order_status-update_ne d d' k id (paid_order now) o OrderStatus.paid (λ x. refl) refl found
          e other)
  ]

  move-dropped :
      (id : ℕ) (reason : String) (o : Order)
      → find (λ x. x.id) id d.orders ≡ some o
      → is_pending o.status ≡ true
      → d'.orders ≡ update (λ x. x.id) id (cancelled_order reason) d.orders
      → Transition (order_status k d) (order_status k d')
  move-dropped id reason o found pending e = elim (Bool-cases (k == id)) [
    | inl same ↦
        Transition.cancel (rw (eq_of_== k id same, found) (ap some (status-pending o pending))) (
          order_status-update_self d d' k id (cancelled_order reason) o OrderStatus.cancelled
            (λ x. refl) refl found e same)
    | inr other ↦ Transition.stay (
        order_status-update_ne d d' k id (cancelled_order reason) o OrderStatus.cancelled
          (λ x. refl) refl found e other)
  ]

  move-placed :
      (o : Order)
      → is_pending o.status ≡ true
      → find (λ x. x.id) o.id d.orders ≡ none
      → d'.orders ≡ o ∷ d.orders
      → Transition (order_status k d) (order_status k d')
  move-placed o pending fresh e = elim (Bool-cases (o.id == k)) [
    | inl same ↦
        Transition.place (rw (← eq_of_== o.id k same, fresh) refl)
          (rw (e, same) (ap some (status-pending o pending)))
    | inr other ↦ Transition.stay (rw (e, other) refl)
  ]

  move-purged :
      (a : ℕ)
      → blocking_orders a d ≡ 0
      → d'.orders ≡ filter_by (λ o. not (o.auction_id == a)) d.orders
      → Transition (order_status k d) (order_status k d')
  move-purged a none_left e =
      let keep : Order → Bool = λ o. not (o.auction_id == a) in
      let filtered : find (λ x. x.id) k d'.orders ≡ kept_by keep (find (λ x. x.id) k d.orders) =
        ap (find (λ x. x.id) k) e ∙ find-filter k keep d.orders distinct in
      elim (Option-cases (find (λ x. x.id) k d.orders)) [
        | inl missing ↦
            Transition.stay (ap status_of (filtered ∙ ap (kept_by keep) missing ∙ sym missing))
        | inr (o, found) ↦ elim (Bool-cases (o.auction_id == a)) [
          | inl gone ↦
              Transition.purge (rw found (ap some (unblocked a k o d.orders none_left found gone)))
                (rw (filtered, found, gone) refl)
          | inr stays ↦ Transition.stay (rw (filtered, found, stays) refl)
        ]
      ]

-- Every move of the orders is one of the machine's, for every order.
pub OrdersMove-Transition :
    (d d' : Db)
    → Distinct d.orders
    → OrdersMove d d'
    → (k : ℕ) → Transition (order_status k d) (order_status k d')
OrdersMove-Transition d d' h (kept e) k =
    Transition.stay (ap (λ os. status_of (find (λ x. x.id) k os)) e)
OrdersMove-Transition d d' h (placed o pending fresh free e) k =
    move-placed d d' h k o pending fresh e
OrdersMove-Transition d d' h (settled id now o found pending e) k =
    move-settled d d' h k id now o found pending e
OrdersMove-Transition d d' h (dropped id reason o found pending e) k =
    move-dropped d d' h k id reason o found pending e
OrdersMove-Transition d d' h (purged a none_left e) k = move-purged d d' h k a none_left e
