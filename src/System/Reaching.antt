-- ===== src/System/Reaching.antt =====
-- What holds of every database that the transactions reach, and of every order in it.
use sneakerbid.Base.{ℕ, Bool, true, false, Option, some, ◌≡◌, ◌∙◌, ap}
use sneakerbid.Store.Rows.{Db, OrderStatus}
use sneakerbid.Wallet.Balances.{SolventDb, Solvent-increment}
use sneakerbid.Orders.Solvency.{Solvent-Upheld, bid_taken-Solvent}
use sneakerbid.System.{Step, Reach, here, next, overlap}
use sneakerbid.System.Moves.{Distinct, Single, OrdersMove-Distinct, OrdersMove-Single}
use sneakerbid.System.Machine.{
  Transition, stay, place, settle, cancel, purge, order_status, OrdersMove-Transition,
}
use sneakerbid.System.Once.{Once, Once-Upheld, bid_taken-Once}
use sneakerbid.System.Keeping.{Step-up}
use sneakerbid.System.OrderSteps.{Step-OrdersMove}

-- Nobody owes money, and no hold was given back twice.
abbrev pub Sound : Bool → Db → Type 0
Sound true d = SolventDb d × Once d
Sound false d = Unit

-- Orders have ids of their own, no auction has two orders, and where transactions came one after the
-- other, balances and releases are sound too.
pub record WellFormed (serial : Bool) (d : Db) : Type 0 where
  pub distinct : Distinct d.orders
  pub single : Single d
  pub sound : Sound serial d

Step-Sound : (serial : Bool) (d d' : Db) → Step d d' → Sound serial d → Sound serial d'
Step-Sound false d d' s h = tt
Step-Sound true d d' s h = (
  Step-up SolventDb Solvent-Upheld
      (λ bid_id auction_id price user_id now source strategy a u db allowed ok.
        bid_taken-Solvent bid_id auction_id price user_id now source strategy a u db allowed ok)
      (λ u n db ok. Solvent-increment u n db.users ok) d d' s h.0,
  Step-up Once Once-Upheld
      (λ bid_id auction_id price user_id now source strategy a u db allowed ok.
        bid_taken-Once bid_id auction_id price user_id now source strategy db ok)
      (λ u n db ok c. ok c) d d' s h.1,
)

-- Every committed transaction keeps the database well-formed: the bids, closings, releases,
-- cancellations, payments, purchases, edits, relistings and top-ups, whatever their arguments, as long
-- as the ids of new orders are fresh.
Step-WellFormed :
    (serial : Bool) (d d' : Db) → Step d d' → WellFormed serial d → WellFormed serial d'
Step-WellFormed serial d d' s h =
    let move = Step-OrdersMove d d' s in
    record {
      distinct = OrdersMove-Distinct d d' move h.distinct;
      single = OrdersMove-Single d d' move h.single;
      sound = Step-Sound serial d d' s h.sound;
    }

-- What overlapping transactions leave of balances, ledger and bids does not matter to the orders.
overlap-WellFormed : (d d' : Db) → d'.orders ≡ d.orders → WellFormed false d → WellFormed false d'
overlap-WellFormed d d' e h = record {
  distinct = rw e h.distinct;
  single = λ a. rw e (h.single a);
  sound = tt;
}

-- Whatever transactions commit, in whatever order, overlapping or not, and with fresh ids for new
-- orders, from a well-formed database on orders have distinct ids and no auction has two orders. Where
-- they came one after the other, no balance is negative either, and no bid's hold was given back twice.
pub Reach-WellFormed :
    {d : Db} {serial : Bool} {d' : Db}
    → WellFormed serial d
    → Reach d serial d'
    → WellFormed serial d'
Reach-WellFormed h here = h
Reach-WellFormed {serial} h (next {mid = mid} {d'} r s) =
    Step-WellFormed serial mid d' s (Reach-WellFormed h r)
Reach-WellFormed h (overlap {mid} {d'} users ledger bids r e) =
    overlap-WellFormed mid d' (ap (λ (x : Db). x.orders) e) (Reach-WellFormed h r)

-- A run of the machine.
pub data Run (s : Option OrderStatus) : Option OrderStatus → Type 0 where
  idle : Run s s
  then : {t u : Option OrderStatus} → Run s t → Transition t u → Run s u

-- The life of an order refines the machine: for every order id, the statuses that a run of
-- steps from a well-formed database takes it through are a run of the machine.
pub Reach-Run :
    {d : Db} {serial : Bool} {d' : Db}
    → WellFormed serial d
    → Reach d serial d'
    → (k : ℕ) → Run (order_status k d) (order_status k d')
Reach-Run h here k = Run.idle
Reach-Run h (overlap {mid} {d'} users ledger bids r e) k =
    Run.then (Reach-Run h r k) (Transition.stay (ap (order_status k) e))
Reach-Run h (next {mid = mid} {d'} r s) k =
    let w = Reach-WellFormed h r in
    Run.then (Reach-Run h r k)
      (OrdersMove-Transition mid d' w.distinct (Step-OrdersMove mid d' s) k)

stays_paid :
    (s t : Option OrderStatus)
    → s ≡ some OrderStatus.paid
    → Transition s t
    → t ≡ some OrderStatus.paid
stays_paid s t e (stay same) = same ∙ e
stays_paid s t e (place was _) = cc
stays_paid s t e (settle was _) = cc
stays_paid s t e (cancel was _) = cc
stays_paid s t e (purge was _) = cc

Run-paid :
    {s t : Option OrderStatus} → s ≡ some OrderStatus.paid → Run s t → t ≡ some OrderStatus.paid
Run-paid e idle = e
Run-paid e (then {t} {u} r m) = stays_paid t u (Run-paid e r) m

-- From a well-formed database on, an order that is paid stays paid, through whatever transactions
-- follow: it is neither cancelled nor deleted nor paid again.
pub Reach-paid :
    {d : Db} {serial : Bool} {d' : Db}
    → WellFormed serial d
    → Reach d serial d'
    → (k : ℕ) → order_status k d ≡ some OrderStatus.paid
    → order_status k d' ≡ some OrderStatus.paid
Reach-paid h r k e = Run-paid e (Reach-Run h r k)
