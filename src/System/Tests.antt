-- ===== src/System/Tests.antt =====
-- A run of the services: an auction is closed, its loser's hold is released, and its winner pays.
use sneakerbid.Base.{refl, some, [], ◌∷◌, true, Bool, arith}
use sneakerbid.Store.Rows.{Db}
use sneakerbid.Store.Tx.{Tx, ok, err}
use sneakerbid.Store.Lock.{open_until}
use sneakerbid.Store.Client.{
  active_bids, auction_check, auction_update, order_create, order_update_pending,
  order_find_or_throw,
}
use sneakerbid.Samples.{db, pending_order}
use sneakerbid.Wallet.{release_bid_hold, convert_hold_to_payment, settle_seller}
use sneakerbid.Orders.{
  execute_close_in_transaction, release_all, pay_order_tx, OrderPayRow, paid_order, disqualify_all,
}
use sneakerbid.Orders.Payload.{CloseResult}
use sneakerbid.System.{Step, Reach}
use sneakerbid.System.Machine.{order_status}
use sneakerbid.System.Reaching.{WellFormed, Run, Reach-WellFormed, Reach-Run}

abbrev left_by : {A : Type 0} → Tx A → Db → Db
left_by m d = elim (m d) [ ok (_, d') ↦ d' | err _ ↦ d ]

abbrev closing : CloseResult
closing = record {
  auction_id = 10;
  winner_user_id = some 3;
  final_price = 120;
  losing_bids = record { user_id = 2; bid_price = 110; id = 20 } ∷ [];
}

abbrev row : OrderPayRow
row = record { order = pending_order; seller_user_id = 1 }

abbrev closed : Db
closed = left_by (execute_close_in_transaction 30 10 (open_until 60001) 60001) db

abbrev released : Db
released = left_by (release_all closing.losing_bids) closed

abbrev paid : Db
paid = left_by (pay_order_tx row true 3 60002) released

db-closed : Step db closed
unfolding execute_close_in_transaction active_bids auction_check auction_update order_create
    disqualify_all
db-closed = Step.close 30 10 60001 (open_until 60001) (some closing) refl refl

closed-released : Step closed released
unfolding execute_close_in_transaction active_bids auction_check auction_update order_create
    disqualify_all release_all release_bid_hold
closed-released = Step.release closing.losing_bids refl

released-paid : Step released paid
unfolding execute_close_in_transaction active_bids auction_check auction_update order_create
    disqualify_all release_all release_bid_hold pay_order_tx order_update_pending
    convert_hold_to_payment settle_seller order_find_or_throw
released-paid = Step.pay_order row true 3 60002 (paid_order 60002 pending_order) refl

run : {serial : Bool} → Reach db serial paid
run = Reach.next (Reach.next (Reach.next Reach.here db-closed) closed-released) released-paid

db-WellFormed : WellFormed true db
db-WellFormed = record {
  sound = (ground arith, λ c. omega arith);
  distinct = tt;
  single = λ a. omega arith;
}

Reach-WellFormed_example : WellFormed true paid
Reach-WellFormed_example = Reach-WellFormed db-WellFormed run

Reach-Run_example : Run (order_status 30 db) (order_status 30 paid)
Reach-Run_example = Reach-Run db-WellFormed run 30
