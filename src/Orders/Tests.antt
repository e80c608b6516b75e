-- ===== src/Orders/Tests.antt =====
-- Closings, releases and payments on a concrete auction.
use sneakerbid.Base.{ℕ, ◌≡◌, ◌≤◌, refl, some, [], ◌∷◌, false, true, arith, All}
use sneakerbid.Store.Rows.{OrderStatus, Db}
use sneakerbid.Store.Client.{
  active_bids, auction_check, auction_update, order_create, order_update_pending,
  order_find_or_throw,
}
use sneakerbid.Wallet.{release_bid_hold, convert_hold_to_payment, settle_seller}
use sneakerbid.Store.Table.{find}
use sneakerbid.Store.Tx.{Tx, ok, err, Error}
use sneakerbid.Store.Lock.{open_until}
use sneakerbid.Samples.{db, auction, pending_order}
use sneakerbid.Service.{World}
use sneakerbid.Wallet.Balances.{Solvent}
use sneakerbid.Auctions.{place_bid_tx}
use sneakerbid.Orders.{
  execute_close_in_transaction, release_all, pay_order_tx, OrderPayRow, paid_order, disqualify_all,
}
use sneakerbid.Orders.Payload.{
  CloseResult, LosingBid, close_result_to_db_payload, parse_close_result_from_payload,
  parse_close_result-payload,
}
use sneakerbid.Orders.Releases.{releases, release_all_once, winner_gets_nothing_back, release_each}
use sneakerbid.Orders.Payment.{pay_order_tx-pay_order_tx}
use sneakerbid.Orders.{cancel_and_reopen}
use sneakerbid.Store.Rows.{OrderStatus, AuctionStatus}
use sneakerbid.Store.Client.{bid_disqualify}
use sneakerbid.Orders.Methods.{Turn, close_turns}
use sneakerbid.Orders.Stuck.{IsStuck, close_turns-IsStuck}
use sneakerbid.Orders.Finalize.{
  Weather, safe_finalize_auction_close, process_pending_post_close_finalizes, set_payload,
}
use sneakerbid.Orders.Retry.{SameWallet, row_of, safe_finalize-process_pending}

abbrev left_by : {A : Type 0} → Tx A → Db → Db
left_by m d = elim (m d) [ ok (_, d') ↦ d' | err _ ↦ d ]

abbrev closing : CloseResult
closing = record {
  auction_id = 10;
  winner_user_id = some 3;
  final_price = 120;
  losing_bids = record { user_id = 2; bid_price = 110; id = 20 } ∷ [];
}

abbrev after_close : Db
after_close = left_by (execute_close_in_transaction 30 10 (open_until 60001) 60001) db

db-once : (c : ℕ) → releases c db ≤ 1
db-once c = omega arith

release_all_once_example :
    (db' : Db) × (release_all closing.losing_bids db ≡ ok (tt, db'))
    × All (λ (l : LosingBid). releases l.id db' ≡ 1) closing.losing_bids
    × ((c : ℕ) → releases c db' ≤ 1)
    × (release_all closing.losing_bids db' ≡ ok (tt, db'))
release_all_once_example = release_all_once closing.losing_bids db db-once

abbrev after_releases : Db
after_releases = left_by (release_all closing.losing_bids) after_close

winner_gets_nothing_back_example :
    find (λ x. x.id) 3 after_releases.users ≡ find (λ x. x.id) 3 db.users
unfolding execute_close_in_transaction active_bids auction_check auction_update order_create
    disqualify_all release_all release_bid_hold
winner_gets_nothing_back_example =
    winner_gets_nothing_back 30 10 60001 3 (open_until 60001) closing db after_close after_releases
      refl refl refl

abbrev row : OrderPayRow
row = record { order = pending_order; seller_user_id = 1 }

abbrev ordered : Db
ordered = record db { orders = pending_order ∷ [] }

abbrev after_payment : Db
after_payment = left_by (pay_order_tx row true 3 60002) ordered

pay_order_tx-pay_order_tx_example :
    pay_order_tx row false 3 60003 after_payment ≡ err Error.already_paid
unfolding pay_order_tx order_update_pending convert_hold_to_payment settle_seller
    order_find_or_throw
pay_order_tx-pay_order_tx_example =
    pay_order_tx-pay_order_tx row row true false 3 3 60002 60003 (paid_order 60002 pending_order)
      ordered after_payment refl refl

db-Solvent : Solvent db.users
db-Solvent = ground arith

abbrev after_bid : Db
after_bid = left_by (place_bid_tx 40 10 130 2 59000) db

parse_close_result-payload_example :
    parse_close_result_from_payload 10 (close_result_to_db_payload closing) ≡ some closing
parse_close_result-payload_example = parse_close_result-payload closing

abbrev fair : Weather
fair = record {
  history_reached = true;
  release_reached = true;
  clear_reached = true;
  persist_reached = true;
}

abbrev bad : Weather
bad = record fair { release_reached = false }

abbrev world : World
world = record { db = db; sent = [] }

safe_finalize-process_pending_example :
    let (res, w1) = safe_finalize_auction_close bad closing world in
    let (res', w2) = process_pending_post_close_finalizes (row_of fair closing ∷ []) w1 in
    (res ≡ ok tt)
    × (find (λ x. x.id) 10 w1.db.auctions
        ≡ some (set_payload (some (close_result_to_db_payload closing)) auction))
    × (res' ≡ ok tt)
    × SameWallet (release_each closing.losing_bids db) w2.db
unfolding auction_check
safe_finalize-process_pending_example =
    safe_finalize-process_pending bad fair closing
      (record { user_id = 2; bid_price = 110; id = 20 }) [] auction world refl refl refl refl refl
      refl refl

abbrev turn : Turn
turn = record { auction_id = 10; order_id = 31; elapsed = 0; weather = fair }

-- The auction was reopened after the order that was made first was cancelled.
abbrev cancelled_before : World
cancelled_before = record {
  db = record db { orders = record pending_order { status = OrderStatus.cancelled } ∷ [] };
  sent = [];
}

turn-IsStuck : IsStuck turn 60001 cancelled_before.db
unfolding active_bids auction_check
turn-IsStuck = record {
  auction = auction;
  top = _;
  others = _;
  found = refl;
  due = refl;
  bid_on = refl;
  holds = refl;
  ordered = refl;
}

close_turns-IsStuck_example :
    close_turns (turn ∷ []) 60001 cancelled_before ≡ (err Error.unique_violation, cancelled_before)
close_turns-IsStuck_example =
    close_turns-IsStuck turn [] 60001 cancelled_before turn-IsStuck (omega arith)

-- The auction closed, and its winner did not pay.
abbrev unpaid : Db
unpaid = record db {
  auctions = record auction { status = AuctionStatus.closed; winner_user_id = some 3 } ∷ [];
  orders = pending_order ∷ [];
}

abbrev reopened : Db
reopened = left_by (cancel_and_reopen "결제 기한 초과" 200000 pending_order) unpaid

reopened_price :
    find (λ x. x.id) 10 reopened.auctions
    ≡ some (record auction { current_price = 110; end_time = 3800000 })
unfolding cancel_and_reopen order_update_pending active_bids bid_disqualify release_bid_hold
    auction_update auction_check
reopened_price = refl
