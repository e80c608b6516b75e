-- ===== src/Orders/Methods.antt =====
-- The methods of backend/src/orders/orders.service.ts around their transactions: what is read before,
-- what other requests commit in between (`others`), and what is sent after the commit.
use sneakerbid.Base.{
  ℕ, ◌-◌, ◌*◌, Bool, true, false, Option, none, some, List, [], ◌∷◌, ◌&&◌, ◌==◌, ltb, leb,
  if◌then◌else◌, not, is_some, filter_by,
}
use sneakerbid.Store.Rows.{Auction, Order, Db, is_opened, is_pending}
use sneakerbid.Store.Table.{find}
use sneakerbid.Store.Tx.{Error, Result, ok, err}
use sneakerbid.Store.Client.{active_bids}
use sneakerbid.Store.Lock.{open_any, open_until}
use sneakerbid.Service.{
  Action, World, Message, ClosedBy, ◌>>=◌, ◌>>◌, pure, throw_if, or_throw, reads, in_transaction,
  if_reached, attempt, send, emit_new_deal,
}
use sneakerbid.Auctions.Methods.{get_auction_by_id_raw, meanwhile}
use sneakerbid.Wallet.{covers}
use sneakerbid.Orders.Payload.{CloseResult}
use sneakerbid.Orders.Finalize.{
  Weather, PendingRow, get_trade_history_item, safe_finalize_auction_close,
  process_pending_post_close_finalizes,
}
use sneakerbid.Orders.{
  execute_close_in_transaction, cancel_and_reopen, pay_order_tx, buy_now_tx, is_auction_winner,
  first_bid, OrderPayRow,
}

abbrev finalize_closed : Weather → Option CloseResult → Action Bool
finalize_closed weather none = pure false
finalize_closed weather (some r) = safe_finalize_auction_close weather r >> pure true

-- `closeAuctionForAdmin`
unfoldable pub close_auction_for_admin : ℕ → ℕ → Weather → ℕ → Action Bool
unfolding execute_close_in_transaction safe_finalize_auction_close
close_auction_for_admin order_id auction_id weather now = do
  closed ← in_transaction (execute_close_in_transaction order_id auction_id open_any now)
  finalize_closed weather closed

-- `CLOSE_EXPIRED_TIMEOUT_MS` of backend/src/common/constants/auction.constants.ts
abbrev pub close_expired_timeout_ms : ℕ
close_expired_timeout_ms = 55000

-- A turn of the loop in `closeExpiredAuctions`: the auction, the id of an order that is made for it,
-- the time since the start, and the weather.
pub record Turn : Type 0 where
  pub auction_id : ℕ
  pub order_id : ℕ
  pub elapsed : ℕ
  pub weather : Weather

unfoldable pub close_turns : List Turn → ℕ → Action (Unit {0})
unfolding execute_close_in_transaction safe_finalize_auction_close
close_turns [] now = pure tt
close_turns (t ∷ ts) now =
    let rest = close_turns ts now in
    if leb close_expired_timeout_ms t.elapsed then pure tt else (do
      closed ←
          in_transaction (execute_close_in_transaction t.order_id t.auction_id (open_until now) now)
      finalize_closed t.weather closed
      rest)

-- `closeExpiredAuctions`, over the rows that its two queries returned.
unfoldable pub close_expired_auctions : List PendingRow → List Turn → ℕ → Action (Unit {0})
unfolding close_turns process_pending_post_close_finalizes
close_expired_auctions pending turns now = do
  process_pending_post_close_finalizes pending
  close_turns turns now

-- `PENDING_ORDER_TIMEOUT_DAYS` of backend/src/common/constants/order.constants.ts
abbrev pub pending_order_timeout_days : ℕ
pending_order_timeout_days = 2

-- `findExpiredPending` of backend/src/database/repositories/order.repository.ts
unfoldable pub find_expired_pending : ℕ → Db → List Order
find_expired_pending deadline db =
    filter_by (λ o. is_pending o.status && ltb o.created_at deadline) db.orders

unfoldable pub cancel_orders : List Order → (Order → ℕ) → Action (Unit {0})
unfolding cancel_and_reopen
cancel_orders [] clock = pure tt
cancel_orders (o ∷ os) clock =
    let rest = cancel_orders os clock in
    in_transaction (cancel_and_reopen "결제 기한 초과" (clock o) o) >> rest

-- `cancelExpiredPendingOrders`; `clock` tells the time at which the turn of an order comes.
unfoldable pub cancel_expired_pending_orders : ℕ → (Order → ℕ) → Action (Unit {0})
unfolding cancel_orders find_expired_pending
cancel_expired_pending_orders now clock = do
  expired ← reads (find_expired_pending (now - pending_order_timeout_days * 86400000))
  cancel_orders expired clock

-- `!auction.buyNowPrice` holds of a missing price and of zero.
abbrev pub usable_price : Option ℕ → Option ℕ
usable_price none = none
usable_price (some p) = if p == 0 then none else some p

-- `buyNow`
unfoldable pub buy_now : ℕ → ℕ → ℕ → (Db → Db) → Bool → ℕ → Action Order
unfolding buy_now_tx get_trade_history_item get_auction_by_id_raw
buy_now order_id auction_id user_id others history_reached now = do
  found ← reads (get_auction_by_id_raw auction_id)
  a ← or_throw found Error.auction_not_found
  throw_if (not (is_opened a.status)) Error.not_open
  throw_if (leb a.end_time now) Error.already_ended
  price ← or_throw (usable_price a.buy_now_price) Error.no_buy_now_price
  buyer ← reads (λ db. find (λ u. u.id) user_id db.users)
  throw_if (not (is_some buyer)) Error.no_row
  throw_if (not (covers buyer price)) Error.insufficient_balance
  meanwhile others
  order ← in_transaction (buy_now_tx order_id auction_id price user_id now)
  send (Message.auction_closed auction_id ClosedBy.buy_now (some user_id) price)
  item ← if_reached history_reached (reads (get_trade_history_item auction_id))
  emit_new_deal item
  pure order

abbrev joined_auction : Order → Option Auction → Option OrderPayRow
joined_auction o none = none
joined_auction o (some a) = some (record { order = o; seller_user_id = a.seller_user_id })

abbrev joined_order : Option Order → Db → Option OrderPayRow
joined_order none db = none
joined_order (some o) db = joined_auction o (find (λ a. a.id) o.auction_id db.auctions)

-- `findForPay`: the order joined with its auction
unfoldable pub find_for_pay : ℕ → Db → Option OrderPayRow
find_for_pay order_id db = joined_order (find (λ o. o.id) order_id db.orders) db

-- A conflict is passed on; after any other failure the auction is reopened.
abbrev after_payment : Bool → ℕ → Order → Result Order × World → Result Order × World
after_payment reached now o (ok paid, w) = (ok paid, w)
after_payment reached now o (err Error.already_paid, w) = (err Error.already_paid, w)
after_payment reached now o (err e, w) =
    (err e, attempt (if_reached reached (in_transaction (cancel_and_reopen "결제 실패" now o)) w))

-- `payOrder`
unfoldable pub pay_order : ℕ → ℕ → (Db → Db) → Bool → ℕ → Action Order
unfolding pay_order_tx cancel_and_reopen find_for_pay active_bids
pay_order order_id user_id others reopen_reached now = do
  found ← reads (find_for_pay order_id)
  row ← or_throw found Error.order_not_found
  throw_if (not (row.order.buyer_user_id == user_id)) Error.not_own_order
  throw_if (not (is_pending row.order.status)) Error.not_payable
  winning ← reads (λ db. first_bid (active_bids row.order.auction_id db.bids))
  meanwhile others
  λ w. after_payment reopen_reached now row.order (
      in_transaction
        (pay_order_tx row (is_auction_winner winning user_id row.order.final_price) user_id now) w)
