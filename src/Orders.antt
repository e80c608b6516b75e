-- ===== src/Orders.antt =====
-- The transactions of backend/src/orders/orders.service.ts: closing an auction, releasing the holds
-- of the losers, cancelling an unpaid order and reopening its auction, buying now, and paying.
pub mod Payload
pub mod Finalize
pub mod Methods
pub mod CloseWith
pub mod Closing
pub mod Releases
pub mod Payment
pub mod Solvency
pub mod Stuck
pub mod Retry
pub mod Reopening
pub mod Buying
pub mod Upheld
mod Tests
mod BuyTests
use sneakerbid.Base.{
  ℕ, ◌+◌, ◌*◌, Bool, true, false, Option, none, some, List, [], ◌∷◌, ◌&&◌, ◌||◌, ◌==◌, ltb, leb,
  if◌then◌else◌, not, filter_by, same_id, or_else, is_some, map, String,
}
use sneakerbid.Store.Rows.{Auction, Bid, Order, Db, AuctionStatus, OrderStatus, is_opened}
use sneakerbid.Store.Table.{find}
use sneakerbid.Store.Tx.{
  Tx, Error, Result, ok, err, ◌>>=◌, ◌>>◌, pure, gets, or_throw, throw, throw_if, or_null, null_if,
}
use sneakerbid.Store.Client.{
  auction_find, auction_bids, auction_update, order_create, order_update_pending,
  order_find_or_throw, bid_disqualify, active_bids, auction_check,
}
use sneakerbid.Store.Lock.{lock_auction_for_update, LockOptions, open_after, any_status}
use sneakerbid.Wallet.{release_bid_hold, pay, convert_hold_to_payment, settle_seller}
use Payload.{LosingBid, CloseResult}

-- `bids[0]`
abbrev pub first_bid : List Bid → Option Bid
first_bid [] = none
first_bid (b ∷ _) = some b

-- `bids[1]`
abbrev pub second_bid : List Bid → Option Bid
second_bid [] = none
second_bid (_ ∷ bs) = first_bid bs

abbrev pub winner_id : Option Bid → Option ℕ
winner_id none = none
winner_id (some b) = some b.user_id

-- `bid?.bidPrice ?? price`
abbrev pub price_or : Option Bid → ℕ → ℕ
price_or none price = price
price_or (some b) price = b.bid_price

-- `b.userId !== winnerUserId`
abbrev pub loses_to : Option ℕ → Bid → Bool
loses_to winner b = not (same_id winner (some b.user_id))

abbrev pub losing_bid : Bid → LosingBid
losing_bid b = record { user_id = b.user_id; bid_price = b.bid_price; id = b.id }

-- What closing writes to the auction.
abbrev pub closed_auction : ℕ → Option ℕ → ℕ → Auction → Auction
closed_auction now winner price a = record a {
  status = AuctionStatus.closed;
  closed_at = some now;
  winner_user_id = winner;
  current_price = price;
  post_close_finalize_payload = none;
}

abbrev pub new_order : ℕ → ℕ → ℕ → ℕ → ℕ → Order
new_order order_id auction_id buyer price now = record {
  id = order_id;
  auction_id = auction_id;
  buyer_user_id = buyer;
  final_price = price;
  status = OrderStatus.pending;
  failure_reason = none;
  created_at = now;
  paid_at = none;
}

-- An order for the winner, if there is one.
abbrev pub order_for_winner : ℕ → ℕ → Option ℕ → ℕ → ℕ → Tx (Unit {0})
order_for_winner order_id auction_id none price now = pure tt
order_for_winner order_id auction_id (some buyer) price now =
    order_create (new_order order_id auction_id buyer price now) >> pure tt

unfoldable pub disqualify_all : List LosingBid → ℕ → Tx (Unit {0})
unfolding bid_disqualify
disqualify_all [] now = pure tt
disqualify_all (l ∷ ls) now = let rest = disqualify_all ls now in bid_disqualify l.id now >> rest

-- The closing once the auction and its active bids are read.
abbrev pub close_with : ℕ → ℕ → ℕ → Auction → List Bid → Tx (Option CloseResult)
close_with order_id auction_id now a bids = do
  let winner = winner_id (first_bid bids)
  let price = price_or (first_bid bids) a.current_price
  let losing = map losing_bid (filter_by (loses_to winner) bids)
  auction_update auction_id (closed_auction now winner price)
  order_for_winner order_id auction_id winner price now
  disqualify_all losing now
  pure (
      some (record {
        auction_id = auction_id;
        winner_user_id = winner;
        final_price = price;
        losing_bids = losing;
      }))

-- `executeCloseInTransaction`
unfoldable pub execute_close_in_transaction : ℕ → ℕ → LockOptions → ℕ → Tx (Option CloseResult)
unfolding lock_auction_for_update auction_find auction_bids
execute_close_in_transaction order_id auction_id options now = do
  locked ← lock_auction_for_update auction_id options
  null_if (not locked) (do
    found ← auction_find auction_id
    or_null found
        λ a. (do bids ← auction_bids auction_id; close_with order_id auction_id now a bids))

-- The loop of releases in `finalizeAuctionClose`.
unfoldable pub release_all : List LosingBid → Tx (Unit {0})
release_all [] = pure tt
release_all (l ∷ ls) =
    let rest = release_all ls in release_bid_hold l.user_id l.bid_price l.id >> rest

-- `winnerBid?.userId === order.buyerUserId && winnerBid?.bidPrice === order.finalPrice`
abbrev pub is_auction_winner : Option Bid → ℕ → ℕ → Bool
is_auction_winner none buyer price = false
is_auction_winner (some b) buyer price = b.user_id == buyer && b.bid_price == price

abbrev pub cancelled_order : String → Order → Order
cancelled_order reason o = record o { status = OrderStatus.cancelled; failure_reason = some reason }

-- A winner who did not pay loses the bid and gets its hold back.
abbrev pub drop_winner : Bool → Option Bid → ℕ → Tx (Unit {0})
drop_winner true (some b) now =
    bid_disqualify b.id now >> release_bid_hold b.user_id b.bid_price b.id
drop_winner true none now = pure tt
drop_winner false b now = pure tt

-- The price at which the auction goes on.
abbrev pub baseline_price : Bool → List Bid → ℕ → ℕ
baseline_price true bids start = price_or (second_bid bids) start
baseline_price false bids start = price_or (first_bid bids) start

-- `REOPEN_AUCTION_DURATION_HOURS` of backend/src/common/constants/order.constants.ts
abbrev pub reopen_auction_duration_hours : ℕ
reopen_auction_duration_hours = 1

abbrev pub reopened_auction : ℕ → ℕ → Auction → Auction
reopened_auction now price a = record a {
  status = AuctionStatus.opened;
  winner_user_id = none;
  closed_at = none;
  end_time = now + reopen_auction_duration_hours * 3600000;
  current_price = price;
  post_close_finalize_payload = none;
}

-- `if (c) return;` and `if (!value) return;`
abbrev pub return_if : Bool → Tx (Unit {0}) → Tx (Unit {0})
return_if true k = pure tt
return_if false k = k

abbrev pub or_return : {A : Type 0} → Option A → (A → Tx (Unit {0})) → Tx (Unit {0})
or_return none k = pure tt
or_return (some a) k = k a

-- The order is cancelled, a winner is dropped, and the auction is open again.
abbrev pub reopen_with : ℕ → Order → Auction → List Bid → Tx (Unit {0})
reopen_with now o a bids = do
  let winning = is_auction_winner (first_bid bids) o.buyer_user_id o.final_price
  drop_winner winning (first_bid bids) now
  auction_update o.auction_id (reopened_auction now (baseline_price winning bids a.start_price))
  pure tt

-- What `cancelExpiredPendingOrders` and `reopenAuctionForFailedPayment` both do with an order that
-- was read before: only a pending order of a closed auction is cancelled.
unfoldable pub cancel_and_reopen : String → ℕ → Order → Tx (Unit {0})
unfolding lock_auction_for_update auction_find auction_bids auction_update order_update_pending
cancel_and_reopen reason now o = do
  locked ← lock_auction_for_update o.auction_id any_status
  return_if (not locked) (do
    found ← auction_find o.auction_id
    or_return found λ a. (do
      bids ← auction_bids o.auction_id
      return_if (is_opened a.status) (do
        n ← order_update_pending o.id (cancelled_order reason)
        return_if (n == 0) (reopen_with now o a bids))))

-- The row that `findForPay` of backend/src/database/repositories/order.repository.ts reads.
pub record OrderPayRow : Type 0 where
  pub order : Order
  pub seller_user_id : ℕ

abbrev pub paid_order : ℕ → Order → Order
paid_order now o = record o { status = OrderStatus.paid; paid_at = some now }

-- `auction?.bids ?? []`
abbrev pub bids_if_found : Option Auction → ℕ → Tx (List Bid)
bids_if_found none auction_id = pure []
bids_if_found (some _) auction_id = auction_bids auction_id

-- The loop in `payOrder` that takes every active bid out and gives its hold back.
unfoldable pub drop_all : List Bid → ℕ → Tx (Unit {0})
drop_all [] now = pure tt
drop_all (b ∷ bs) now =
    let rest = drop_all bs now in
    bid_disqualify b.id now >> (release_bid_hold b.user_id b.bid_price b.id >> rest)

-- Every active bid of the auction is taken out.
abbrev pub return_bids : ℕ → ℕ → Tx (Unit {0})
return_bids auction_id now = do
  found ← auction_find auction_id
  bids ← bids_if_found found auction_id
  drop_all bids now

abbrev pub need_money : Bool → Tx (Unit {0}) → Tx (Unit {0})
need_money true k = k
need_money false k = throw Error.insufficient_balance

-- The buyer's side of a payment: a winner's hold turns into the payment; any other buyer pays from
-- the balance, and all active bids are given back.
abbrev pub charge_buyer : Bool → ℕ → ℕ → ℕ → ℕ → ℕ → Tx (Unit {0})
charge_buyer true order_id auction_id user_id price now =
    convert_hold_to_payment user_id price order_id
charge_buyer false order_id auction_id user_id price now = do
  paid ← pay user_id price order_id
  need_money paid (return_bids auction_id now)

-- The seller's side of a payment, and the order as it then is.
abbrev pub settle_order : OrderPayRow → Tx Order
settle_order row = do
  settle_seller row.seller_user_id row.order.final_price row.order.id
  order_find_or_throw row.order.id

-- What follows once the order is claimed, or is found to be claimed already.
abbrev pub after_claim : OrderPayRow → Bool → ℕ → ℕ → ℕ → Tx Order
after_claim row is_winner user_id now claimed =
    if claimed == 0 then throw Error.already_paid else (do
      charge_buyer is_winner row.order.id row.order.auction_id user_id row.order.final_price now
      settle_order row)

-- The transaction of `payOrder`, after the order and the winning bid were read.
unfoldable pub pay_order_tx : OrderPayRow → Bool → ℕ → ℕ → Tx Order
pay_order_tx row is_winner user_id now = do
  claimed ← order_update_pending row.order.id (paid_order now)
  after_claim row is_winner user_id now claimed

-- The transaction of `buyNow`, after the auction and the buyer were read.
unfoldable pub buy_now_tx : ℕ → ℕ → ℕ → ℕ → ℕ → Tx Order
unfolding lock_auction_for_update auction_update order_create auction_find
buy_now_tx order_id auction_id price user_id now = do
  locked ← lock_auction_for_update auction_id (open_after now)
  throw_if (not locked) Error.already_sold
  auction_update auction_id (closed_auction now (some user_id) price)
  order_create (new_order order_id auction_id user_id price now)
