-- ===== src/System.antt =====
-- The services together, as steps of one database: each step is a transaction that commits, and between
-- steps the balances, the ledger and the bids may be whatever transactions that overlapped left. The
-- transactions are those of backend/src/auctions/auctions.service.ts,
-- backend/src/orders/orders.service.ts and backend/src/bots/bots.service.ts, with whatever arguments
-- the requests, the clock and the schedules give them. The deletions by age of
-- backend/src/retention/data-retention.service.ts are not among them.
pub mod Moves
pub mod Machine
pub mod Once
pub mod Effects
pub mod Keeping
pub mod OrderSteps
pub mod Reaching
mod Tests
use sneakerbid.Base.{ℕ, Bool, false, Option, none, List, String, ◌≡◌}
use sneakerbid.Store.Json.{Json}
use sneakerbid.Store.Rows.{User, Auction, Order, Bid, WalletTransaction, Db}
use sneakerbid.Store.Table.{find}
use sneakerbid.Store.Tx.{ok}
use sneakerbid.Store.Lock.{LockOptions}
use sneakerbid.Store.Client.{auction_update}
use sneakerbid.Auctions.{place_bid_tx, place_bid_as_bot_tx}
use sneakerbid.Auctions.Editing.{
  CreateAuctionDto, UpdateAuctionDto, create_auction, patch_tx, delete_auction,
}
use sneakerbid.Orders.Payload.{LosingBid, CloseResult}
use sneakerbid.Orders.Finalize.{set_payload}
use sneakerbid.Orders.{
  execute_close_in_transaction, release_all, cancel_and_reopen, pay_order_tx, buy_now_tx,
  OrderPayRow,
}
use sneakerbid.Bots.{insert_after_bot_win}
use sneakerbid.Bots.TopUp.{increment_user_balance}

-- A transaction that commits. The ids of new orders are fresh, as the column's default makes them.
pub data Step (d d' : Db) : Type 0 where
  bid :
      (bid_id auction_id price user_id now : ℕ) (leader : Option ℕ)
      → place_bid_tx bid_id auction_id price user_id now d ≡ ok (leader, d')
      → Step d d'
  bot_bid :
      (bid_id auction_id price user_id strategy now : ℕ) (leader : Option (Option ℕ))
      → place_bid_as_bot_tx bid_id auction_id price user_id strategy now d ≡ ok (leader, d')
      → Step d d'
  close :
      (order_id auction_id now : ℕ) (o : LockOptions) (r : Option CloseResult)
      → find (λ x. x.id) order_id d.orders ≡ none
      → execute_close_in_transaction order_id auction_id o now d ≡ ok (r, d')
      → Step d d'
  release : (losers : List LosingBid) → release_all losers d ≡ ok (tt, d') → Step d d'
  store_payload :
      (auction_id : ℕ) (payload : Option Json) (r : Option Auction)
      → auction_update auction_id (set_payload payload) d ≡ ok (r, d')
      → Step d d'
  cancel :
      (reason : String) (now : ℕ) (o : Order)
      → cancel_and_reopen reason now o d ≡ ok (tt, d')
      → Step d d'
  pay_order :
      (row : OrderPayRow) (is_winner : Bool) (user_id now : ℕ) (o : Order)
      → pay_order_tx row is_winner user_id now d ≡ ok (o, d')
      → Step d d'
  buy_now :
      (order_id auction_id price user_id now : ℕ) (o : Order)
      → find (λ x. x.id) order_id d.orders ≡ none
      → buy_now_tx order_id auction_id price user_id now d ≡ ok (o, d')
      → Step d d'
  create :
      (auction_id sneaker_id user_id now : ℕ) (dto : CreateAuctionDto) (a : Auction)
      → create_auction auction_id sneaker_id dto user_id now d ≡ ok (a, d')
      → Step d d'
  patch :
      (a : Auction) (dto : UpdateAuctionDto) (now : ℕ) (r : Option Auction)
      → patch_tx a dto now d ≡ ok (r, d')
      → Step d d'
  delete :
      (auction_id : ℕ) (user : User) → delete_auction auction_id user d ≡ ok (tt, d') → Step d d'
  relist :
      (id winner end_time : ℕ) (a : Auction) (inserted : Bool)
      → insert_after_bot_win id winner end_time a d ≡ ok (inserted, d')
      → Step d d'
  top_up : (user_id amount : ℕ) → d' ≡ increment_user_balance user_id amount d → Step d d'

-- What a run of transactions makes of the database, and whether they came one after the other. Bids,
-- closings, cancellations and purchases lock the row of their auction, and a payment claims its order by
-- a conditional update, but nothing locks a user: the wallet reads a balance, or counts releases, and
-- writes afterwards. So where transactions overlap, nothing is assumed of the balances, the ledger and
-- the bids, before or after a step.
pub data Reach (d : Db) : (serial : Bool) → Db → Type 0 where
  here : {serial : Bool} → Reach d serial d
  next : {serial : Bool} {mid d' : Db} → Reach d serial mid → Step mid d' → Reach d serial d'
  overlap :
      {mid d' : Db} (users : List User) (ledger : List WalletTransaction) (bids : List Bid)
      → Reach d false mid
      → d' ≡ record mid { users = users; wallet_transactions = ledger; bids = bids }
      → Reach d false d'
