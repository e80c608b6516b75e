-- ===== src/Orders/Buying.antt =====
-- The transaction of `buyNow`.
use sneakerbid.Base.{ℕ, ◌<◌, false, some, ◌∷◌, ◌≡◌, refl, arith, ◌==◌, any, Option-cases, inl, inr}
use sneakerbid.Store.Rows.{Auction, AuctionStatus, Order, Db}
use sneakerbid.Store.Table.{find, update, find-update_self}
use sneakerbid.Store.Tx.{ok, err, Error}
use sneakerbid.Orders.{buy_now_tx, closed_auction, new_order}

-- Buying now succeeds only for an auction that is open and before its end and never had an order. It
-- closes the auction for the buyer at the price, makes the buyer's pending order, and changes neither
-- bids nor balances nor ledger.
pub buy_now_tx-ok :
    (order_id id price user_id now : ℕ) (r : Order) (db db' : Db)
    → buy_now_tx order_id id price user_id now db ≡ ok (r, db')
    → (a : Auction) × (find (λ x. x.id) id db.auctions ≡ some a)
      × (a.status ≡ AuctionStatus.opened)
      × (now < a.end_time)
      × (any (λ o. o.auction_id == id) db.orders ≡ false)
      × (r ≡ new_order order_id id user_id price now)
      × (db' ≡ record db {
        auctions = update (λ x. x.id) id (closed_auction now (some user_id) price) db.auctions;
        orders = r ∷ db.orders;
      })
unfolding buy_now_tx
buy_now_tx-ok order_id id price user_id now r db db' h =
    elim (Option-cases (find (λ x. x.id) id db.auctions)) [
      | inl missing ↦ absurd (ground arith)
      | inr (a, e) ↦ (a, e, ground arith, ground arith, ground arith, ground arith, ground arith)
    ]

not_lockable :
    (order_id id price user_id now : ℕ) (a : Auction) (db : Db)
    → find (λ x. x.id) id db.auctions ≡ some a
    → a.status ≡ AuctionStatus.closed
    → buy_now_tx order_id id price user_id now db ≡ err Error.already_sold
unfolding buy_now_tx
not_lockable order_id id price user_id now a db e s = ground arith

-- When an auction was bought, nobody buys it again, at whatever time and price.
pub buy_now_tx-buy_now_tx :
    (order_id order_id' id price price' u u' now now' : ℕ) (r : Order) (db db' : Db)
    → buy_now_tx order_id id price u now db ≡ ok (r, db')
    → buy_now_tx order_id' id price' u' now' db' ≡ err Error.already_sold
buy_now_tx-buy_now_tx order_id order_id' id price price' u u' now now' r db db' h =
    let (a, e, _, _, _, _, after) = buy_now_tx-ok order_id id price u now r db db' h in
    let f = closed_auction now (some u) price in
    not_lockable order_id' id price' u' now' (f a) db'
      (rw after (find-update_self (λ x. x.id) f (λ x. refl) id db.auctions a e)) refl
