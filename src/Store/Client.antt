-- ===== src/Store/Client.antt =====
-- The client of a transaction, `createTxClient` of backend/src/database/transaction-client.ts, with
-- the constraints that backend/supabase/migrations puts on the tables. The SET part of an update is
-- a function of the row.
use sneakerbid.Base.{
  ℕ, Bool, true, Option, none, some, List, [], ◌∷◌, ◌&&◌, ltb, leb, ◌==◌, if◌then◌else◌, is_some,
  not, filter_by, any,
}
use sneakerbid.Base.Int.{◌+ℤ◌, ◌-ℤ◌, pos}
use sneakerbid.Store.Table.{find, update}
use sneakerbid.Store.Rows.{User, Sneaker, Auction, Bid, Order, WalletTransaction, is_pending}
use sneakerbid.Store.Tx.{Tx, Error, ok, ◌>>=◌, pure, throw, gets, modify, or_throw}

-- `tx.user.findUnique`
unfoldable pub user_find : ℕ → Tx (Option User)
user_find id = gets (λ db. find (λ u. u.id) id db.users)

-- `tx.user.update` with an increment: without a row it changes nothing.
unfoldable pub user_increment : ℕ → ℕ → Tx (Unit {0})
user_increment id n = modify λ db. record db {
  users = update (λ u. u.id) id (λ u. record u { balance = u.balance +ℤ pos n }) db.users;
}

-- `tx.user.update` with a decrement.
unfoldable pub user_decrement : ℕ → ℕ → Tx (Unit {0})
user_decrement id n = modify λ db. record db {
  users = update (λ u. u.id) id (λ u. record u { balance = u.balance -ℤ pos n }) db.users;
}

-- `tx.walletTransaction.create`
unfoldable pub wallet_transaction_create : WalletTransaction → Tx (Unit {0})
wallet_transaction_create t =
    modify λ db. record db { wallet_transactions = t ∷ db.wallet_transactions }

-- `tx.sneaker.create`
unfoldable pub sneaker_create : Sneaker → Tx Sneaker
sneaker_create s db = pure s (record db { sneakers = s ∷ db.sneakers })

-- `tx.sneaker.update`
unfoldable pub sneaker_update : ℕ → (Sneaker → Sneaker) → Tx (Unit {0})
sneaker_update id f = modify λ db. record db { sneakers = update (λ s. s.id) id f db.sneakers }

-- Active bids, dearest first: `ORDER BY "bidPrice" DESC`.
abbrev pub insert_by_price : Bid → List Bid → List Bid
insert_by_price b [] = b ∷ []
insert_by_price b (x ∷ xs) =
    if leb x.bid_price b.bid_price then b ∷ x ∷ xs else x ∷ insert_by_price b xs

abbrev pub sort_by_price : List Bid → List Bid
sort_by_price [] = []
sort_by_price (b ∷ bs) = insert_by_price b (sort_by_price bs)

-- `"auctionId" = $1 AND "disqualifiedAt" IS NULL`
abbrev pub is_active_for : ℕ → Bid → Bool
is_active_for auction_id b = b.auction_id == auction_id && not (is_some b.disqualified_at)

unfoldable pub active_bids : ℕ → List Bid → List Bid
active_bids auction_id bids = sort_by_price (filter_by (is_active_for auction_id) bids)

-- `tx.auction.findUnique` without and with the bids
unfoldable pub auction_find : ℕ → Tx (Option Auction)
auction_find id = gets (λ db. find (λ a. a.id) id db.auctions)

unfoldable pub auction_bids : ℕ → Tx (List Bid)
auction_bids id = gets (λ db. active_bids id db.bids)

-- The CHECK constraints of the table "Auction" on its prices and its increment.
abbrev pub buy_now_holds : Option ℕ → ℕ → Bool
buy_now_holds none current = true
buy_now_holds (some price) current = leb current price

unfoldable pub auction_check : Auction → Bool
auction_check a =
    leb a.start_price a.current_price
    && ltb 0 a.minimum_increment
    && buy_now_holds a.buy_now_price a.current_price

-- `tx.auction.create`
unfoldable pub auction_create : Auction → Tx Auction
unfolding auction_check
auction_create a db =
    if auction_check a
    then pure a (record db { auctions = a ∷ db.auctions })
    else throw Error.check_violation db

-- What an UPDATE of one auction does to the row that it finds.
abbrev update_found : ℕ → (Auction → Auction) → Option Auction → Tx (Option Auction)
update_found id f none = pure none
update_found id f (some a) =
    if auction_check (f a)
    then (λ db. ok (some (f a), record db { auctions = update (λ x. x.id) id f db.auctions }))
    else throw Error.check_violation

-- `tx.auction.update`
unfoldable pub auction_update : ℕ → (Auction → Auction) → Tx (Option Auction)
unfolding auction_find
auction_update id f = do a ← auction_find id; update_found id f a

-- `tx.bid.create`
unfoldable pub bid_create : Bid → Tx Bid
bid_create b db =
    if ltb 0 b.bid_price
    then pure b (record db { bids = b ∷ db.bids })
    else throw Error.check_violation db

-- `tx.bid.update` as it is called: the bid is disqualified.
abbrev pub disqualify : ℕ → Bid → Bid
disqualify now b = record b { disqualified_at = some now }

unfoldable pub bid_disqualify : ℕ → ℕ → Tx (Unit {0})
bid_disqualify id now =
    modify λ db. record db { bids = update (λ b. b.id) id (disqualify now) db.bids }

-- `tx.order.create`; "Order_auctionId_key" allows one order for an auction.
unfoldable pub order_create : Order → Tx Order
order_create o db =
    if any (λ x. x.auction_id == o.auction_id) db.orders
    then throw Error.unique_violation db
    else pure o (record db { orders = o ∷ db.orders })

-- What an UPDATE of a pending order does to the row that it finds; the number of rows changed.
abbrev claim_found : ℕ → (Order → Order) → Option Order → Tx ℕ
claim_found id f none = pure 0
claim_found id f (some o) =
    if is_pending o.status
    then (λ db. ok (1, record db { orders = update (λ x. x.id) id f db.orders }))
    else pure 0

-- `tx.order.updateMany` with `where: { id, status: 'PENDING' }`
unfoldable pub order_update_pending : ℕ → (Order → Order) → Tx ℕ
order_update_pending id f db = claim_found id f (find (λ o. o.id) id db.orders) db

-- `tx.order.findUniqueOrThrow`
unfoldable pub order_find_or_throw : ℕ → Tx Order
order_find_or_throw id = do o ← gets (λ db. find (λ x. x.id) id db.orders); or_throw o Error.no_row
