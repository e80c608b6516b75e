-- ===== src/Store/Deletes.antt =====
-- The raw queries of backend/src/database/repositories/auctions-tx.repository.ts in a transaction, with
-- the foreign keys that backend/supabase/migrations/001_init.sql puts on what they delete.
use sneakerbid.Base.{
  ℕ, Bool, true, false, Option, none, some, ◌==◌, if◌then◌else◌, not, same_id, length, filter_by,
  any, map, ◌&&◌,
}
use sneakerbid.Store.Rows.{Auction, OrderStatus}
use sneakerbid.Store.Table.{remove, find}
use sneakerbid.Store.Tx.{Tx, Error, ok, throw, gets, modify}

-- `countBidsInTx`: every bid, disqualified or not.
unfoldable pub count_bids_in_tx : ℕ → Tx ℕ
count_bids_in_tx auction_id =
    gets (λ db. length (filter_by (λ b. b.auction_id == auction_id) db.bids))

-- `findAuctionForDeleteLock`
unfoldable pub find_auction_for_delete_lock : ℕ → Tx (Option Auction)
find_auction_for_delete_lock auction_id = gets (λ db. find (λ a. a.id) auction_id db.auctions)

-- `status IN ('PENDING', 'PAID', 'FAILED')`
abbrev pub is_blocking : OrderStatus → Bool
is_blocking OrderStatus.cancelled = false
is_blocking _ = true

-- `countBlockingOrdersInTx`
unfoldable pub count_blocking_orders_in_tx : ℕ → Tx ℕ
count_blocking_orders_in_tx auction_id =
    gets
      (λ db. length (filter_by (λ o. o.auction_id == auction_id && is_blocking o.status) db.orders))

-- `deleteOrdersByAuctionInTx`
unfoldable pub delete_orders_by_auction_in_tx : ℕ → Tx (Unit {0})
delete_orders_by_auction_in_tx auction_id =
    modify λ db. record db { orders = filter_by (λ o. not (o.auction_id == auction_id)) db.orders }

-- `"relistedFromAuctionId"` is set to null when its auction is deleted.
abbrev pub forget_origin : ℕ → Auction → Auction
forget_origin auction_id a =
    if same_id a.relisted_from_auction_id (some auction_id)
    then record a { relisted_from_auction_id = none }
    else a

-- `deleteAuctionByIdInTx`: an order keeps the auction, while bids and wishes go with it.
unfoldable pub delete_auction_by_id_in_tx : ℕ → Tx (Unit {0})
delete_auction_by_id_in_tx auction_id db =
    if any (λ o. o.auction_id == auction_id) db.orders
    then throw Error.foreign_key_violation db
    else ok (
      tt,
      record db {
        auctions = map (forget_origin auction_id) (remove (λ a. a.id) auction_id db.auctions);
        bids = filter_by (λ b. not (b.auction_id == auction_id)) db.bids;
        wishlists = filter_by (λ l. not (l.auction_id == auction_id)) db.wishlists;
      },
    )

-- `deleteSneakerByIdInTx`: an auction keeps its sneaker.
unfoldable pub delete_sneaker_by_id_in_tx : ℕ → Tx (Unit {0})
delete_sneaker_by_id_in_tx sneaker_id db =
    if any (λ a. a.sneaker_id == sneaker_id) db.auctions
    then throw Error.foreign_key_violation db
    else ok (tt, record db { sneakers = remove (λ s. s.id) sneaker_id db.sneakers })
