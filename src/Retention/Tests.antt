-- ===== src/Retention/Tests.antt =====
-- A closed auction with its order and its bids, and a sneaker of no auction, are deleted, seven days after its end.
use sneakerbid.Base.{◌+◌, some, [], ◌∷◌, ◌≡◌, arith, filter_by, length, ltb}
use sneakerbid.Store.Rows.{Auction, AuctionStatus, Db}
use sneakerbid.Samples.{db, auction, pending_order, sneaker}
use sneakerbid.Retention.{Purged, purge_old_closed_auctions, is_expired, is_orphan, cutoff_of}
use sneakerbid.Retention.Daily.{purge_old_closed_auctions-ends}

abbrev closed : Auction
closed = record auction { id = 12; status = AuctionStatus.closed; closed_at = some 500 }

abbrev old : Db
old = record db {
  auctions = closed ∷ auction ∷ [];
  sneakers = record sneaker { id = 6 } ∷ db.sneakers;
  orders = record pending_order { auction_id = 12 } ∷ [];
}

purge_old_closed_auctions-ends_example :
    (r : Purged) × (d : Db) × (purge_old_closed_auctions 3 7 604801000 old ≡ some (some r, d))
    × (filter_by (is_expired (cutoff_of 7 604801000)) d.auctions ≡ [])
    × (filter_by (λ o. ltb o.created_at (cutoff_of 7 604801000)) d.orders ≡ [])
    × (filter_by (is_orphan (cutoff_of 7 604801000) d.auctions) d.sneakers ≡ [])
    × (r.total_auctions + length d.auctions ≡ 2)
    × (r.total_sneakers + length d.sneakers ≡ length old.sneakers)
    × (d.users ≡ old.users)
purge_old_closed_auctions-ends_example =
    purge_old_closed_auctions-ends 3 6 604801000 old (omega arith) (omega arith) (omega arith)
