-- ===== src/Auctions/EditTests.antt =====
-- Creating, editing and deleting concrete auctions.
use sneakerbid.Base.{
  ◌≡◌, ◌<◌, ◌⊎◌, refl, none, some, [], ◌∷◌, false, true, any, filter_by, not, ◌==◌,
}
use sneakerbid.Store.Rows.{Auction, AuctionStatus, Db, OrderStatus}
use sneakerbid.Store.Client.{auction_check, auction_update, auction_find, sneaker_update}
use sneakerbid.Store.Table.{find}
use sneakerbid.Store.Tx.{Tx, ok, err}
use sneakerbid.Store.Deletes.{
  delete_orders_by_auction_in_tx, delete_auction_by_id_in_tx, delete_sneaker_by_id_in_tx,
}
use sneakerbid.Samples.{db, seller, auction, pending_order}
use sneakerbid.Auctions.Editing.{
  CreateAuctionDto, new_auction, UpdateAuctionDto, patch_tx, delete_auction, is_admin,
  edits_auction, edits_sneaker,
}
use sneakerbid.Auctions.Patching.{patch_tx-ok}
use sneakerbid.Auctions.Deletion.{bids_on, blocking_orders, delete_auction-ok}

abbrev left_by : {A : Type 0} → Tx A → Db → Db
left_by m d = elim (m d) [ ok (_, d') ↦ d' | err _ ↦ d ]

abbrev dto : CreateAuctionDto
dto = record {
  model_name = "Samba";
  brand = "Adidas";
  color = "white";
  description = "new";
  image_url = "/samba.webp";
  size = "265";
  start_price = 50;
  buy_now_price = some 200;
  minimum_increment = 5;
  end_time = some 90000;
}

abbrev created : Auction
created = new_auction 11 6 1 90000 dto

abbrev patch : UpdateAuctionDto
patch = record {
  name = none;
  brand = none;
  size = some "280";
  color = none;
  description = none;
  image_url = none;
  start_price = none;
  buy_now_price = none;
  minimum_increment = some 20;
  end_time = none;
}

abbrev patched : Db
patched = left_by (patch_tx auction patch 1000) db

patch_tx-ok_example :
    (auction.status ≡ AuctionStatus.opened)
    × (1000 < auction.end_time)
    × ((0 < bids_on 10 db)
        → (c : Auction) × (find (λ x. x.id) 10 patched.auctions ≡ some c)
          × (c.start_price ≡ auction.start_price)
          × (c.current_price ≡ auction.current_price)
          × (c.buy_now_price ≡ auction.buy_now_price))
    × (patched.bids ≡ db.bids)
    × (patched.orders ≡ db.orders)
    × (patched.users ≡ db.users)
    × (patched.wallet_transactions ≡ db.wallet_transactions)
unfolding patch_tx auction_check auction_update auction_find sneaker_update edits_auction
    edits_sneaker
patch_tx-ok_example =
    patch_tx-ok auction auction patch 1000
      (some (record auction { size = "280"; minimum_increment = 20 })) db patched refl refl

-- The auction without bids, with an order that was cancelled.
abbrev quiet : Db
quiet = record db {
  bids = [];
  orders = record pending_order { status = OrderStatus.cancelled } ∷ [];
}

abbrev deleted : Db
deleted = left_by (delete_auction 10 seller) quiet

delete_auction-ok_example :
    (a : Auction) × (find (λ x. x.id) 10 quiet.auctions ≡ some a)
    × ((is_admin seller.role ≡ true) ⊎ (a.seller_user_id ≡ seller.id))
    × (bids_on 10 quiet ≡ 0)
    × (blocking_orders 10 quiet ≡ 0)
    × (any (λ x. x.sneaker_id == a.sneaker_id) deleted.auctions ≡ false)
    × (deleted.orders ≡ filter_by (λ o. not (o.auction_id == 10)) quiet.orders)
    × (any (λ o. o.auction_id == 10) deleted.orders ≡ false)
    × (deleted.users ≡ quiet.users)
    × (deleted.wallet_transactions ≡ quiet.wallet_transactions)
unfolding delete_auction delete_orders_by_auction_in_tx delete_auction_by_id_in_tx
    delete_sneaker_by_id_in_tx
delete_auction-ok_example = delete_auction-ok 10 seller quiet deleted refl

-- The same auction as one that a bot relisted from another.
abbrev relisted : Db
relisted = record quiet {
  auctions =
      record auction { relisted_from_auction_id = some 9 }
      ∷ record auction { id = 9; status = AuctionStatus.closed }
      ∷ [];
}
