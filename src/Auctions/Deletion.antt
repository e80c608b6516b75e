-- ===== src/Auctions/Deletion.antt =====
-- Deleting an auction.
use sneakerbid.Base.{
  ℕ, true, false, some, List, [], ◌∷◌, ◌≡◌, ◌≢◌, refl, arith, ◌⊎◌, inl, inr, ◌==◌, any, filter_by,
  length, not, ◌&&◌, map, Option-cases,
}
use sneakerbid.Store.Rows.{User, Auction, Order, Db}
use sneakerbid.Store.Table.{find, remove}
use sneakerbid.Store.Tx.{ok}
use sneakerbid.Store.Deletes.{
  is_blocking, forget_origin, delete_orders_by_auction_in_tx, delete_auction_by_id_in_tx,
  delete_sneaker_by_id_in_tx,
}
use sneakerbid.Auctions.Editing.{delete_auction, is_admin}

abbrev pub bids_on : ℕ → Db → ℕ
bids_on id db = length (filter_by (λ b. b.auction_id == id) db.bids)

abbrev pub blocking_orders : ℕ → Db → ℕ
blocking_orders id db =
    length (filter_by (λ o. o.auction_id == id && is_blocking o.status) db.orders)

orders-filtered :
    (id : ℕ) (os : List Order)
    → any (λ o. o.auction_id == id) (filter_by (λ o. not (o.auction_id == id)) os) ≡ false
orders-filtered id [] = refl
orders-filtered id (o ∷ os) = ground (arith, orders-filtered id os)

-- A deletion that succeeds was asked for by the seller or an administrator, for an auction without
-- bids and without an order that is not cancelled. It leaves no order of the auction and no auction
-- with its sneaker, takes no order of another auction, and touches neither balances nor ledger.
pub delete_auction-ok :
    (id : ℕ) (user : User) (db db' : Db)
    → delete_auction id user db ≡ ok (tt, db')
    → (a : Auction) × (find (λ x. x.id) id db.auctions ≡ some a)
      × ((is_admin user.role ≡ true) ⊎ (a.seller_user_id ≡ user.id))
      × (bids_on id db ≡ 0)
      × (blocking_orders id db ≡ 0)
      × (any (λ x. x.sneaker_id == a.sneaker_id) db'.auctions ≡ false)
      × (db'.orders ≡ filter_by (λ o. not (o.auction_id == id)) db.orders)
      × (any (λ o. o.auction_id == id) db'.orders ≡ false)
      × (db'.users ≡ db.users)
      × (db'.wallet_transactions ≡ db.wallet_transactions)
unfolding delete_auction delete_orders_by_auction_in_tx delete_auction_by_id_in_tx
    delete_sneaker_by_id_in_tx
delete_auction-ok id user db db' h = elim (Option-cases (find (λ x. x.id) id db.auctions)) [
  | inl missing ↦ absurd (ground arith)
  | inr (a, e) ↦ (
    a,
    e,
    ground arith,
    ground arith,
    ground arith,
    ground arith,
    ground arith,
    ground (arith, orders-filtered id db.orders),
    ground arith,
    ground arith,
  )
]

other-remapped :
    (id other n : ℕ) (b : Auction) (xs : List Auction)
    → find (λ x. x.id) other xs ≡ some b
    → b.sneaker_id ≡ n
    → any (λ x. x.sneaker_id == n) (map (forget_origin id) xs) ≡ true
other-remapped id other n b [] e s = cc
other-remapped id other n b (x ∷ xs) e s = ground (arith, other-remapped id other n b xs)

other-remains :
    (id other n : ℕ) (b : Auction) (xs : List Auction)
    → (other == id) ≡ false
    → find (λ x. x.id) other xs ≡ some b
    → b.sneaker_id ≡ n
    → any (λ x. x.sneaker_id == n) (map (forget_origin id) (remove (λ x. x.id) id xs)) ≡ true
other-remains id other n b [] ne e s = cc
other-remains id other n b (x ∷ xs) ne e s =
    ground (arith, other-remains id other n b xs ne, other-remapped id other n b xs)

-- When another auction has the same sneaker, as the auction has from which a bot's win was relisted,
-- deleting an auction never succeeds, whoever asks.
pub delete_auction-shared :
    (id other : ℕ) (user : User) (a b : Auction) (db db' : Db)
    → find (λ x. x.id) id db.auctions ≡ some a
    → (other == id) ≡ false
    → find (λ x. x.id) other db.auctions ≡ some b
    → b.sneaker_id ≡ a.sneaker_id
    → delete_auction id user db ≢ ok (tt, db')
unfolding delete_auction delete_orders_by_auction_in_tx delete_auction_by_id_in_tx
    delete_sneaker_by_id_in_tx
delete_auction-shared id other user a b db db' e ne eb same h =
    ground (arith, other-remains id other a.sneaker_id b db.auctions ne eb same)
