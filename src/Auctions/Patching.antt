-- ===== src/Auctions/Patching.antt =====
-- Creating and editing an auction.
use sneakerbid.Base.{
  ℕ, ◌<◌, true, Option, some, ◌∷◌, ◌≡◌, refl, arith, inl, inr, Option-cases, Bool-cases,
}
use sneakerbid.Store.Rows.{User, Auction, AuctionStatus, Db}
use sneakerbid.Store.Table.{find, find-update_self}
use sneakerbid.Store.Tx.{ok}
use sneakerbid.Store.Client.{auction_update, auction_check, auction_find, sneaker_update}
use sneakerbid.Auctions.Editing.{
  CreateAuctionDto, create_auction, new_auction, new_sneaker, includes, auction_brands,
  auction_sizes, UpdateAuctionDto, patch_tx, edit_auction, edits_auction,
}
use sneakerbid.Auctions.Deletion.{bids_on}

-- An auction that is created has a listed brand and size and an end that is still to come, starts at
-- its start price, which its price for buying now is not below, belongs to a known user, and comes
-- with a sneaker of its own; nothing else changes.
pub create_auction-ok :
    (auction_id sneaker_id user_id now : ℕ) (dto : CreateAuctionDto) (a : Auction) (db db' : Db)
    → create_auction auction_id sneaker_id dto user_id now db ≡ ok (a, db')
    → (t : ℕ) × (u : User) × (find (λ x. x.id) user_id db.users ≡ some u)
      × (includes auction_brands dto.brand ≡ true)
      × (includes auction_sizes dto.size ≡ true)
      × (now < t)
      × (a ≡ new_auction auction_id sneaker_id u.id t dto)
      × (auction_check a ≡ true)
      × (db' ≡ record db {
        auctions = a ∷ db.auctions;
        sneakers = new_sneaker sneaker_id now dto ∷ db.sneakers;
      })
unfolding create_auction
create_auction-ok auction_id sneaker_id user_id now dto a db db' h =
    elim (Option-cases (find (λ x. x.id) user_id db.users)) [
      | inl missing ↦ absurd (ground arith)
      | inr (u, eu) ↦ elim (Option-cases dto.end_time) [
        | inl no_end ↦ absurd (ground arith)
        | inr (t, et) ↦ (
          t,
          u,
          eu,
          ground arith,
          ground arith,
          ground arith,
          ground arith,
          ground arith,
          ground arith,
        )
      ]
    ]

patch_tx-fixed :
    (a b : Auction) (dto : UpdateAuctionDto) (now : ℕ) (r : Option Auction) (db db' : Db)
    → find (λ x. x.id) a.id db.auctions ≡ some b
    → patch_tx a dto now db ≡ ok (r, db')
    → 0 < bids_on a.id db
    → (c : Auction) × (find (λ x. x.id) a.id db'.auctions ≡ some c)
      × (c.start_price ≡ b.start_price)
      × (c.current_price ≡ b.current_price)
      × (c.buy_now_price ≡ b.buy_now_price)
unfolding patch_tx auction_update auction_find sneaker_update
patch_tx-fixed a b dto now r db db' e h p = elim (Bool-cases (edits_auction dto)) [
  | inr none_given ↦ (b, ground arith, refl, refl, refl)
  | inl given ↦ (
    edit_auction dto b,
    ground
        (arith, find-update_self (λ x. x.id) (edit_auction dto) (λ x. refl) a.id db.auctions b e),
    ground arith,
    ground arith,
    ground arith,
  )
]

-- An edit that succeeds found the auction open and before its end, and when the auction has a bid, of
-- whatever standing, its row keeps the start price, the price and the price for buying now. Bids,
-- orders, balances and ledger stay.
pub patch_tx-ok :
    (a b : Auction) (dto : UpdateAuctionDto) (now : ℕ) (r : Option Auction) (db db' : Db)
    → find (λ x. x.id) a.id db.auctions ≡ some b
    → patch_tx a dto now db ≡ ok (r, db')
    → (b.status ≡ AuctionStatus.opened)
      × (now < b.end_time)
      × ((0 < bids_on a.id db)
          → (c : Auction) × (find (λ x. x.id) a.id db'.auctions ≡ some c)
            × (c.start_price ≡ b.start_price)
            × (c.current_price ≡ b.current_price)
            × (c.buy_now_price ≡ b.buy_now_price))
      × (db'.bids ≡ db.bids)
      × (db'.orders ≡ db.orders)
      × (db'.users ≡ db.users)
      × (db'.wallet_transactions ≡ db.wallet_transactions)
unfolding patch_tx auction_update auction_find sneaker_update
patch_tx-ok a b dto now r db db' e h = (
  ground arith,
  ground arith,
  λ p. patch_tx-fixed a b dto now r db db' e h p,
  ground arith,
  ground arith,
  ground arith,
  ground arith,
)
