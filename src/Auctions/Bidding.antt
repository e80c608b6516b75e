-- ===== src/Auctions/Bidding.antt =====
-- When a bid is taken, and what it changes.
use sneakerbid.Base.{
  ℕ, ◌≤◌, ◌<◌, true, false, Option, none, some, ◌∷◌, ◌≡◌, ◌≢◌, arith, Option-cases, inl, inr,
}
use sneakerbid.Base.Int.{pos, ◌-ℤ◌, ◌≤ℤ◌}
use sneakerbid.Store.Rows.{
  User, Auction, Db, AuctionStatus, BidSourceType, WalletTxType, WalletRefType,
}
use sneakerbid.Store.Table.{find, update}
use sneakerbid.Store.Tx.{ok}
use sneakerbid.Store.Client.{active_bids, auction_check}
use sneakerbid.Wallet.{entry, negated, covers}
use sneakerbid.Auctions.{
  place_bid_tx, place_bid_as_bot_tx, build_bid_update_data, min_bid, leader_of, new_bid_row,
}

-- A bid that the rules of the auction admit.
pub record Regular (auction_id bid_price user_id now : ℕ) (a : Auction) (db : Db) : Type 0 where
  pub auction_found : find (λ x. x.id) auction_id db.auctions ≡ some a
  pub is_open : a.status ≡ AuctionStatus.opened
  pub before_end : now < a.end_time
  pub not_seller : a.seller_user_id ≢ user_id
  pub not_leader : leader_of (active_bids auction_id db.bids) ≢ some user_id
  pub high_enough : min_bid a ≤ bid_price

-- A regular bid that the bidder's balance covers.
pub record Allowed (auction_id bid_price user_id now : ℕ) (a : Auction) (u : User) (db : Db)
    : Type 0 where
  pub regular : Regular auction_id bid_price user_id now a db
  pub user_found : find (λ x. x.id) user_id db.users ≡ some u
  pub funded : pos bid_price ≤ℤ u.balance

-- The database with the bid: its row, the hold, and the new price and end of the auction.
unfoldable pub bid_taken : ℕ → ℕ → ℕ → ℕ → ℕ → BidSourceType → Option ℕ → Db → Db
bid_taken bid_id auction_id bid_price user_id now source strategy db = record db {
  bids = new_bid_row bid_id auction_id user_id bid_price source strategy ∷ db.bids;
  users =
      update (λ u. u.id) user_id (λ u. record u { balance = u.balance -ℤ pos bid_price }) db.users;
  wallet_transactions =
      entry user_id (negated bid_price) WalletTxType.bid_hold WalletRefType.bid_ref bid_id
      ∷ db.wallet_transactions;
  auctions = update (λ a. a.id) auction_id (build_bid_update_data now bid_price) db.auctions;
}

-- A user's bid is taken only if it is allowed, and then the database is the one with the bid.
pub place_bid_tx-ok :
    (bid_id auction_id bid_price user_id now : ℕ) (l : Option ℕ) (db db' : Db)
    → place_bid_tx bid_id auction_id bid_price user_id now db ≡ ok (l, db')
    → (a : Auction) × (u : User) × Allowed auction_id bid_price user_id now a u db
      × (l ≡ leader_of (active_bids auction_id db.bids))
      × (db' ≡ bid_taken bid_id auction_id bid_price user_id now BidSourceType.from_user none db)
unfolding place_bid_tx bid_taken
place_bid_tx-ok bid_id auction_id bid_price user_id now l db db' h =
    elim (Option-cases (find (λ x. x.id) auction_id db.auctions)) [
      | inl none_found ↦ absurd (ground arith)
      | inr (a, e) ↦ elim (Option-cases (find (λ x. x.id) user_id db.users)) [
        | inl no_user ↦ absurd (ground arith)
        | inr (u, eu) ↦ (a, u, ground arith, ground arith, ground arith)
      ]
    ]

-- A user's bid of a positive price is taken, and the previous leader returned, whenever it is allowed
-- and the auction's row with the new price satisfies the constraints of the table.
pub place_bid_tx-Allowed :
    (bid_id auction_id bid_price user_id now : ℕ) (a : Auction) (u : User) (db : Db)
    → Allowed auction_id bid_price user_id now a u db
    → 0 < bid_price
    → auction_check (build_bid_update_data now bid_price a) ≡ true
    → place_bid_tx bid_id auction_id bid_price user_id now db
      ≡ ok (
        leader_of (active_bids auction_id db.bids),
        bid_taken bid_id auction_id bid_price user_id now BidSourceType.from_user none db,
      )
unfolding place_bid_tx bid_taken
place_bid_tx-Allowed bid_id auction_id bid_price user_id now a u db h p c = ground arith

-- A bot's bid that is reported as taken was allowed, and the database is the one with the bid.
pub place_bid_as_bot_tx-ok :
    (bid_id auction_id bid_price user_id strategy now : ℕ) (l : Option ℕ) (db db' : Db)
    → place_bid_as_bot_tx bid_id auction_id bid_price user_id strategy now db ≡ ok (some l, db')
    → (a : Auction) × (u : User) × Allowed auction_id bid_price user_id now a u db
      × (l ≡ leader_of (active_bids auction_id db.bids))
      × (db'
          ≡ bid_taken bid_id auction_id bid_price user_id now BidSourceType.from_bot
              (some strategy)
              db)
unfolding place_bid_as_bot_tx bid_taken
place_bid_as_bot_tx-ok bid_id auction_id bid_price user_id strategy now l db db' h =
    elim (Option-cases (find (λ x. x.id) auction_id db.auctions)) [
      | inl none_found ↦ absurd (ground arith)
      | inr (a, e) ↦ elim (Option-cases (find (λ x. x.id) user_id db.users)) [
        | inl no_user ↦ absurd (ground arith)
        | inr (u, eu) ↦ (a, u, ground arith, ground arith, ground arith)
      ]
    ]

-- A regular bid of a bot whose balance does not cover it is reported as not placed, and yet stays
-- in the database: the guard on the hold returns, and the transaction commits. No money is held.
pub place_bid_as_bot_tx-unfunded :
    (bid_id auction_id bid_price user_id strategy now : ℕ) (a : Auction) (db : Db)
    → Regular auction_id bid_price user_id now a db
    → 0 < bid_price
    → covers (find (λ x. x.id) user_id db.users) bid_price ≡ false
    → place_bid_as_bot_tx bid_id auction_id bid_price user_id strategy now db
      ≡ ok (
        none,
        record db {
          bids =
              new_bid_row bid_id auction_id user_id bid_price BidSourceType.from_bot (some strategy)
              ∷ db.bids;
        },
      )
unfolding place_bid_as_bot_tx
place_bid_as_bot_tx-unfunded bid_id auction_id bid_price user_id strategy now a db h p c =
    ground arith
