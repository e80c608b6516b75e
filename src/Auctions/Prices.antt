-- ===== src/Auctions/Prices.antt =====
-- The price of an auction, its active bids, and the bid that leads.
use sneakerbid.Base.{
  ℕ, ◌≤◌, ◌<◌, true, false, Option, none, some, List, [], ◌∷◌, ◌≡◌, refl, arith, ◌==◌, Bool-cases,
  inl, inr, filter_by, subst, sym, eq_of_==,
}
use sneakerbid.Store.Rows.{User, Auction, Bid, Db, BidSourceType}
use sneakerbid.Store.Table.{find, find-update_self, find-update_ne}
use sneakerbid.Store.Ranking.{AtMost, AtMost-sort, AtMost-mono}
use sneakerbid.Store.Tx.{ok}
use sneakerbid.Store.Client.{active_bids, is_active_for, insert_by_price}
use sneakerbid.Auctions.{place_bid_tx, place_bid_as_bot_tx, build_bid_update_data, new_bid_row}
use sneakerbid.Wallet.{covers}
use sneakerbid.Auctions.Bidding.{
  Regular, Allowed, bid_taken, place_bid_tx-ok, place_bid_as_bot_tx-unfunded,
}

-- No active bid of the auction is above the price.
abbrev pub Bounded : ℕ → ℕ → List Bid → Type 0
Bounded auction_id p bs = AtMost p (filter_by (is_active_for auction_id) bs)

insert_by_price-AtMost :
    (b : Bid) (bs : List Bid) → AtMost b.bid_price bs → insert_by_price b bs ≡ b ∷ bs
insert_by_price-AtMost b [] h = refl
insert_by_price-AtMost b (x ∷ bs) h = ground arith

-- A new active bid at or above the price goes to the front; the order of the others stays.
pub active_bids-cons :
    (auction_id p : ℕ) (b : Bid) (bs : List Bid)
    → Bounded auction_id p bs
    → p ≤ b.bid_price
    → is_active_for auction_id b ≡ true
    → active_bids auction_id (b ∷ bs) ≡ b ∷ active_bids auction_id bs
unfolding active_bids
active_bids-cons auction_id p b bs h k e =
    rw e (insert_by_price-AtMost b _ (AtMost-sort b.bid_price _ (AtMost-mono p b.bid_price _ k h)))

-- The prices of a database: each auction's bounds its active bids.
abbrev pub Priced : Db → Type 0
Priced db =
    (id : ℕ) (a : Auction)
    → find (λ x. x.id) id db.auctions ≡ some a
    → Bounded id a.current_price db.bids

id-build_bid_update_data :
    (now price : ℕ) (a : Auction) → (build_bid_update_data now price a).id ≡ a.id
unfolding build_bid_update_data
id-build_bid_update_data now price a = ground arith

price-build_bid_update_data :
    (now price : ℕ) (a : Auction) → (build_bid_update_data now price a).current_price ≡ price
unfolding build_bid_update_data
price-build_bid_update_data now price a = ground arith

module _ (bid_id auction_id bid_price user_id now : ℕ) (source : BidSourceType)
    (strategy : Option ℕ) (x : Auction) (u : User) (db : Db) (priced : Priced db)
    (allowed : Allowed auction_id bid_price user_id now x u db) where
  bid_taken-leads :
      active_bids auction_id
        (bid_taken bid_id auction_id bid_price user_id now source strategy db).bids
      ≡ new_bid_row bid_id auction_id user_id bid_price source strategy
        ∷ active_bids auction_id db.bids
  unfolding bid_taken
  bid_taken-leads =
      active_bids-cons auction_id x.current_price _ db.bids
        (priced auction_id x allowed.regular.auction_found)
        (omega (arith, allowed.regular.high_enough)) (ground arith)

  bid_taken-found :
      find
        (λ a. a.id)
        auction_id
        (bid_taken bid_id auction_id bid_price user_id now source strategy db).auctions
      ≡ some (build_bid_update_data now bid_price x)
  unfolding bid_taken
  bid_taken-found =
      find-update_self (λ a. a.id) (build_bid_update_data now bid_price)
        (id-build_bid_update_data now bid_price) auction_id db.auctions x
        allowed.regular.auction_found

  bid_taken-price :
      (a : Auction)
      → find
          (λ y. y.id)
          auction_id
          (bid_taken bid_id auction_id bid_price user_id now source strategy db).auctions
        ≡ some a
      → a.current_price ≡ bid_price
  bid_taken-price a e = ground (arith, bid_taken-found, price-build_bid_update_data now bid_price x)

  bid_taken-Bounded_self :
      Bounded auction_id bid_price
        (bid_taken bid_id auction_id bid_price user_id now source strategy db).bids
  unfolding bid_taken
  bid_taken-Bounded_self = ground (
    arith,
    allowed.regular.high_enough,
    AtMost-mono x.current_price bid_price (filter_by (is_active_for auction_id) db.bids),
    priced auction_id x allowed.regular.auction_found,
  )

  bid_taken-Priced_self :
      (a : Auction)
      → find
          (λ y. y.id)
          auction_id
          (bid_taken bid_id auction_id bid_price user_id now source strategy db).auctions
        ≡ some a
      → Bounded auction_id a.current_price
          (bid_taken bid_id auction_id bid_price user_id now source strategy db).bids
  bid_taken-Priced_self a e = rw (bid_taken-price a e) bid_taken-Bounded_self

  bid_taken-Priced_other :
      (id : ℕ) (a : Auction)
      → (id == auction_id) ≡ false
      → find
          (λ y. y.id)
          id
          (bid_taken bid_id auction_id bid_price user_id now source strategy db).auctions
        ≡ some a
      → Bounded id a.current_price
          (bid_taken bid_id auction_id bid_price user_id now source strategy db).bids
  unfolding bid_taken
  bid_taken-Priced_other id a other e = ground (
    arith,
    find-update_ne (λ y. y.id) (build_bid_update_data now bid_price)
        (id-build_bid_update_data now bid_price) id auction_id db.auctions other,
    priced id a,
  )

  bid_taken-Priced : Priced (bid_taken bid_id auction_id bid_price user_id now source strategy db)
  bid_taken-Priced id a e = elim (Bool-cases (id == auction_id)) [
    | inl same ↦
        subst
          (λ k.
            find (λ y. y.id) k
                (bid_taken bid_id auction_id bid_price user_id now source strategy db).auctions
              ≡ some a
            → Bounded k a.current_price
                (bid_taken bid_id auction_id bid_price user_id now source strategy db).bids)
          (sym (eq_of_== id auction_id same)) (bid_taken-Priced_self a) e
    | inr other ↦ bid_taken-Priced_other id a other e
  ]

module _ (bid_id auction_id bid_price user_id now : ℕ) (l : Option ℕ) (db db' : Db)
    (priced : Priced db)
    (taken : place_bid_tx bid_id auction_id bid_price user_id now db ≡ ok (l, db')) where
  -- Where each auction's price bounds its active bids, a user's bid that is taken comes first among
  -- the active bids of the auction, before the earlier ones in their order, the auction's price is
  -- then the bid's, and each auction's price still bounds its active bids.
  pub place_bid_tx-leads :
      (active_bids auction_id db'.bids
        ≡ new_bid_row bid_id auction_id user_id bid_price BidSourceType.from_user none
          ∷ active_bids auction_id db.bids)
      × ((a : Auction)
          → find (λ x. x.id) auction_id db'.auctions ≡ some a
          → a.current_price ≡ bid_price)
      × Priced db'
  place_bid_tx-leads =
      let (x, u, allowed, _, e) =
        place_bid_tx-ok bid_id auction_id bid_price user_id now l db db' taken in
      rw e (
        bid_taken-leads bid_id auction_id bid_price user_id now BidSourceType.from_user none x u db
            priced allowed,
        bid_taken-price bid_id auction_id bid_price user_id now BidSourceType.from_user none x u db
            priced allowed,
        bid_taken-Priced bid_id auction_id bid_price user_id now BidSourceType.from_user none x u db
            priced allowed,
      )

-- Where each auction's price bounds its active bids, a positive bid of a bot that the rules of the
-- auction admit and the bot's balance does not cover, once its transaction returns, is reported as
-- not placed, and yet comes first among the active bids; users, ledger and auctions stay.
pub place_bid_as_bot_tx-unfunded_leads :
    (bid_id auction_id bid_price user_id strategy now : ℕ) (a : Auction) (db db' : Db)
    (r : Option (Option ℕ))
    → Priced db
    → Regular auction_id bid_price user_id now a db
    → 0 < bid_price
    → covers (find (λ x. x.id) user_id db.users) bid_price ≡ false
    → place_bid_as_bot_tx bid_id auction_id bid_price user_id strategy now db ≡ ok (r, db')
    → (r ≡ none)
      × (active_bids auction_id db'.bids
          ≡ new_bid_row bid_id auction_id user_id bid_price BidSourceType.from_bot (some strategy)
            ∷ active_bids auction_id db.bids)
      × (db'.users ≡ db.users)
      × (db'.wallet_transactions ≡ db.wallet_transactions)
      × (db'.auctions ≡ db.auctions)
place_bid_as_bot_tx-unfunded_leads bid_id auction_id bid_price user_id strategy now a db db' r
      priced regular p c h =
    ground (
      arith,
      regular.high_enough,
      place_bid_as_bot_tx-unfunded bid_id auction_id bid_price user_id strategy now a db regular p
          c,
      active_bids-cons auction_id a.current_price
          (new_bid_row bid_id auction_id user_id bid_price BidSourceType.from_bot (some strategy))
          db.bids (priced auction_id a regular.auction_found),
    )
