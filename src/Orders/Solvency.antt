-- ===== src/Orders/Solvency.antt =====
-- The sign of balances under bids and payments.
use sneakerbid.Base.{ℕ, Bool, Option, none, ◌≡◌, arith, subst}
use sneakerbid.Store.Rows.{User, Auction, Order, Db, BidSourceType}
use sneakerbid.Store.Tx.{Result, ok}
use sneakerbid.Wallet.{pay, settle_seller, convert_hold_to_payment}
use sneakerbid.Wallet.Balances.{
  Solvent, SolventDb, Reaches, Solvent-increment, Solvent-decrement, pay-Solvent,
  settle_seller-Solvent,
}
use sneakerbid.Auctions.{place_bid_tx}
use sneakerbid.Auctions.Bidding.{Allowed, bid_taken, place_bid_tx-ok}
use sneakerbid.Orders.{pay_order_tx, OrderPayRow}
use sneakerbid.Orders.Releases.{released}
use sneakerbid.Orders.Upheld.{Upheld, pay_order_tx-up}

pub bid_taken-Solvent :
    (bid_id auction_id price user_id now : ℕ) (source : BidSourceType) (strategy : Option ℕ)
    (a : Auction) (u : User) (db : Db)
    → Allowed auction_id price user_id now a u db
    → Solvent db.users
    → Solvent (bid_taken bid_id auction_id price user_id now source strategy db).users
unfolding bid_taken
bid_taken-Solvent bid_id auction_id price user_id now source strategy a u db allowed h =
    Solvent-decrement user_id price db.users h (ground (arith, allowed.funded, allowed.user_found))

-- A user's bid keeps every balance at zero or more.
pub place_bid_tx-Solvent :
    (bid_id auction_id price user_id now : ℕ) (l : Option ℕ) (db db' : Db)
    → Solvent db.users
    → place_bid_tx bid_id auction_id price user_id now db ≡ ok (l, db')
    → Solvent db'.users
place_bid_tx-Solvent bid_id auction_id price user_id now l db db' h taken =
    let (a, u, allowed, _, e) =
      place_bid_tx-ok bid_id auction_id price user_id now l db db' taken in
    rw e (
      bid_taken-Solvent bid_id auction_id price user_id now BidSourceType.from_user none a u db
        allowed h)

released-Solvent : (u n b : ℕ) (db : Db) → Solvent db.users → Solvent (released u n b db).users
unfolding released
released-Solvent u n b db h = ground (arith, Solvent-increment u n db.users h)

-- A wallet operation that succeeded reached a solvent database.
reached :
    {A : Type 0} (r : Result (A × Db)) (a : A) (db' : Db)
    → Reaches SolventDb r
    → r ≡ ok (a, db')
    → Solvent db'.users
reached {A} r a db' h e = subst (λ (x : Result (A × Db)). Reaches SolventDb x) e h

convert_hold_to_payment-Solvent :
    (u n o : ℕ) (db : Db) → Solvent db.users → Reaches SolventDb (convert_hold_to_payment u n o db)
unfolding convert_hold_to_payment
convert_hold_to_payment-Solvent u n o db h = h

pub Solvent-Upheld : Upheld SolventDb
Solvent-Upheld = record {
  by_pay = λ u n o paid db d h e. reached (pay u n o db) paid d (pay-Solvent u n o db h) e;
  by_settle =
      λ u n o db d h e. reached (settle_seller u n o db) tt d (settle_seller-Solvent u n o db h) e;
  by_convert = λ u n o db d h e.
      reached (convert_hold_to_payment u n o db) tt d (convert_hold_to_payment-Solvent u n o db h)
        e;
  by_release = released-Solvent;
  of_wallet = λ db d users ledger h. rw users h;
}

-- A payment that succeeds, from a hold or from the balance, keeps every balance at zero or more.
pub pay_order_tx-Solvent :
    (row : OrderPayRow) (w : Bool) (u now : ℕ) (r : Order) (db db' : Db)
    → Solvent db.users
    → pay_order_tx row w u now db ≡ ok (r, db')
    → Solvent db'.users
pay_order_tx-Solvent row w u now r db db' h e =
    pay_order_tx-up SolventDb Solvent-Upheld row w u now r db db' h e
