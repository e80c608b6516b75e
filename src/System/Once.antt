-- ===== src/System/Once.antt =====
-- How often the ledger gives the hold of a bid back.
use sneakerbid.Base.{ℕ, ◌≤◌, Bool, Option, ◌≡◌, arith}
use sneakerbid.Store.Rows.{Db, BidSourceType}
use sneakerbid.Store.Tx.{ok}
use sneakerbid.Wallet.{pay, settle_seller, convert_hold_to_payment}
use sneakerbid.Orders.Releases.{releases, releases-released_once}
use sneakerbid.Orders.Upheld.{Upheld}
use sneakerbid.Auctions.Bidding.{bid_taken}

-- No bid's hold was given back twice.
abbrev pub Once : Db → Type 0
Once d = (c : ℕ) → releases c d ≤ 1

pay-Once : (u n o : ℕ) (paid : Bool) (db d : Db) → Once db → pay u n o db ≡ ok (paid, d) → Once d
unfolding pay
pay-Once u n o paid db d h e c = ground (arith, h c)

settle_seller-Once :
    (u n o : ℕ) (db d : Db) → Once db → settle_seller u n o db ≡ ok (tt, d) → Once d
unfolding settle_seller
settle_seller-Once u n o db d h e c = ground (arith, h c)

convert_hold_to_payment-Once :
    (u n o : ℕ) (db d : Db) → Once db → convert_hold_to_payment u n o db ≡ ok (tt, d) → Once d
unfolding convert_hold_to_payment
convert_hold_to_payment-Once u n o db d h e c = ground (arith, h c)

pub bid_taken-Once :
    (bid_id auction_id price user_id now : ℕ) (source : BidSourceType) (strategy : Option ℕ)
    (db : Db)
    → Once db
    → Once (bid_taken bid_id auction_id price user_id now source strategy db)
unfolding bid_taken
bid_taken-Once bid_id auction_id price user_id now source strategy db h c = ground (arith, h c)

pub Once-Upheld : Upheld Once
Once-Upheld = record {
  by_pay = pay-Once;
  by_settle = settle_seller-Once;
  by_convert = convert_hold_to_payment-Once;
  by_release = λ u n b db h c. releases-released_once u n b c db (h c);
  of_wallet = λ db d users ledger h c. rw ledger (h c);
}
