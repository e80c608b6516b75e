-- ===== src/Orders/CloseWith.antt =====
-- What the closing of an auction writes once the auction and its bids are read.
use sneakerbid.Base.{
  ℕ, Bool, true, false, Option, none, some, List, [], ◌∷◌, ◌≡◌, refl, arith, ◌==◌, filter_by, map,
  any,
}
use sneakerbid.Store.Rows.{Auction, Bid, Order, Db}
use sneakerbid.Store.Table.{find, update}
use sneakerbid.Store.Tx.{ok, err, Error}
use sneakerbid.Store.Client.{auction_check, disqualify}
use sneakerbid.Store.Laws.{
  auction_update-written, auction_update-violation, order_create-free, order_create-blocked,
}
use sneakerbid.Store.Ranking.{AtMost, Falling}
use sneakerbid.Orders.Payload.{LosingBid}
use sneakerbid.Orders.{
  close_with, disqualify_all, first_bid, winner_id, price_or, order_for_winner, losing_bid,
  loses_to, closed_auction, new_order,
}

-- The bids with those of the list disqualified.
pub disqualified : List LosingBid → ℕ → List Bid → List Bid
disqualified [] now bs = bs
disqualified (l ∷ ls) now bs = disqualified ls now (update (λ b. b.id) l.id (disqualify now) bs)

pub disqualify_all-eq_ok :
    (ls : List LosingBid) (now : ℕ) (db : Db)
    → disqualify_all ls now db ≡ ok (tt, record db { bids = disqualified ls now db.bids })
unfolding disqualify_all disqualified
disqualify_all-eq_ok [] now db = refl
disqualify_all-eq_ok (l ∷ ls) now db = disqualify_all-eq_ok ls now _

pub AtMost-price_or : (p : ℕ) (bs : List Bid) → Falling bs → AtMost (price_or (first_bid bs) p) bs
AtMost-price_or p [] h = tt
AtMost-price_or p (b ∷ bs) h = (omega arith, h.0)

-- The orders after a closing: one more, for the winner.
abbrev pub orders_after : ℕ → ℕ → Option ℕ → ℕ → ℕ → List Order → List Order
orders_after order_id auction_id none price now os = os
orders_after order_id auction_id (some u) price now os =
    new_order order_id auction_id u price now ∷ os

-- An order for the winner cannot be inserted: the auction has one, of whatever status.
abbrev pub blocked : ℕ → Option ℕ → List Order → Bool
blocked auction_id none os = false
blocked auction_id (some _) os = any (λ o. o.auction_id == auction_id) os

-- The database after a closing by which the auction, the orders and the bids have changed.
abbrev pub closed_db : ℕ → ℕ → Option ℕ → ℕ → ℕ → List LosingBid → Db → Db
closed_db order_id auction_id w price now losers db = record db {
  auctions = update (λ a. a.id) auction_id (closed_auction now w price) db.auctions;
  orders = orders_after order_id auction_id w price now db.orders;
  bids = disqualified losers now db.bids;
}

pub order_for_winner-free :
    (order_id auction_id : ℕ) (w : Option ℕ) (price now : ℕ) (db : Db)
    → blocked auction_id w db.orders ≡ false
    → order_for_winner order_id auction_id w price now db
      ≡ ok (tt, record db { orders = orders_after order_id auction_id w price now db.orders })
order_for_winner-free order_id auction_id none price now db h = refl
order_for_winner-free order_id auction_id (some u) price now db h = ordered
  where
    ordered :
        order_for_winner order_id auction_id (some u) price now db
        ≡ ok (
          tt,
          record db { orders = orders_after order_id auction_id (some u) price now db.orders },
        )
    ordered = rw (order_create-free (new_order order_id auction_id u price now) db h) refl

pub order_for_winner-blocked :
    (order_id auction_id : ℕ) (w : Option ℕ) (price now : ℕ) (db : Db)
    → blocked auction_id w db.orders ≡ true
    → order_for_winner order_id auction_id w price now db ≡ err Error.unique_violation
order_for_winner-blocked order_id auction_id none price now db h = cc
order_for_winner-blocked order_id auction_id (some u) price now db h =
    rw (order_create-blocked (new_order order_id auction_id u price now) db h) refl

module _ (order_id auction_id now : ℕ) (a : Auction) (bids : List Bid) (db : Db)
    (e : find (λ x. x.id) auction_id db.auctions ≡ some a) (w : Option ℕ) (price : ℕ)
    (is_w : winner_id (first_bid bids) ≡ w)
    (is_price : price_or (first_bid bids) a.current_price ≡ price) where
  pub close_with-free :
      auction_check (closed_auction now w price a) ≡ true
      → blocked auction_id w db.orders ≡ false
      → close_with order_id auction_id now a bids db ≡ (
          let losers = map losing_bid (filter_by (loses_to w) bids) in
          ok (
            some (record {
              auction_id = auction_id;
              winner_user_id = w;
              final_price = price;
              losing_bids = losers;
            }),
            closed_db order_id auction_id w price now losers db,
          ))
  close_with-free holds free =
      let f = closed_auction now w price in
      let db1 = record db { auctions = update (λ x. x.id) auction_id f db.auctions } in
      let losers = map losing_bid (filter_by (loses_to w) bids) in
      rw
        (
          is_w,
          is_price,
          auction_update-written auction_id (closed_auction now w price) a db e holds,
        )
        (rw (order_for_winner-free order_id auction_id w price now db1 free) (
          rw
            (disqualify_all-eq_ok losers now
              (record db1 { orders = orders_after order_id auction_id w price now db.orders }))
            refl))

  pub close_with-blocked :
      auction_check (closed_auction now w price a) ≡ true
      → blocked auction_id w db.orders ≡ true
      → close_with order_id auction_id now a bids db ≡ err Error.unique_violation
  close_with-blocked holds taken =
      let f = closed_auction now w price in
      let db1 = record db { auctions = update (λ x. x.id) auction_id f db.auctions } in
      rw
        (
          is_w,
          is_price,
          auction_update-written auction_id (closed_auction now w price) a db e holds,
        )
        (rw (order_for_winner-blocked order_id auction_id w price now db1 taken) refl)

  pub close_with-violation :
      auction_check (closed_auction now w price a) ≡ false
      → close_with order_id auction_id now a bids db ≡ err Error.check_violation
  close_with-violation fails =
      rw
        (
          is_w,
          is_price,
          auction_update-violation auction_id (closed_auction now w price) a db e fails,
        )
        refl
