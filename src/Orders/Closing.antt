-- ===== src/Orders/Closing.antt =====
-- Closing an auction: who wins, at which price, and what is written.
use sneakerbid.Base.{
  ℕ, true, false, Option, none, some, List, ◌∷◌, ◌≡◌, ◌≢◌, refl, arith, ◌==◌, Option-cases,
  Bool-cases, inl, inr, filter_by, map, any, is_some, ◌&&◌, sym, subst, ◌∙◌,
}
use sneakerbid.Store.Rows.{Auction, Bid, Db}
use sneakerbid.Store.Table.{find, find-update_self}
use sneakerbid.Store.Tx.{Result, ok, err, Error}
use sneakerbid.Store.Lock.{LockOptions, lock_condition}
use sneakerbid.Store.Client.{active_bids, auction_check}
use sneakerbid.Store.Ranking.{AtMost, active_bids-Falling}
use sneakerbid.Orders.Payload.{CloseResult}
use sneakerbid.Orders.{
  execute_close_in_transaction, close_with, first_bid, winner_id, price_or, losing_bid, loses_to,
  closed_auction,
}
use sneakerbid.Orders.CloseWith.{
  disqualified, AtMost-price_or, orders_after, closed_db, blocked, close_with-free,
  close_with-blocked, close_with-violation,
}

-- What it means that an auction was closed with a result.
pub record IsClosing (order_id auction_id now : ℕ) (o : LockOptions) (db db' : Db) (r : CloseResult)
    : Type 0 where
  pub before : Auction
  pub found : find (λ a. a.id) auction_id db.auctions ≡ some before
  pub lockable : lock_condition o.status_open o.end_time_lte o.end_time_gt before ≡ true
  pub of_auction : r.auction_id ≡ auction_id
  pub winner : r.winner_user_id ≡ winner_id (first_bid (active_bids auction_id db.bids))
  pub price :
      r.final_price ≡ price_or (first_bid (active_bids auction_id db.bids)) before.current_price
  pub dearest : AtMost r.final_price (active_bids auction_id db.bids)
  pub losers :
      r.losing_bids
      ≡ map losing_bid (filter_by (loses_to r.winner_user_id) (active_bids auction_id db.bids))
  pub written :
      find (λ a. a.id) auction_id db'.auctions
      ≡ some (closed_auction now r.winner_user_id r.final_price before)
  pub bids_after : db'.bids ≡ disqualified r.losing_bids now db.bids
  pub ordered :
      db'.orders ≡ orders_after order_id auction_id r.winner_user_id r.final_price now db.orders
  pub not_ordered : blocked auction_id r.winner_user_id db.orders ≡ false
  pub same_users : db'.users ≡ db.users
  pub same_ledger : db'.wallet_transactions ≡ db.wallet_transactions

-- The options do not name two bounds.
abbrev pub IsSane : LockOptions → Type 0
IsSane o = (is_some o.end_time_lte && is_some o.end_time_gt) ≡ false

execute_close-close_with :
    (order_id auction_id now : ℕ) (o : LockOptions) (a : Auction) (db : Db)
    → IsSane o
    → find (λ x. x.id) auction_id db.auctions ≡ some a
    → lock_condition o.status_open o.end_time_lte o.end_time_gt a ≡ true
    → execute_close_in_transaction order_id auction_id o now db
      ≡ close_with order_id auction_id now a (active_bids auction_id db.bids) db
unfolding execute_close_in_transaction
execute_close-close_with order_id auction_id now o a db sane e lc =
    rw sane (rw e (rw lc (rw e refl)))

execute_close-locked :
    (order_id auction_id now : ℕ) (o : LockOptions) (r : CloseResult) (db db' : Db)
    → execute_close_in_transaction order_id auction_id o now db ≡ ok (some r, db')
    → (a : Auction) × IsSane o
      × (find (λ x. x.id) auction_id db.auctions ≡ some a)
      × (lock_condition o.status_open o.end_time_lte o.end_time_gt a ≡ true)
unfolding execute_close_in_transaction
execute_close-locked order_id auction_id now o r db db' h =
    elim (Option-cases (find (λ x. x.id) auction_id db.auctions)) [
      | inl missing ↦ absurd (ground arith)
      | inr (a, e) ↦ (a, ground arith, e, ground arith)
    ]

result_clash : {A : Type 0} {x : A} {e : Error} → err e ≡ ok x → ⊥
result_clash h = cc

same_result :
    {A : Type 0} (P : A → Db → Type 0) {x y : A} {d d' : Db}
    → ◌≡◌ {A = Result (Option A × Db)} (ok (some x, d)) (ok (some y, d'))
    → P x d
    → P y d'
same_result P {x} {y} {d} {d'} h p = subst (λ e. P y e) (cc) (subst (λ a. P a d) (cc) p)

module _ (order_id auction_id now : ℕ) (o : LockOptions) (db : Db) (sane : IsSane o) (a : Auction)
    (found : find (λ x. x.id) auction_id db.auctions ≡ some a)
    (lockable : lock_condition o.status_open o.end_time_lte o.end_time_gt a ≡ true) where
  -- Closing the auction throws, whatever else holds, when it has an active bid and an order of
  -- whatever status, and its row meets the constraints: the order of the winner is not unique.
  pub execute_close-ordered_before :
      (b : Bid) (bs : List Bid)
      → active_bids auction_id db.bids ≡ b ∷ bs
      → auction_check (closed_auction now (some b.user_id) b.bid_price a) ≡ true
      → any (λ x. x.auction_id == auction_id) db.orders ≡ true
      → execute_close_in_transaction order_id auction_id o now db ≡ err Error.unique_violation
  execute_close-ordered_before b bs top holds taken =
      rw (execute_close-close_with order_id auction_id now o a db sane found lockable) (
        close_with-blocked order_id auction_id now a (active_bids auction_id db.bids) db found
          (some b.user_id) b.bid_price (rw top refl) (rw top refl) holds taken)

  closed_db-IsClosing :
      (w : Option ℕ) (price : ℕ)
      → winner_id (first_bid (active_bids auction_id db.bids)) ≡ w
      → price_or (first_bid (active_bids auction_id db.bids)) a.current_price ≡ price
      → blocked auction_id w db.orders ≡ false
      → let losers = map losing_bid (filter_by (loses_to w) (active_bids auction_id db.bids)) in
        IsClosing order_id auction_id now o db
          (closed_db order_id auction_id w price now losers db)
          (record {
            auction_id = auction_id;
            winner_user_id = w;
            final_price = price;
            losing_bids = losers;
          })
  closed_db-IsClosing w price is_w is_price free = record {
    before = a;
    found = found;
    lockable = lockable;
    of_auction = refl;
    winner = sym is_w;
    price = sym is_price;
    dearest =
        subst (λ p. AtMost p (active_bids auction_id db.bids)) is_price
          (AtMost-price_or a.current_price (active_bids auction_id db.bids)
            (active_bids-Falling auction_id db.bids));
    losers = refl;
    written =
        find-update_self (λ x. x.id) (closed_auction now w price) (λ x. refl) auction_id db.auctions
          a found;
    bids_after = refl;
    ordered = refl;
    not_ordered = free;
    same_users = refl;
    same_ledger = refl;
  }

  close_with-IsClosing :
      (r : CloseResult) (db' : Db) (w : Option ℕ) (price : ℕ)
      → winner_id (first_bid (active_bids auction_id db.bids)) ≡ w
      → price_or (first_bid (active_bids auction_id db.bids)) a.current_price ≡ price
      → close_with order_id auction_id now a (active_bids auction_id db.bids) db ≡ ok (some r, db')
      → IsClosing order_id auction_id now o db db' r
  close_with-IsClosing r db' w price is_w is_price h =
      elim (Bool-cases (auction_check (closed_auction now w price a))) [
        | inr fails ↦ absurd (
            result_clash (
              sym (
                close_with-violation order_id auction_id now a _ db found w price is_w is_price
                  fails)
              ∙ h))
        | inl holds ↦ elim (Bool-cases (blocked auction_id w db.orders)) [
          | inl taken ↦ absurd (
              result_clash (
                sym (
                  close_with-blocked order_id auction_id now a _ db found w price is_w is_price
                    holds taken)
                ∙ h))
          | inr free ↦
              same_result (λ x y. IsClosing order_id auction_id now o db y x)
                (sym (
                    close_with-free order_id auction_id now a _ db found w price is_w is_price holds
                      free)
                  ∙ h)
                (closed_db-IsClosing w price is_w is_price free)
        ]
      ]

pub execute_close-IsClosing :
    (order_id auction_id now : ℕ) (o : LockOptions) (r : CloseResult) (db db' : Db)
    → execute_close_in_transaction order_id auction_id o now db ≡ ok (some r, db')
    → IsClosing order_id auction_id now o db db' r
execute_close-IsClosing order_id auction_id now o r db db' h =
    let (a, sane, found, lockable) = execute_close-locked order_id auction_id now o r db db' h in
    close_with-IsClosing order_id auction_id now o db sane a found lockable r db' _ _ refl refl
      (sym (execute_close-close_with order_id auction_id now o a db sane found lockable) ∙ h)

close_with-some :
    (order_id auction_id now : ℕ) (a : Auction) (bids : List Bid) (db db' : Db) (w : Option ℕ)
    (price : ℕ)
    → find (λ x. x.id) auction_id db.auctions ≡ some a
    → winner_id (first_bid bids) ≡ w
    → price_or (first_bid bids) a.current_price ≡ price
    → close_with order_id auction_id now a bids db ≢ ok (none, db')
close_with-some order_id auction_id now a bids db db' w price e is_w is_price h =
    elim (Bool-cases (auction_check (closed_auction now w price a))) [
      | inr fails ↦
          cc (close_with-violation order_id auction_id now a bids db e w price is_w is_price fails)
      | inl holds ↦ elim (Bool-cases (blocked auction_id w db.orders)) [
        | inl taken ↦ cc (
            close_with-blocked order_id auction_id now a bids db e w price is_w is_price holds
              taken)
        | inr free ↦
            cc
              (close_with-free order_id auction_id now a bids db e w price is_w is_price holds free)
      ]
    ]

-- A closing that yields nothing changes nothing.
pub execute_close-none :
    (order_id auction_id now : ℕ) (o : LockOptions) (db db' : Db)
    → execute_close_in_transaction order_id auction_id o now db ≡ ok (none, db')
    → db' ≡ db
unfolding execute_close_in_transaction
execute_close-none order_id auction_id now o db db' h =
    elim (Option-cases (find (λ x. x.id) auction_id db.auctions)) [
      | inl missing ↦ ground arith
      | inr (a, e) ↦
          elim (Bool-cases (lock_condition o.status_open o.end_time_lte o.end_time_gt a)) [
            | inr fails ↦ ground arith
            | inl holds ↦
                let sane : IsSane o = ground arith in
                absurd (
                  close_with-some order_id auction_id now a (active_bids auction_id db.bids) db db'
                    _ _ e refl refl
                    (sym (execute_close-close_with order_id auction_id now o a db sane e holds)
                      ∙ h))
          ]
    ]
