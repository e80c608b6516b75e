-- ===== src/Orders/Upheld.antt =====
-- What each transaction keeps, of a property of the database that every write keeps.
use sneakerbid.Base.{
  ℕ, Bool, true, false, Option, none, some, List, [], ◌∷◌, ◌≡◌, refl, ◌==◌, Bool-cases, inl, inr,
  ◌∙◌, sym, subst, String, arith,
}
use sneakerbid.Store.Rows.{Auction, Bid, Order, Db}
use sneakerbid.Store.Table.{update}
use sneakerbid.Store.Tx.{ok}
use sneakerbid.Store.Client.{
  active_bids, auction_update, bid_disqualify, disqualify, order_update_pending, auction_find,
  auction_bids, order_find_or_throw,
}
use sneakerbid.Store.Laws.{>>=-eq-ok, auction_update-auctions}
use sneakerbid.Wallet.{pay, settle_seller, convert_hold_to_payment}
use sneakerbid.Orders.{
  release_all, drop_winner, reopen_with, cancel_and_reopen, cancelled_order, charge_buyer,
  return_bids, drop_all, settle_order, after_claim, pay_order_tx, paid_order, OrderPayRow,
  first_bid, is_auction_winner, baseline_price, reopened_auction,
}
use sneakerbid.Orders.Payload.{LosingBid}
use sneakerbid.Orders.Releases.{
  released, release_each, release_bid_hold-released, release_all-release_each,
}
use sneakerbid.Orders.Payment.{dropped, drop_all-dropped, clash, claim_cases}
use sneakerbid.Orders.Reopening.{cancel_and_reopen_cases}

-- Every write of an order's life keeps the property, and it says nothing of auctions, bids, orders,
-- sneakers and wishes.
pub record Upheld (P : Db → Type 0) : Type 0 where
  pub by_pay : (u n o : ℕ) (paid : Bool) (db d : Db) → P db → pay u n o db ≡ ok (paid, d) → P d
  pub by_settle : (u n o : ℕ) (db d : Db) → P db → settle_seller u n o db ≡ ok (tt, d) → P d
  pub by_convert :
      (u n o : ℕ) (db d : Db) → P db → convert_hold_to_payment u n o db ≡ ok (tt, d) → P d
  pub by_release : (u n b : ℕ) (db : Db) → P db → P (released u n b db)
  pub of_wallet :
      (db d : Db) → d.users ≡ db.users → d.wallet_transactions ≡ db.wallet_transactions → P db → P d

module _ (P : Db → Type 0) (up : Upheld P) where
  pub release_each-up : (ls : List LosingBid) (db : Db) → P db → P (release_each ls db)
  unfolding release_each
  release_each-up [] db h = h
  release_each-up (l ∷ ls) db h =
      release_each-up ls (released l.user_id l.bid_price l.id db)
        (up.by_release l.user_id l.bid_price l.id db h)

  pub release_all-up :
      (ls : List LosingBid) (db d : Db) → P db → release_all ls db ≡ ok (tt, d) → P d
  release_all-up ls db d h e =
      let same : release_each ls db ≡ d = cc (release_all-release_each ls db) in
      subst P same (release_each-up ls db h)

  bids-up : (bs : List Bid) (db : Db) → P db → P (record db { bids = bs })
  bids-up bs db h = up.of_wallet db (record db { bids = bs }) refl refl h

  orders-up : (os : List Order) (db : Db) → P db → P (record db { orders = os })
  orders-up os db h = up.of_wallet db (record db { orders = os }) refl refl h

  drop_winner-up :
      (w : Bool) (b : Option Bid) (now : ℕ) (db d : Db)
      → P db
      → drop_winner w b now db ≡ ok (tt, d)
      → P d
  unfolding bid_disqualify
  drop_winner-up true (some b) now db d h e =
      let bs = update (λ x. x.id) b.id (disqualify now) db.bids in
      let db1 : Db = record db { bids = bs } in
      let same : released b.user_id b.bid_price b.id db1 ≡ d =
        cc (release_bid_hold-released b.user_id b.bid_price b.id db1) in
      subst P same (up.by_release b.user_id b.bid_price b.id db1 (bids-up bs db h))
  drop_winner-up true none now db d h e = subst P (cc) h
  drop_winner-up false b now db d h e = subst P (cc) h

  pub auction_update-up :
      (id : ℕ) (f : Auction → Auction) (r : Option Auction) (db d : Db)
      → P db
      → auction_update id f db ≡ ok (r, d)
      → P d
  auction_update-up id f r db d h e = elim (auction_update-auctions id f db) [
    | inl throws ↦ absurd (clash (sym throws ∙ e))
    | inr (x, xs, writes) ↦
        let same : record db { auctions = xs } ≡ d = cc in
        subst P same (up.of_wallet db (record db { auctions = xs }) refl refl h)
  ]

  reopen_with-up :
      (now : ℕ) (o : Order) (a : Auction) (bids : List Bid) (db d : Db)
      → P db
      → reopen_with now o a bids db ≡ ok (tt, d)
      → P d
  reopen_with-up now o a bids db d h e =
      let winning = is_auction_winner (first_bid bids) o.buyer_user_id o.final_price in
      let f = reopened_auction now (baseline_price winning bids a.start_price) in
      let (_, d1, e1, k1) = >>=-eq-ok (drop_winner winning (first_bid bids) now) _ {db = db} e in
      let (r, d2, e2, k2) = >>=-eq-ok (auction_update o.auction_id f) _ {db = d1} k1 in
      let same : d2 ≡ d = cc in
      subst P same (
        auction_update-up o.auction_id f r d1 d2
          (drop_winner-up winning (first_bid bids) now db d1 h e1) e2)

  pub cancel_and_reopen-up :
      (reason : String) (now : ℕ) (o : Order) (db d : Db)
      → P db
      → cancel_and_reopen reason now o db ≡ ok (tt, d)
      → P d
  cancel_and_reopen-up reason now o db d h e = elim (cancel_and_reopen_cases reason now o db d e) [
    | inl (same, _) ↦ subst P (sym same) h
    | inr (a, p, _, _, _, _, k) ↦
        let os = update (λ x. x.id) o.id (cancelled_order reason) db.orders in
        reopen_with-up now o a (active_bids o.auction_id db.bids) (record db { orders = os }) d
          (orders-up os db h) k
  ]

  dropped-up : (bs : List Bid) (now : ℕ) (db : Db) → P db → P (dropped bs now db)
  unfolding dropped
  dropped-up [] now db h = h
  dropped-up (b ∷ bs) now db h =
      dropped-up bs now _ (up.by_release b.user_id b.bid_price b.id _ (bids-up _ db h))

  drop_all-up : (bs : List Bid) (now : ℕ) (db d : Db) → P db → drop_all bs now db ≡ ok (tt, d) → P d
  drop_all-up bs now db d h e =
      let same : dropped bs now db ≡ d = cc (drop_all-dropped bs now db) in
      subst P same (dropped-up bs now db h)

  return_bids-up :
      (auction_id now : ℕ) (db d : Db) → P db → return_bids auction_id now db ≡ ok (tt, d) → P d
  unfolding auction_find auction_bids
  return_bids-up auction_id now db d h e =
      ground
        (arith, drop_all-up (active_bids auction_id db.bids) now db d h, drop_all-up [] now db d h)

  charge_buyer-up :
      (w : Bool) (order_id auction_id u price now : ℕ) (db d : Db)
      → P db
      → charge_buyer w order_id auction_id u price now db ≡ ok (tt, d)
      → P d
  charge_buyer-up true order_id auction_id u price now db d h e =
      up.by_convert u price order_id db d h e
  charge_buyer-up false order_id auction_id u price now db d h e =
      let (paid, db1, e1, k) = >>=-eq-ok (pay u price order_id) _ {db = db} e in
      let h1 = up.by_pay u price order_id paid db db1 h e1 in
      elim (Bool-cases paid) [
        | inl enough ↦ return_bids-up auction_id now db1 d h1 (rw enough at k)
        | inr short ↦ absurd (clash (rw short at k))
      ]

  settle_order-up :
      (row : OrderPayRow) (r : Order) (db d : Db) → P db → settle_order row db ≡ ok (r, d) → P d
  unfolding order_find_or_throw
  settle_order-up row r db d h e =
      let settle = settle_seller row.seller_user_id row.order.final_price row.order.id in
      let (_, db1, e1, k) = >>=-eq-ok settle (λ _. order_find_or_throw row.order.id) {db = db} e in
      let h1 = up.by_settle row.seller_user_id row.order.final_price row.order.id db db1 h e1 in
      let same : db1 ≡ d = ground arith in subst P same h1

  pub pay_order_tx-up :
      (row : OrderPayRow) (w : Bool) (u now : ℕ) (r : Order) (db d : Db)
      → P db
      → pay_order_tx row w u now db ≡ ok (r, d)
      → P d
  unfolding pay_order_tx
  pay_order_tx-up row w u now r db d h e =
      let id = row.order.id in
      let charge = charge_buyer w id row.order.auction_id u row.order.final_price now in
      let (n, db1, e1, k) =
        >>=-eq-ok (order_update_pending id (paid_order now)) (after_claim row w u now) {db = db}
          e in
      elim (Bool-cases (n == 0)) [
        | inl lost ↦ absurd (clash (rw lost at k))
        | inr won ↦
            let (_, _, _, claimed) = claim_cases id (paid_order now) n db db1 e1 won in
            let (_, db2, e2, k2) =
              >>=-eq-ok charge (λ _. settle_order row) {db = db1} (rw won at k) in
            settle_order-up row r db2 d
              (charge_buyer-up w id row.order.auction_id u row.order.final_price now db1 db2
                (rw claimed (orders-up _ db h)) e2)
              k2
      ]
