-- ===== src/System/Keeping.antt =====
-- What a transaction keeps.
use sneakerbid.Base.{ℕ, Option, none, some, ◌≡◌, ap, subst, sym}
use sneakerbid.Store.Rows.{User, Auction, Db, BidSourceType}
use sneakerbid.Store.Tx.{ok}
use sneakerbid.Store.Lock.{LockOptions}
use sneakerbid.Auctions.{place_bid_as_bot_tx}
use sneakerbid.Auctions.Bidding.{Allowed, bid_taken, place_bid_tx-ok, place_bid_as_bot_tx-ok}
use sneakerbid.Auctions.Patching.{create_auction-ok}
use sneakerbid.Auctions.Deletion.{delete_auction-ok}
use sneakerbid.Orders.{execute_close_in_transaction}
use sneakerbid.Orders.Payload.{CloseResult}
use sneakerbid.Orders.Finalize.{set_payload}
use sneakerbid.Orders.Closing.{execute_close-IsClosing, execute_close-none}
use sneakerbid.Orders.Buying.{buy_now_tx-ok}
use sneakerbid.Orders.Upheld.{
  Upheld, release_all-up, auction_update-up, cancel_and_reopen-up, pay_order_tx-up,
}
use sneakerbid.System.{
  Step, bid, bot_bid, close, release, store_payload, cancel, pay_order, buy_now, create, patch,
  delete, relist, top_up,
}
use sneakerbid.Bots.TopUp.{increment_user_balance}
use sneakerbid.System.Effects.{place_bid_as_bot_tx-none, patch_tx-kept, insert_after_bot_win-kept}

module _ (P : Db → Type 0) (up : Upheld P)
    (by_bid : (bid_id auction_id price user_id now : ℕ) (source : BidSourceType)
        (strategy : Option ℕ) (a : Auction) (u : User) (db : Db)
      → Allowed auction_id price user_id now a u db
      → P db
      → P (bid_taken bid_id auction_id price user_id now source strategy db))
    (by_top_up : (u n : ℕ) (db : Db) → P db → P (increment_user_balance u n db)) where
  bot_bid-up :
      (bid_id auction_id price user_id strategy now : ℕ) (l : Option (Option ℕ)) (db d : Db)
      → P db
      → place_bid_as_bot_tx bid_id auction_id price user_id strategy now db ≡ ok (l, d)
      → P d
  bot_bid-up bid_id auction_id price user_id strategy now none db d h e =
      let same = place_bid_as_bot_tx-none bid_id auction_id price user_id strategy now db d e in
      up.of_wallet db d (ap (λ (x : Db). x.users) same)
        (ap (λ (x : Db). x.wallet_transactions) same) h
  bot_bid-up bid_id auction_id price user_id strategy now (some l) db d h e =
      let (a, u, allowed, _, after) =
        place_bid_as_bot_tx-ok bid_id auction_id price user_id strategy now l db d e in
      subst P (sym after) (
        by_bid bid_id auction_id price user_id now BidSourceType.from_bot (some strategy) a u db
          allowed h)

  close-up :
      (order_id auction_id now : ℕ) (o : LockOptions) (r : Option CloseResult) (db d : Db)
      → P db
      → execute_close_in_transaction order_id auction_id o now db ≡ ok (r, d)
      → P d
  close-up order_id auction_id now o none db d h e =
      subst P (sym (execute_close-none order_id auction_id now o db d e)) h
  close-up order_id auction_id now o (some r) db d h e =
      let c = execute_close-IsClosing order_id auction_id now o r db d e in
      up.of_wallet db d c.same_users c.same_ledger h

  -- A step keeps what every write of the wallet keeps.
  pub Step-up : (db d : Db) → Step db d → P db → P d
  Step-up db d (bid bid_id auction_id price user_id now l e) h =
      let (a, u, allowed, _, after) =
        place_bid_tx-ok bid_id auction_id price user_id now l db d e in
      subst P (sym after)
        (by_bid bid_id auction_id price user_id now BidSourceType.from_user none a u db allowed h)
  Step-up db d (bot_bid bid_id auction_id price user_id strategy now l e) h =
      bot_bid-up bid_id auction_id price user_id strategy now l db d h e
  Step-up db d (close order_id auction_id now o r fresh e) h =
      close-up order_id auction_id now o r db d h e
  Step-up db d (release ls e) h = release_all-up P up ls db d h e
  Step-up db d (store_payload auction_id p r e) h =
      auction_update-up P up auction_id (set_payload p) r db d h e
  Step-up db d (cancel reason now o e) h = cancel_and_reopen-up P up reason now o db d h e
  Step-up db d (pay_order row w user_id now o e) h =
      pay_order_tx-up P up row w user_id now o db d h e
  Step-up db d (buy_now order_id auction_id price user_id now o fresh e) h =
      let (_, _, _, _, _, _, after) =
        buy_now_tx-ok order_id auction_id price user_id now o db d e in
      up.of_wallet db d (ap (λ (x : Db). x.users) after)
        (ap (λ (x : Db). x.wallet_transactions) after) h
  Step-up db d (create auction_id sneaker_id user_id now dto a e) h =
      let (_, _, _, _, _, _, _, _, after) =
        create_auction-ok auction_id sneaker_id user_id now dto a db d e in
      up.of_wallet db d (ap (λ (x : Db). x.users) after)
        (ap (λ (x : Db). x.wallet_transactions) after) h
  Step-up db d (patch a dto now r e) h =
      let ((users, ledger), _) = patch_tx-kept a dto now r db d e in
      up.of_wallet db d users ledger h
  Step-up db d (delete auction_id user e) h =
      let (_, _, _, _, _, _, _, _, users, ledger) = delete_auction-ok auction_id user db d e in
      up.of_wallet db d users ledger h
  Step-up db d (relist id winner end_time a inserted e) h =
      let ((users, ledger), _) = insert_after_bot_win-kept id winner end_time a inserted db d e in
      up.of_wallet db d users ledger h
  Step-up db d (top_up u n e) h = subst P (sym e) (by_top_up u n db h)
