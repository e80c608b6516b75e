-- ===== src/Orders/Retry.antt =====
-- Finalizing a closing while the database can be reached or not, and the run that tries again.
use sneakerbid.Base.{
  ℕ, Bool, true, false, Option, none, some, List, [], ◌∷◌, ◌≡◌, refl, ltb, ◌∙◌, ap, subst,
  Bool-cases, inl, inr,
}
use sneakerbid.Store.Rows.{Auction, Db}
use sneakerbid.Store.Table.{find, update, find-update_self}
use sneakerbid.Store.Tx.{ok, err, Error, transaction}
use sneakerbid.Store.Client.{auction_update, auction_check}
use sneakerbid.Store.Laws.{auction_update-auctions, auction_update-written}
use sneakerbid.Service.{World, if_reached, attempt, in_transaction, HistoryItem}
use sneakerbid.Orders.Payload.{
  CloseResult, LosingBid, close_result_to_db_payload, parse_close_result-payload,
}
use sneakerbid.Orders.Finalize.{
  Weather, PendingRow, finalize_auction_close, safe_finalize_auction_close,
  process_pending_post_close_finalizes, clear_post_close_finalize_payload,
  persist_post_close_finalize_payload, set_payload, announce, release_losers, clear_or_log,
}
use sneakerbid.Orders.Releases.{release_each, released, releases, release_all-release_each}

-- Two databases agree on the users and the ledger.
abbrev pub SameWallet : Db → Db → Type 0
SameWallet d d' = (d'.users ≡ d.users) × (d'.wallet_transactions ≡ d.wallet_transactions)

-- The releases do not look at the auctions.
release_each-auctions :
    (ls : List LosingBid) (xs : List Auction) (db : Db)
    → release_each ls (record db { auctions = xs }) ≡ record (release_each ls db) { auctions = xs }
unfolding release_each released
release_each-auctions [] xs db = refl
release_each-auctions (l ∷ ls) xs db =
    ap (release_each ls) (released-auctions l.user_id l.bid_price l.id xs db)
    ∙ release_each-auctions ls xs (released l.user_id l.bid_price l.id db)
  where
    released-auctions :
        (u n b : ℕ) (ys : List Auction) (d : Db)
        → released u n b (record d { auctions = ys }) ≡ record (released u n b d) { auctions = ys }
    released-auctions u n b ys d = elim (Bool-cases (ltb 0 (releases b d))) [
      | inl t ↦ rw t refl
      | inr t ↦ rw t refl
    ]

-- Writing a payload touches auctions alone, whether it succeeds or not.
write_payload-auctions :
    (b : Bool) (id : ℕ) (f : Auction → Auction) (w : World)
    → (xs : List Auction) × (attempt (if_reached b (in_transaction (auction_update id f)) w)
        ≡ record w { db = record w.db { auctions = xs } })
unfolding transaction
write_payload-auctions false id f w = (w.db.auctions, refl)
write_payload-auctions true id f w = elim (auction_update-auctions id f w.db) [
  | inl e ↦ (w.db.auctions, rw e refl)
  | inr (x, xs, e) ↦ (xs, rw e refl)
]

clear_or_log-SameWallet :
    (b : Bool) (id : ℕ) (w : World)
    → let (res, w') = clear_or_log b id w in (res ≡ ok tt) × SameWallet w.db w'.db
unfolding clear_post_close_finalize_payload
clear_or_log-SameWallet b id w =
    let (xs, e) = write_payload-auctions b id (set_payload none) w in (refl, (rw e refl, rw e refl))

announce-SameWallet :
    (b : Bool) (item : Option HistoryItem) (winner : Option ℕ) (r : CloseResult) (w : World)
    → let (res, w') = announce b item winner r w in (res ≡ ok tt) × SameWallet w.db w'.db
announce-SameWallet b none none r w = clear_or_log-SameWallet b r.auction_id _
announce-SameWallet b none (some u) r w = clear_or_log-SameWallet b r.auction_id _
announce-SameWallet b (some item) none r w = clear_or_log-SameWallet b r.auction_id _
announce-SameWallet b (some item) (some u) r w = clear_or_log-SameWallet b r.auction_id _

release_losers-release_each :
    (ls : List LosingBid) (w : World)
    → release_losers true ls w ≡ (ok tt, record w { db = release_each ls w.db })
unfolding transaction release_each
release_losers-release_each [] w = refl
release_losers-release_each (l ∷ ls) w = rw (release_all-release_each (l ∷ ls) w.db) refl

-- When the database can be reached for the reads and the releases, finalizing succeeds with the
-- losers' holds released.
pub finalize_auction_close-released :
    (weather : Weather) (r : CloseResult) (w : World)
    → weather.history_reached ≡ true
    → weather.release_reached ≡ true
    → let (res, w') = finalize_auction_close weather r w in
      (res ≡ ok tt) × SameWallet (release_each r.losing_bids w.db) w'.db
unfolding finalize_auction_close
finalize_auction_close-released weather r w history release =
    rw (history, release)
      (rw (release_losers-release_each r.losing_bids w)
        (announce-SameWallet weather.clear_reached _ r.winner_user_id r _))

set_payload-release_each :
    (ls : List LosingBid) (xs : List Auction) (d d' : Db)
    → SameWallet (release_each ls (record d { auctions = xs })) d'
    → SameWallet (release_each ls d) d'
set_payload-release_each ls xs d d' h =
    subst (λ e. SameWallet e d') (release_each-auctions ls xs d) h

-- The row that a later run finds of a closing whose result is stored.
abbrev pub row_of : Weather → CloseResult → PendingRow
row_of weather r = record {
  id = r.auction_id;
  payload = close_result_to_db_payload r;
  weather = weather;
}

process_pending-one :
    (weather : Weather) (r : CloseResult) (w : World)
    → weather.history_reached ≡ true
    → weather.release_reached ≡ true
    → let (res, w') = process_pending_post_close_finalizes (row_of weather r ∷ []) w in
      (res ≡ ok tt) × SameWallet (release_each r.losing_bids w.db) w'.db
unfolding process_pending_post_close_finalizes
process_pending-one weather r w history release =
    rw (parse_close_result-payload r)
      (refl, (finalize_auction_close-released weather r w history release).1)

release_losers-unreached :
    (b : Bool) (r : CloseResult) (l : LosingBid) (ls : List LosingBid) (w : World)
    → r.losing_bids ≡ l ∷ ls
    → b ≡ false
    → release_losers b r.losing_bids w ≡ (err Error.lost_connection, w)
release_losers-unreached b r l ls w losers e = ap (λ xs. release_losers b xs w) losers ∙ rw e refl

finalize_auction_close-unreached :
    (weather : Weather) (r : CloseResult) (l : LosingBid) (ls : List LosingBid) (w : World)
    → r.losing_bids ≡ l ∷ ls
    → weather.release_reached ≡ false
    → finalize_auction_close weather r w ≡ (err Error.lost_connection, w)
unfolding finalize_auction_close
finalize_auction_close-unreached weather r l ls w losers release =
    elim (Bool-cases weather.history_reached) [
      | inl t ↦
          rw (t, release_losers-unreached weather.release_reached r l ls w losers release) refl
      | inr f ↦ rw f refl
    ]

safe_finalize-persisted :
    (weather : Weather) (r : CloseResult) (l : LosingBid) (ls : List LosingBid) (a : Auction)
    (w : World)
    → find (λ x. x.id) r.auction_id w.db.auctions ≡ some a
    → auction_check (set_payload (some (close_result_to_db_payload r)) a) ≡ true
    → r.losing_bids ≡ l ∷ ls
    → weather.release_reached ≡ false
    → weather.persist_reached ≡ true
    → safe_finalize_auction_close weather r w ≡ (
      ok tt,
      record w {
        db = record w.db {
          auctions =
              update
                (λ x. x.id)
                r.auction_id
                (set_payload (some (close_result_to_db_payload r)))
                w.db.auctions;
        };
      },
    )
unfolding safe_finalize_auction_close persist_post_close_finalize_payload transaction
safe_finalize-persisted weather r l ls a w found holds losers release persist =
    rw (finalize_auction_close-unreached weather r l ls w losers release, persist)
      (rw
        (auction_update-written r.auction_id (set_payload (some (close_result_to_db_payload r))) a
          w.db found holds)
        refl)

-- When the releases of a closing with losers fail, the result is stored in the auction's row, if the
-- database can be reached for that and the row is there and meets the constraints; and a later run
-- that finds it and reaches the database releases each loser's hold.
pub safe_finalize-process_pending :
    (bad good : Weather) (r : CloseResult) (l : LosingBid) (ls : List LosingBid) (a : Auction)
    (w : World)
    → find (λ x. x.id) r.auction_id w.db.auctions ≡ some a
    → auction_check (set_payload (some (close_result_to_db_payload r)) a) ≡ true
    → r.losing_bids ≡ l ∷ ls
    → bad.release_reached ≡ false
    → bad.persist_reached ≡ true
    → good.history_reached ≡ true
    → good.release_reached ≡ true
    → let (res, w1) = safe_finalize_auction_close bad r w in
      let (res', w2) = process_pending_post_close_finalizes (row_of good r ∷ []) w1 in
      (res ≡ ok tt)
      × (find (λ x. x.id) r.auction_id w1.db.auctions
          ≡ some (set_payload (some (close_result_to_db_payload r)) a))
      × (res' ≡ ok tt)
      × SameWallet (release_each r.losing_bids w.db) w2.db
safe_finalize-process_pending bad good r l ls a w found holds losers release persist history again =
    let p = set_payload (some (close_result_to_db_payload r)) in
    let xs = update (λ x. x.id) r.auction_id p w.db.auctions in
    let w1 : World = record w { db = record w.db { auctions = xs } } in
    let (returns, same) = process_pending-one good r w1 history again in
    rw (safe_finalize-persisted bad r l ls a w found holds losers release persist) (
      refl,
      find-update_self (λ x. x.id) p (λ x. refl) r.auction_id w.db.auctions a found,
      returns,
      set_payload-release_each r.losing_bids xs w.db
          (process_pending_post_close_finalizes (row_of good r ∷ []) w1).1.db same,
    )
