-- ===== src/Orders/Releases.antt =====
-- The release of the losers' holds in `finalizeAuctionClose`.
use sneakerbid.Base.{
  ℕ, ◌≤◌, false, some, List, [], ◌∷◌, ◌≡◌, refl, arith, ◌==◌, ltb, if◌then◌else◌, All, filter_by,
  map, length, ◌∙◌, subst, ap,
}
use sneakerbid.Base.Int.{◌+ℤ◌, pos}
use sneakerbid.Store.Rows.{Bid, Db, WalletTxType, WalletRefType}
use sneakerbid.Store.Table.{find, update, find-update_ne}
use sneakerbid.Store.Tx.{ok}
use sneakerbid.Wallet.{release_bid_hold, releases_bid, entry}
use sneakerbid.Orders.Payload.{LosingBid, CloseResult}
use sneakerbid.Store.Lock.{LockOptions}
use sneakerbid.Store.Client.{active_bids}
use sneakerbid.Orders.Closing.{execute_close-IsClosing}
use sneakerbid.Orders.{execute_close_in_transaction, release_all, loses_to, losing_bid}

-- How often the hold of a bid was released.
abbrev pub releases : ℕ → Db → ℕ
releases b db = length (filter_by (releases_bid b) db.wallet_transactions)

-- The database after a release.
unfoldable pub released : ℕ → ℕ → ℕ → Db → Db
released u n b db = if ltb 0 (releases b db) then db else record db {
  users = update (λ x. x.id) u (λ x. record x { balance = x.balance +ℤ pos n }) db.users;
  wallet_transactions =
      entry u (pos n) WalletTxType.bid_release WalletRefType.bid_ref b ∷ db.wallet_transactions;
}

pub release_bid_hold-released :
    (u n b : ℕ) (db : Db) → release_bid_hold u n b db ≡ ok (tt, released u n b db)
unfolding release_bid_hold released
release_bid_hold-released u n b db = ground arith

pub released-orders : (u n b : ℕ) (db : Db) → (released u n b db).orders ≡ db.orders
unfolding released
released-orders u n b db = ground arith

releases-released_self : (u n b : ℕ) (db : Db) → 1 ≤ releases b (released u n b db)
unfolding released
releases-released_self u n b db = ground arith

pub releases-released_once :
    (u n b c : ℕ) (db : Db) → releases c db ≤ 1 → releases c (released u n b db) ≤ 1
unfolding released
releases-released_once u n b c db h = ground arith

releases-released_mono : (u n b c : ℕ) (db : Db) → releases c db ≤ releases c (released u n b db)
unfolding released
releases-released_mono u n b c db = ground arith

released-done : (u n b : ℕ) (db : Db) → 1 ≤ releases b db → released u n b db ≡ db
unfolding released
released-done u n b db h = ground arith

-- The database after the releases of a list of bids.
unfoldable pub release_each : List LosingBid → Db → Db
release_each [] db = db
release_each (l ∷ ls) db = release_each ls (released l.user_id l.bid_price l.id db)

pub release_all-release_each :
    (ls : List LosingBid) (db : Db) → release_all ls db ≡ ok (tt, release_each ls db)
unfolding release_all release_each
release_all-release_each [] db = refl
release_all-release_each (l ∷ ls) db =
    rw (release_bid_hold-released l.user_id l.bid_price l.id db)
      (release_all-release_each ls (released l.user_id l.bid_price l.id db))

releases-release_each_mono :
    (ls : List LosingBid) (c : ℕ) (db : Db) → releases c db ≤ releases c (release_each ls db)
unfolding release_each
releases-release_each_mono [] c db = omega arith
releases-release_each_mono (l ∷ ls) c db = omega (
  arith,
  releases-released_mono l.user_id l.bid_price l.id c db,
  releases-release_each_mono ls c (released l.user_id l.bid_price l.id db),
)

abbrev Done : List LosingBid → Db → Type 0
Done ls db = All (λ (l : LosingBid). 1 ≤ releases l.id db) ls

Done-mono :
    (ls : List LosingBid) (db db' : Db)
    → ((c : ℕ) → releases c db ≤ releases c db')
    → Done ls db
    → Done ls db'
Done-mono [] db db' up d = tt
Done-mono (l ∷ ls) db db' up d = (omega (arith, up l.id), Done-mono ls db db' up d.1)

Done-release_each : (ls : List LosingBid) (db : Db) → Done ls (release_each ls db)
unfolding release_each
Done-release_each [] db = tt
Done-release_each (l ∷ ls) db = (
  omega (
    arith,
    releases-released_self l.user_id l.bid_price l.id db,
    releases-release_each_mono ls l.id (released l.user_id l.bid_price l.id db),
  ),
  Done-release_each ls (released l.user_id l.bid_price l.id db),
)

release_each-Done : (ls : List LosingBid) (db : Db) → Done ls db → release_each ls db ≡ db
unfolding release_each
release_each-Done [] db d = refl
release_each-Done (l ∷ ls) db d =
    rw (released-done l.user_id l.bid_price l.id db d.0) (release_each-Done ls db d.1)

-- Releasing a list of bids again changes nothing.
pub release_each-release_each :
    (ls : List LosingBid) (db : Db) → release_each ls (release_each ls db) ≡ release_each ls db
release_each-release_each ls db =
    release_each-Done ls (release_each ls db) (Done-release_each ls db)

releases-release_each_once :
    (ls : List LosingBid) (c : ℕ) (db : Db)
    → releases c db ≤ 1
    → releases c (release_each ls db) ≤ 1
unfolding release_each
releases-release_each_once [] c db h = h
releases-release_each_once (l ∷ ls) c db h =
    releases-release_each_once ls c (released l.user_id l.bid_price l.id db)
      (releases-released_once l.user_id l.bid_price l.id c db h)

exactly_once :
    (ms : List LosingBid) (db : Db)
    → ((c : ℕ) → releases c db ≤ 1)
    → Done ms db
    → All (λ (l : LosingBid). releases l.id db ≡ 1) ms
exactly_once [] db once d = tt
exactly_once (m ∷ ms) db once d = (omega (arith, once m.id), exactly_once ms db once d.1)

-- The releases of a closing return, and where no hold was released twice before, the hold of each
-- bid of the list has been released once afterwards, and no hold twice; a second run of the
-- releases, as in a retry, changes nothing.
pub release_all_once :
    (ls : List LosingBid) (db : Db)
    → ((c : ℕ) → releases c db ≤ 1)
    → (db' : Db) × (release_all ls db ≡ ok (tt, db'))
      × All (λ (l : LosingBid). releases l.id db' ≡ 1) ls
      × ((c : ℕ) → releases c db' ≤ 1)
      × (release_all ls db' ≡ ok (tt, db'))
release_all_once ls db once =
    let once' = λ (c : ℕ). releases-release_each_once ls c db (once c) in
    (
      release_each ls db,
      release_all-release_each ls db,
      exactly_once ls (release_each ls db) once' (Done-release_each ls db),
      once',
      release_all-release_each ls (release_each ls db) ∙ rw (release_each-release_each ls db) refl,
    )

-- A user outside the list keeps the balance.
released-find :
    (u n b v : ℕ) (db : Db)
    → (v == u) ≡ false
    → find (λ x. x.id) v (released u n b db).users ≡ find (λ x. x.id) v db.users
unfolding released
released-find u n b v db h = ground (
  arith,
  find-update_ne (λ x. x.id) (λ x. record x { balance = x.balance +ℤ pos n }) (λ x. refl) v u
      db.users h,
)

release_each-find :
    (ls : List LosingBid) (v : ℕ) (db : Db)
    → All (λ (l : LosingBid). (v == l.user_id) ≡ false) ls
    → find (λ x. x.id) v (release_each ls db).users ≡ find (λ x. x.id) v db.users
unfolding release_each
release_each-find [] v db h = refl
release_each-find (l ∷ ls) v db h =
    release_each-find ls v (released l.user_id l.bid_price l.id db) h.1
    ∙ released-find l.user_id l.bid_price l.id v db h.0

losers-others :
    (v : ℕ) (bs : List Bid)
    → All
        (λ (l : LosingBid). (v == l.user_id) ≡ false)
        (map losing_bid (filter_by (loses_to (some v)) bs))
losers-others v [] = tt
losers-others v (b ∷ bs) = ground (arith, losers-others v bs)

-- The winner is not among those who get money back, so the holds of the winner's earlier bids stay.
pub release_all-winner :
    (v : ℕ) (bs : List Bid) (db db' : Db)
    → release_all (map losing_bid (filter_by (loses_to (some v)) bs)) db ≡ ok (tt, db')
    → find (λ x. x.id) v db'.users ≡ find (λ x. x.id) v db.users
release_all-winner v bs db db' h =
    let ls = map losing_bid (filter_by (loses_to (some v)) bs) in
    let same : release_each ls db ≡ db' = cc (release_all-release_each ls db) in
    subst (λ (d : Db). find (λ x. x.id) v d.users ≡ find (λ x. x.id) v db.users) same
      (release_each-find ls v db (losers-others v bs))

-- When an auction was closed with a winner and the losers' holds were released, the winner's account
-- is as before the closing: nothing that the winner holds for earlier bids on it comes back.
pub winner_gets_nothing_back :
    (order_id auction_id now v : ℕ) (o : LockOptions) (r : CloseResult) (db db' db'' : Db)
    → execute_close_in_transaction order_id auction_id o now db ≡ ok (some r, db')
    → r.winner_user_id ≡ some v
    → release_all r.losing_bids db' ≡ ok (tt, db'')
    → find (λ x. x.id) v db''.users ≡ find (λ x. x.id) v db.users
winner_gets_nothing_back order_id auction_id now v o r db db' db'' h won rel =
    let c = execute_close-IsClosing order_id auction_id now o r db db' h in
    let losers : r.losing_bids
        ≡ map losing_bid (filter_by (loses_to (some v)) (active_bids auction_id db.bids)) =
      rw (← won) c.losers in
    release_all-winner v (active_bids auction_id db.bids) db' db'' (rw (← losers) rel)
    ∙ ap (find (λ x. x.id) v) c.same_users
