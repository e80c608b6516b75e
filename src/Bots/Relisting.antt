-- ===== src/Bots/Relisting.antt =====
-- The relisting of what bots won.
use sneakerbid.Base.{ℕ, ◌+◌, ◌*◌, true, Option, none, some, List, [], ◌∷◌, ◌≡◌, refl, arith, All}
use sneakerbid.Store.Rows.{Auction, Db}
use sneakerbid.Store.Tx.{ok}
use sneakerbid.Store.Client.{auction_check}
use sneakerbid.Store.Laws.{>>=-eq-ok}
use sneakerbid.Bots.{
  relist_bot_won_auctions, relist_won, insert_after_bot_win, is_relisted, relisted_auction,
  relist_auction_duration_sec,
}

-- The row was relisted, or nobody won it.
abbrev Settled : Db → ℕ × Auction → Type 0
Settled db (_, a) =
    (w : ℕ)
    → a.winner_user_id ≡ some w
    → (is_relisted a.id db.auctions ≡ true) × (auction_check (relisted_auction 0 w 0 a) ≡ true)

relist_won_mono :
    (id t x : ℕ) (w : Option ℕ) (a : Auction) (db db' : Db)
    → relist_won id w t a db ≡ ok (tt, db')
    → is_relisted x db.auctions ≡ true
    → is_relisted x db'.auctions ≡ true
unfolding insert_after_bot_win
relist_won_mono id t x none a db db' h p = ground arith
relist_won_mono id t x (some w) a db db' h p = ground arith

relist_won-Settled :
    (id t : ℕ) (w : Option ℕ) (v : ℕ) (a : Auction) (db db' : Db)
    → relist_won id w t a db ≡ ok (tt, db')
    → w ≡ some v
    → (is_relisted a.id db'.auctions ≡ true) × (auction_check (relisted_auction 0 v 0 a) ≡ true)
unfolding insert_after_bot_win auction_check
relist_won-Settled id t none v a db db' h e = cc
relist_won-Settled id t (some w) v a db db' h e = (ground arith, ground arith)

relist_won-idle :
    (id t : ℕ) (w : Option ℕ) (a : Auction) (db : Db)
    → ((v : ℕ)
        → w ≡ some v
        → (is_relisted a.id db.auctions ≡ true) × (auction_check (relisted_auction 0 v 0 a) ≡ true))
    → relist_won id w t a db ≡ ok (tt, db)
unfolding insert_after_bot_win auction_check
relist_won-idle id t none a db h = refl
relist_won-idle id t (some w) a db h = let (x, y) = h w refl in ground arith

relist-split :
    (id now : ℕ) (a : Auction) (rows : List (ℕ × Auction)) (db db' : Db)
    → relist_bot_won_auctions ((id, a) ∷ rows) now db ≡ ok (tt, db')
    → (db1 : Db) × (relist_won id a.winner_user_id (now + relist_auction_duration_sec * 1000) a db
        ≡ ok (tt, db1))
      × (relist_bot_won_auctions rows now db1 ≡ ok (tt, db'))
unfolding relist_bot_won_auctions
relist-split id now a rows db db' h =
    let (_, db1, e, k) =
      >>=-eq-ok (relist_won id a.winner_user_id (now + relist_auction_duration_sec * 1000) a)
        (λ _. relist_bot_won_auctions rows now) {db = db} h in
    (db1, e, k)

relist_mono :
    (rows : List (ℕ × Auction)) (now x : ℕ) (db db' : Db)
    → relist_bot_won_auctions rows now db ≡ ok (tt, db')
    → is_relisted x db.auctions ≡ true
    → is_relisted x db'.auctions ≡ true
unfolding relist_bot_won_auctions
relist_mono [] now x db db' h p = ground arith
relist_mono ((id, a) ∷ rows) now x db db' h p =
    let (db1, e, k) = relist-split id now a rows db db' h in
    relist_mono rows now x db1 db' k (relist_won_mono id _ x a.winner_user_id a db db1 e p)

relist-Settled :
    (rows : List (ℕ × Auction)) (now : ℕ) (db db' : Db)
    → relist_bot_won_auctions rows now db ≡ ok (tt, db')
    → All (Settled db') rows
relist-Settled [] now db db' h = tt
relist-Settled ((id, a) ∷ rows) now db db' h =
    let (db1, e, k) = relist-split id now a rows db db' h in
    (
      λ w won.
          let (listed, holds) = relist_won-Settled id _ a.winner_user_id w a db db1 e won in
          (relist_mono rows now a.id db1 db' k listed, holds),
      relist-Settled rows now db1 db' k,
    )

-- The same auctions, with other ids for the new rows.
abbrev pub renumbered : (ℕ → ℕ) → List (ℕ × Auction) → List (ℕ × Auction)
renumbered f [] = []
renumbered f ((id, a) ∷ rows) = (f id, a) ∷ renumbered f rows

relist-idle :
    (rows : List (ℕ × Auction)) (f : ℕ → ℕ) (now : ℕ) (db : Db)
    → All (Settled db) rows
    → relist_bot_won_auctions (renumbered f rows) now db ≡ ok (tt, db)
unfolding relist_bot_won_auctions
relist-idle [] f now db h = refl
relist-idle ((id, a) ∷ rows) f now db h =
    rw (relist_won-idle (f id) (now + relist_auction_duration_sec * 1000) a.winner_user_id a db h.0)
      (relist-idle rows f now db h.1)

-- When a run over auctions that bots won went through, each of them with a winner has been relisted,
-- and a later run over the same auctions goes through and adds nothing.
pub relist_bot_won_auctions-once :
    (rows : List (ℕ × Auction)) (f : ℕ → ℕ) (now later : ℕ) (db db' : Db)
    → relist_bot_won_auctions rows now db ≡ ok (tt, db')
    → All
        (λ (row : ℕ × Auction).
          (w : ℕ) → row.1.winner_user_id ≡ some w → is_relisted row.1.id db'.auctions ≡ true)
        rows
      × (relist_bot_won_auctions (renumbered f rows) later db' ≡ ok (tt, db'))
relist_bot_won_auctions-once rows f now later db db' h =
    let settled = relist-Settled rows now db db' h in
    (listed rows settled, relist-idle rows f later db' settled)
  where
    listed :
        (xs : List (ℕ × Auction))
        → All (Settled db') xs
        → All
            (λ (row : ℕ × Auction).
              (w : ℕ) → row.1.winner_user_id ≡ some w → is_relisted row.1.id db'.auctions ≡ true)
            xs
    listed [] k = tt
    listed ((id, a) ∷ xs) k = (λ w won. (k.0 w won).0, listed xs k.1)
