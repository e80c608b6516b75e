-- ===== src/Wallet/Balances.antt =====
-- What the operations of the wallet do to balances and to the ledger.
use sneakerbid.Base.{ℕ, true, List, [], ◌∷◌, ◌≡◌, arith, All}
use sneakerbid.Base.Int.{pos, ◌+ℤ◌, ◌-ℤ◌, ◌≤ℤ◌, int_laws}
use sneakerbid.Store.Rows.{User, Db}
use sneakerbid.Store.Table.{find, update}
use sneakerbid.Store.Tx.{Result, ok, err, ◌>>◌}
use sneakerbid.Wallet.{hold_for_bid, release_bid_hold, pay, settle_seller, covers}

-- No user owes money.
abbrev pub Solvent : List User → Type 0
Solvent us = All (λ (u : User). pos 0 ≤ℤ u.balance) us

pub Solvent-increment :
    (id n : ℕ) (us : List User)
    → Solvent us
    → Solvent (update (λ u. u.id) id (λ u. record u { balance = u.balance +ℤ pos n }) us)
Solvent-increment id n [] h = tt
Solvent-increment id n (u ∷ us) h = grind (int_laws, Solvent-increment id n us h.1)

pub Solvent-decrement :
    (id n : ℕ) (us : List User)
    → Solvent us
    → covers (find (λ u. u.id) id us) n ≡ true
    → Solvent (update (λ u. u.id) id (λ u. record u { balance = u.balance -ℤ pos n }) us)
Solvent-decrement id n [] h c = tt
Solvent-decrement id n (u ∷ us) h c = grind (int_laws, Solvent-decrement id n us h.1)

-- The property of the database that a transaction reaches.
abbrev pub Reaches : {A : Type 0} → (Db → Type 0) → Result (A × Db) → Type 0
Reaches P (ok (_, db)) = P db
Reaches P (err _) = Unit

abbrev pub SolventDb : Db → Type 0
SolventDb db = Solvent db.users

pub hold_for_bid-Solvent :
    (u n b : ℕ) (db : Db) → Solvent db.users → Reaches SolventDb (hold_for_bid u n b db)
unfolding hold_for_bid
hold_for_bid-Solvent u n b db h = ground (arith, Solvent-decrement u n db.users h)

pub pay-Solvent : (u n o : ℕ) (db : Db) → Solvent db.users → Reaches SolventDb (pay u n o db)
unfolding pay
pay-Solvent u n o db h = ground (arith, Solvent-decrement u n db.users h)

pub release_bid_hold-Solvent :
    (u n b : ℕ) (db : Db) → Solvent db.users → Reaches SolventDb (release_bid_hold u n b db)
unfolding release_bid_hold
release_bid_hold-Solvent u n b db h = ground (arith, Solvent-increment u n db.users h)

pub settle_seller-Solvent :
    (u n o : ℕ) (db : Db) → Solvent db.users → Reaches SolventDb (settle_seller u n o db)
unfolding settle_seller
settle_seller-Solvent u n o db h = ground (arith, Solvent-increment u n db.users h)

-- A second release of a bid's hold, whatever user and amount it names, changes nothing.
pub release_bid_hold-release_bid_hold :
    (u n v m b : ℕ) (db : Db)
    → (release_bid_hold u n b >> release_bid_hold v m b) db ≡ release_bid_hold u n b db
unfolding release_bid_hold
release_bid_hold-release_bid_hold u n v m b db = ground arith
