-- ===== src/Wallet/Wealth.antt =====
-- The total that a user is shown, `balance + heldInBids`, under the operations of the wallet.
use sneakerbid.Base.{
  ℕ, ◌+◌, true, false, some, List, [], ◌∷◌, ◌≡◌, refl, arith, ◌==◌, ◌&&◌, ltb, if◌then◌else◌, any,
  filter_by, length, Option-cases, inl, inr,
}
use sneakerbid.Base.Int.{pos, ◌+ℤ◌, ◌-ℤ◌, ◌≤ℤ◌, int_laws}
use sneakerbid.Store.Rows.{User, Db, WalletTransaction, is_bid_hold}
use sneakerbid.Store.Table.{find, find-update_self}
use sneakerbid.Store.Tx.{ok}
use sneakerbid.Wallet.{hold_for_bid, release_bid_hold, pay, convert_hold_to_payment, releases_bid}
use sneakerbid.Wallet.Held.{sum_active_bid_hold_amount, sum_holds, abs, wallet_view}

-- An entry that releases nothing leaves the other holds as they are.
pub sum_holds-cons :
    (u : ℕ) (t : WalletTransaction) (all xs : List WalletTransaction)
    → ((b : ℕ) → releases_bid b t ≡ false)
    → sum_holds u (t ∷ all) xs ≡ sum_holds u all xs
sum_holds-cons u t all [] h = refl
sum_holds-cons u t all (x ∷ xs) h = ground (arith, h x.ref_id, sum_holds-cons u t all xs h)

-- The holds of a user for one bid.
abbrev pub holds_for : ℕ → ℕ → List WalletTransaction → ℕ
holds_for u b [] = 0
holds_for u b (t ∷ ts) =
    (if t.user_id == u && is_bid_hold t.type && t.ref_id == b then abs t.amount else 0)
    + holds_for u b ts

-- A first release of a bid takes its holds out of the sum.
pub sum_holds-release :
    (u b : ℕ) (t : WalletTransaction) (all xs : List WalletTransaction)
    → ((c : ℕ) → releases_bid c t ≡ (b == c))
    → any (releases_bid b) all ≡ false
    → sum_holds u (t ∷ all) xs + holds_for u b xs ≡ sum_holds u all xs
sum_holds-release u b t all [] h n = omega arith
sum_holds-release u b t all (x ∷ xs) h n =
    ground (arith, h x.ref_id, sum_holds-release u b t all xs h n)

any-length :
    (b : ℕ) (ts : List WalletTransaction)
    → ltb 0 (length (filter_by (releases_bid b) ts)) ≡ any (releases_bid b) ts
any-length b [] = refl
any-length b (t ∷ ts) = ground (arith, any-length b ts)

-- When money is held for a bid that no release names, the balance covered it, it moves from the
-- balance into the held amount, and the total stays.
pub wallet_view-hold_for_bid :
    (u n b : ℕ) (db db' : Db)
    → any (releases_bid b) db.wallet_transactions ≡ false
    → hold_for_bid u n b db ≡ ok (true, db')
    → (pos n ≤ℤ (wallet_view u db).balance)
      × ((wallet_view u db').balance ≡ (wallet_view u db).balance -ℤ pos n)
      × ((wallet_view u db').held_in_bids ≡ (wallet_view u db).held_in_bids + n)
      × ((wallet_view u db').total_balance ≡ (wallet_view u db).total_balance)
unfolding hold_for_bid wallet_view sum_active_bid_hold_amount
wallet_view-hold_for_bid u n b db db' fresh h = elim (Option-cases (find (λ x. x.id) u db.users)) [
  | inl missing ↦ ground arith
  | inr (x, e) ↦ grind (
    int_laws,
    find-update_self (λ y. y.id) (λ y. record y { balance = y.balance -ℤ pos n }) (λ y. refl) u
        db.users x e,
    sum_holds-cons u _ db.wallet_transactions db.wallet_transactions,
  )
]

-- Releasing a bid for the first time, for a user who is there and at the amount that the user holds for
-- it, moves that amount from the held amount back into the balance, and the total stays.
pub wallet_view-release_bid_hold :
    (u n b : ℕ) (x : User) (db db' : Db)
    → find (λ y. y.id) u db.users ≡ some x
    → holds_for u b db.wallet_transactions ≡ n
    → any (releases_bid b) db.wallet_transactions ≡ false
    → release_bid_hold u n b db ≡ ok (tt, db')
    → ((wallet_view u db').balance ≡ (wallet_view u db).balance +ℤ pos n)
      × ((wallet_view u db').held_in_bids + n ≡ (wallet_view u db).held_in_bids)
      × ((wallet_view u db').total_balance ≡ (wallet_view u db).total_balance)
unfolding release_bid_hold wallet_view sum_active_bid_hold_amount
wallet_view-release_bid_hold u n b x db db' e held fresh h = grind (
  int_laws,
  any-length b db.wallet_transactions,
  find-update_self (λ y. y.id) (λ y. record y { balance = y.balance +ℤ pos n }) (λ y. refl) u
      db.users x e,
  sum_holds-release u b _ db.wallet_transactions db.wallet_transactions,
)

-- When paying from the balance succeeds, the balance covered the price; the held amount stays, and the
-- total falls by the price.
pub wallet_view-pay :
    (u n o : ℕ) (db db' : Db)
    → pay u n o db ≡ ok (true, db')
    → (pos n ≤ℤ (wallet_view u db).balance)
      × ((wallet_view u db').held_in_bids ≡ (wallet_view u db).held_in_bids)
      × ((wallet_view u db').total_balance ≡ (wallet_view u db).total_balance -ℤ pos n)
unfolding pay wallet_view sum_active_bid_hold_amount
wallet_view-pay u n o db db' h = elim (Option-cases (find (λ x. x.id) u db.users)) [
  | inl missing ↦ ground arith
  | inr (x, e) ↦ grind (
    int_laws,
    find-update_self (λ y. y.id) (λ y. record y { balance = y.balance -ℤ pos n }) (λ y. refl) u
        db.users x e,
    sum_holds-cons u _ db.wallet_transactions db.wallet_transactions,
  )
]

-- Paying with a hold, whatever the price, leaves the wallet that each user is shown as it was: the
-- hold still counts into the held amount and the total.
pub wallet_view-convert_hold_to_payment :
    (u n o v : ℕ) (db db' : Db)
    → convert_hold_to_payment u n o db ≡ ok (tt, db')
    → wallet_view v db' ≡ wallet_view v db
unfolding convert_hold_to_payment wallet_view sum_active_bid_hold_amount
wallet_view-convert_hold_to_payment u n o v db db' h =
    grind (arith, sum_holds-cons v _ db.wallet_transactions db.wallet_transactions)
