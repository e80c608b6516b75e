-- ===== src/Wallet/Held.antt =====
-- `sumActiveBidHoldAmount` of backend/src/database/repositories/wallet.repository.ts, and the wallet
-- that `getMeWithStats` of backend/src/users/users.service.ts shows.
use sneakerbid.Base.{ℕ, ◌+◌, Bool, List, [], ◌∷◌, ◌&&◌, ◌==◌, if◌then◌else◌, any, not, none, some}
use sneakerbid.Base.Int.{ℤ, pos, ◌+ℤ◌, pos_part, neg_part}
use sneakerbid.Store.Rows.{WalletTransaction, Db, is_bid_hold}
use sneakerbid.Store.Table.{find}
use sneakerbid.Wallet.{releases_bid}

-- `ABS(wt.amount)`
abbrev pub abs : ℤ → ℕ
abs z = pos_part z + neg_part z

-- A hold of the user that no release names.
abbrev pub is_active_hold : ℕ → List WalletTransaction → WalletTransaction → Bool
is_active_hold user_id all t =
    t.user_id == user_id && is_bid_hold t.type && not (any (releases_bid t.ref_id) all)

abbrev pub sum_holds : ℕ → List WalletTransaction → List WalletTransaction → ℕ
sum_holds user_id all [] = 0
sum_holds user_id all (t ∷ ts) =
    (if is_active_hold user_id all t then abs t.amount else 0) + sum_holds user_id all ts

unfoldable pub sum_active_bid_hold_amount : ℕ → Db → ℕ
sum_active_bid_hold_amount user_id db =
    sum_holds user_id db.wallet_transactions db.wallet_transactions

pub record WalletView : Type 0 where
  pub balance : ℤ
  pub held_in_bids : ℕ
  pub total_balance : ℤ

abbrev pub balance_of : ℕ → Db → ℤ
balance_of user_id db = elim (find (λ u. u.id) user_id db.users) [
  | none ↦ pos 0
  | some u ↦ u.balance
]

unfoldable pub wallet_view : ℕ → Db → WalletView
wallet_view user_id db =
    let held = sum_active_bid_hold_amount user_id db in
    record {
      balance = balance_of user_id db;
      held_in_bids = held;
      total_balance = balance_of user_id db +ℤ pos held;
    }
