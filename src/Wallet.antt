-- ===== src/Wallet.antt =====
-- backend/src/wallet/wallet.service.ts, with the counting query of
-- backend/src/database/repositories/wallet.repository.ts.
pub mod Held
pub mod Balances
pub mod Wealth
pub mod Overlap
mod Tests
use sneakerbid.Base.{
  ℕ, Bool, true, false, Option, none, some, ◌&&◌, ◌==◌, ltb, if◌then◌else◌, filter_by, length, not,
}
use sneakerbid.Base.Int.{ℤ, pos, ◌-ℤ◌, ltb_ℤ}
use sneakerbid.Store.Rows.{
  User, WalletTransaction, WalletTxType, WalletRefType, is_bid_release, is_bid_ref,
}
use sneakerbid.Store.Tx.{Tx, ◌>>=◌, ◌>>◌, pure, gets}
use sneakerbid.Store.Client.{user_find, user_increment, user_decrement, wallet_transaction_create}

-- `-amount`
abbrev pub negated : ℕ → ℤ
negated n = pos 0 -ℤ pos n

abbrev pub entry : ℕ → ℤ → WalletTxType → WalletRefType → ℕ → WalletTransaction
entry user_id amount type ref_type ref_id = record {
  user_id = user_id;
  amount = amount;
  type = type;
  ref_type = ref_type;
  ref_id = ref_id;
}

-- `!user || (user.balance ?? 0) < amount`, the other way round
abbrev pub covers : Option User → ℕ → Bool
covers none amount = false
covers (some u) amount = not (ltb_ℤ u.balance (pos amount))

-- What `holdForBid` writes after it has read the balance.
abbrev pub write_hold : ℕ → ℕ → ℕ → Tx Bool
write_hold user_id amount bid_id = do
  user_decrement user_id amount
  wallet_transaction_create
      (entry user_id (negated amount) WalletTxType.bid_hold WalletRefType.bid_ref bid_id)
  pure true

unfoldable pub hold_for_bid : ℕ → ℕ → ℕ → Tx Bool
unfolding user_find user_decrement wallet_transaction_create
hold_for_bid user_id amount bid_id = do
  u ← user_find user_id
  if covers u amount then write_hold user_id amount bid_id else pure false

abbrev pub releases_bid : ℕ → WalletTransaction → Bool
releases_bid bid_id t = is_bid_release t.type && is_bid_ref t.ref_type && t.ref_id == bid_id

unfoldable pub count_bid_release_for_bid : ℕ → Tx ℕ
count_bid_release_for_bid bid_id =
    gets (λ db. length (filter_by (releases_bid bid_id) db.wallet_transactions))

-- What `releaseBidHold` writes after it has counted the releases.
abbrev pub write_release : ℕ → ℕ → ℕ → Tx (Unit {0})
write_release user_id amount bid_id = do
  user_increment user_id amount
  wallet_transaction_create
      (entry user_id (pos amount) WalletTxType.bid_release WalletRefType.bid_ref bid_id)

unfoldable pub release_bid_hold : ℕ → ℕ → ℕ → Tx (Unit {0})
unfolding count_bid_release_for_bid user_increment wallet_transaction_create
release_bid_hold user_id amount bid_id = do
  n ← count_bid_release_for_bid bid_id
  if ltb 0 n then pure tt else write_release user_id amount bid_id

unfoldable pub pay : ℕ → ℕ → ℕ → Tx Bool
unfolding user_find user_decrement wallet_transaction_create
pay user_id amount order_id = do
  u ← user_find user_id
  if covers u amount
      then (do
        user_decrement user_id amount
        wallet_transaction_create
            (entry user_id (negated amount) WalletTxType.payment WalletRefType.order_ref order_id)
        pure true)
      else pure false

unfoldable pub settle_seller : ℕ → ℕ → ℕ → Tx (Unit {0})
unfolding user_increment wallet_transaction_create
settle_seller seller_user_id amount order_id = do
  user_increment seller_user_id amount
  wallet_transaction_create
      (entry seller_user_id (pos amount) WalletTxType.adjustment WalletRefType.order_ref order_id)

unfoldable pub convert_hold_to_payment : ℕ → ℕ → ℕ → Tx (Unit {0})
unfolding wallet_transaction_create
convert_hold_to_payment user_id amount order_id =
    wallet_transaction_create
      (entry user_id (negated amount) WalletTxType.payment WalletRefType.order_ref order_id)
