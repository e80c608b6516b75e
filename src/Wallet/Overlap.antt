-- ===== src/Wallet/Overlap.antt =====
-- What operations of the wallet come to whose transactions overlap: nothing locks the user or the bid
-- between what an operation reads and what it writes, so both may read what was there before either
-- wrote.
use sneakerbid.Base.{ℕ, true, some, ◌≡◌, refl, length, filter_by}
use sneakerbid.Base.Int.{◌-ℤ◌, ◌+ℤ◌, pos}
use sneakerbid.Store.Rows.{User, Db}
use sneakerbid.Store.Table.{find, find-update_self}
use sneakerbid.Store.Tx.{◌>>◌, ok}
use sneakerbid.Store.Client.{user_increment, user_decrement, wallet_transaction_create}
use sneakerbid.Wallet.{
  covers, hold_for_bid, release_bid_hold, releases_bid, write_hold, write_release,
}

-- Two holds of one user that both find enough money would each be taken, and together they take both
-- amounts, whatever is then left.
overlapping_holds :
    (id m n b c : ℕ) (u : User) (db : Db)
    → find (λ x. x.id) id db.users ≡ some u
    → covers (some u) m ≡ true
    → covers (some u) n ≡ true
    → (hold_for_bid id m b db ≡ write_hold id m b db)
      × (hold_for_bid id n c db ≡ write_hold id n c db)
      × (d : Db) × ((write_hold id m b >> write_hold id n c) db ≡ ok (true, d))
      × (find (λ x. x.id) id d.users ≡ some (record u { balance = u.balance -ℤ pos m -ℤ pos n }))
unfolding user_decrement wallet_transaction_create hold_for_bid
overlapping_holds id m n b c u db found first second =
    let once =
      find-update_self (λ x. x.id) (λ (x : User). record x { balance = x.balance -ℤ pos m })
        (λ x. refl) id db.users u found in
    (
      rw (found, first) refl,
      rw (found, second) refl,
      _,
      refl,
      find-update_self (λ x. x.id) (λ (x : User). record x { balance = x.balance -ℤ pos n })
          (λ x. refl) id _ (record u { balance = u.balance -ℤ pos m }) once,
    )

-- Two releases of one hold, where none is counted, would each be made, and together they give it back
-- twice.
overlapping_releases :
    (id n b : ℕ) (u : User) (db : Db)
    → find (λ x. x.id) id db.users ≡ some u
    → length (filter_by (releases_bid b) db.wallet_transactions) ≡ 0
    → (release_bid_hold id n b db ≡ write_release id n b db)
      × (d : Db) × ((write_release id n b >> write_release id n b) db ≡ ok (tt, d))
      × (find (λ x. x.id) id d.users ≡ some (record u { balance = u.balance +ℤ pos n +ℤ pos n }))
unfolding user_increment wallet_transaction_create release_bid_hold
overlapping_releases id n b u db found unreleased =
    let once =
      find-update_self (λ x. x.id) (λ (x : User). record x { balance = x.balance +ℤ pos n })
        (λ x. refl) id db.users u found in
    (
      rw unreleased refl,
      _,
      refl,
      find-update_self (λ x. x.id) (λ (x : User). record x { balance = x.balance +ℤ pos n })
          (λ x. refl) id _ (record u { balance = u.balance +ℤ pos n }) once,
    )
