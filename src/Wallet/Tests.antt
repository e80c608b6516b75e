-- ===== src/Wallet/Tests.antt =====
-- The operations of the wallet on concrete accounts.
use sneakerbid.Base.{◌≡◌, refl, ◌+◌}
use sneakerbid.Base.Int.{pos, ◌-ℤ◌, ◌≤ℤ◌}
use sneakerbid.Store.Rows.{Db}
use sneakerbid.Store.Tx.{Tx, ok, err}
use sneakerbid.Samples.{db}
use sneakerbid.Wallet.{hold_for_bid, release_bid_hold, pay, convert_hold_to_payment}
use sneakerbid.Wallet.Held.{wallet_view, sum_active_bid_hold_amount}
use sneakerbid.Wallet.Wealth.{wallet_view-hold_for_bid}

-- The database that a transaction leaves.
abbrev left : {A : Type 0} → Tx A → Db
left m = elim (m db) [ ok (_, d) ↦ d | err _ ↦ db ]

abbrev held : Db
held = left (hold_for_bid 2 30 40)

held_view : (wallet_view 2 held).held_in_bids ≡ 140
unfolding hold_for_bid wallet_view sum_active_bid_hold_amount ◌-ℤ◌
held_view = refl

wallet_view-hold_for_bid_example :
    (pos 30 ≤ℤ (wallet_view 2 db).balance)
    × ((wallet_view 2 held).balance ≡ (wallet_view 2 db).balance -ℤ pos 30)
    × ((wallet_view 2 held).held_in_bids ≡ (wallet_view 2 db).held_in_bids + 30)
    × ((wallet_view 2 held).total_balance ≡ (wallet_view 2 db).total_balance)
unfolding hold_for_bid
wallet_view-hold_for_bid_example = wallet_view-hold_for_bid 2 30 40 db held refl refl

abbrev released : Db
released = left (release_bid_hold 2 110 20)

abbrev paid : Db
paid = left (pay 2 900 30)

abbrev converted : Db
converted = left (convert_hold_to_payment 3 120 30)
