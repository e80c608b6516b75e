-- ===== src/System/Effects.antt =====
-- What transactions that leave money or orders alone change.
use sneakerbid.Base.{
  ℕ, Bool, Option, none, ◌≡◌, refl, arith, Option-cases, inl, inr, subst, sym, ◌∙◌,
}
use sneakerbid.Store.Rows.{Auction, Db}
use sneakerbid.Store.Table.{find}
use sneakerbid.Store.Tx.{ok}
use sneakerbid.Store.Client.{auction_update}
use sneakerbid.Store.Laws.{auction_update-auctions}
use sneakerbid.Auctions.{place_bid_as_bot_tx}
use sneakerbid.Auctions.Editing.{UpdateAuctionDto, patch_tx}
use sneakerbid.Auctions.Patching.{patch_tx-ok}
use sneakerbid.Orders.Payment.{clash}
use sneakerbid.Bots.{insert_after_bot_win}

-- A bot's bid that is not reported as taken changes at most the bids.
pub place_bid_as_bot_tx-none :
    (bid_id auction_id price user_id strategy now : ℕ) (db d : Db)
    → place_bid_as_bot_tx bid_id auction_id price user_id strategy now db ≡ ok (none, d)
    → d ≡ record db { bids = d.bids }
unfolding place_bid_as_bot_tx
place_bid_as_bot_tx-none bid_id auction_id price user_id strategy now db d h =
    elim (Option-cases (find (λ x. x.id) auction_id db.auctions)) [
      | inl missing ↦ ground arith
      | inr (a, e) ↦ elim (Option-cases (find (λ x. x.id) user_id db.users)) [
        | inl no_user ↦ ground arith
        | inr (u, eu) ↦ ground arith
      ]
    ]

-- The rows of which nothing but trade and titles is written.
abbrev pub SameMoney : Db → Db → Type 0
SameMoney db d = (d.users ≡ db.users) × (d.wallet_transactions ≡ db.wallet_transactions)

pub patch_tx-kept :
    (a : Auction) (dto : UpdateAuctionDto) (now : ℕ) (r : Option Auction) (db d : Db)
    → patch_tx a dto now db ≡ ok (r, d)
    → SameMoney db d × (d.orders ≡ db.orders)
unfolding patch_tx
patch_tx-kept a dto now r db d h = elim (Option-cases (find (λ x. x.id) a.id db.auctions)) [
  | inl missing ↦ absurd (ground arith)
  | inr (b, e) ↦
      let (_, _, _, _, orders, users, ledger) = patch_tx-ok a b dto now r db d e h in
      ((users, ledger), orders)
]

pub insert_after_bot_win-kept :
    (id winner end_time : ℕ) (a : Auction) (inserted : Bool) (db d : Db)
    → insert_after_bot_win id winner end_time a db ≡ ok (inserted, d)
    → SameMoney db d × (d.orders ≡ db.orders)
unfolding insert_after_bot_win
insert_after_bot_win-kept id winner end_time a inserted db d h =
    ((ground arith, ground arith), ground arith)

pub auction_update-kept :
    (id : ℕ) (f : Auction → Auction) (r : Option Auction) (db d : Db)
    → auction_update id f db ≡ ok (r, d)
    → d.orders ≡ db.orders
auction_update-kept id f r db d h = elim (auction_update-auctions id f db) [
  | inl throws ↦ absurd (clash (sym throws ∙ h))
  | inr (x, xs, writes) ↦
      let same : record db { auctions = xs } ≡ d = cc in
      subst (λ (x : Db). x.orders ≡ db.orders) same refl
]
