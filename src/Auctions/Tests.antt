-- ===== src/Auctions/Tests.antt =====
-- Bids on a concrete auction.
use sneakerbid.Base.{ℕ, ◌≡◌, ◌≤◌, refl, Option, none, some, List, [], ◌∷◌, ◌+◌, arith}
use sneakerbid.Store.Rows.{Auction, User, Db, BidSourceType}
use sneakerbid.Store.Client.{active_bids, auction_check}
use sneakerbid.Store.Table.{find}
use sneakerbid.Store.Tx.{Tx, ok, err}
use sneakerbid.Samples.{db, kim, auction}
use sneakerbid.Auctions.{
  build_bid_update_data, leader_of, new_bid_row, place_bid_tx, place_bid_as_bot_tx,
}
use sneakerbid.Auctions.SoftClose.{bid_all, end_time-bid_all_bounds}
use sneakerbid.Auctions.Bidding.{Regular, Allowed, bid_taken, place_bid_tx-ok, place_bid_tx-Allowed}
use sneakerbid.Auctions.Prices.{Priced, place_bid_tx-leads, place_bid_as_bot_tx-unfunded_leads}

abbrev bids_at_end : List (ℕ × ℕ)
bids_at_end = (59000, 130) ∷ (59500, 140) ∷ (358000, 150) ∷ []

three_bids : (bid_all bids_at_end auction).end_time ≡ 660000
unfolding bid_all build_bid_update_data
three_bids = refl

end_time-bid_all_bounds_example :
    (auction.end_time ≤ (bid_all bids_at_end auction).end_time)
    × ((bid_all bids_at_end auction).end_time ≤ auction.end_time + 900000)
end_time-bid_all_bounds_example = end_time-bid_all_bounds bids_at_end auction refl

abbrev left : {A : Type 0} → Tx A → Db
left m = elim (m db) [ ok (_, d) ↦ d | err _ ↦ db ]

abbrev bid_on : Db
bid_on = left (place_bid_tx 40 10 130 2 59000)

place_bid_tx-ok_example :
    (a : Auction) × (u : User) × Allowed 10 130 2 59000 a u db
    × (some 3 ≡ leader_of (active_bids 10 db.bids))
    × (bid_on ≡ bid_taken 40 10 130 2 59000 BidSourceType.from_user none db)
unfolding place_bid_tx active_bids auction_check build_bid_update_data
place_bid_tx-ok_example = place_bid_tx-ok 40 10 130 2 59000 (some 3) db bid_on refl

db-Priced : Priced db
db-Priced id a e = ground arith

place_bid_tx-leads_example :
    (active_bids 10 bid_on.bids
      ≡ new_bid_row 40 10 2 130 BidSourceType.from_user none ∷ active_bids 10 db.bids)
    × ((a : Auction) → find (λ x. x.id) 10 bid_on.auctions ≡ some a → a.current_price ≡ 130)
    × Priced bid_on
unfolding place_bid_tx active_bids auction_check build_bid_update_data
place_bid_tx-leads_example = place_bid_tx-leads 40 10 130 2 59000 (some 3) db bid_on db-Priced refl

kim-Regular : Regular 10 130 2 59000 auction db
unfolding active_bids
kim-Regular = record {
  auction_found = refl;
  is_open = refl;
  before_end = omega arith;
  not_seller = ground arith;
  not_leader = ground arith;
  high_enough = omega arith;
}

kim-Allowed : Allowed 10 130 2 59000 auction kim db
kim-Allowed = record { regular = kim-Regular; user_found = refl; funded = ground arith }

place_bid_tx-Allowed_example :
    place_bid_tx 40 10 130 2 59000 db
    ≡ ok (
      leader_of (active_bids 10 db.bids),
      bid_taken 40 10 130 2 59000 BidSourceType.from_user none db,
    )
unfolding auction_check build_bid_update_data
place_bid_tx-Allowed_example =
    place_bid_tx-Allowed 40 10 130 2 59000 auction kim db kim-Allowed (omega arith) refl

abbrev bid_on_by_bot : Db
bid_on_by_bot = left (place_bid_as_bot_tx 40 10 130 2 7 59000)

bot-Regular : Regular 10 130 4 59000 auction db
unfolding active_bids
bot-Regular = record {
  auction_found = refl;
  is_open = refl;
  before_end = omega arith;
  not_seller = ground arith;
  not_leader = ground arith;
  high_enough = omega arith;
}

abbrev unfunded : Db
unfunded = left (place_bid_as_bot_tx 40 10 130 4 7 59000)

place_bid_as_bot_tx-unfunded_leads_example :
    (◌≡◌ {A = Option (Option ℕ)} none none)
    × (active_bids 10 unfunded.bids
        ≡ new_bid_row 40 10 4 130 BidSourceType.from_bot (some 7) ∷ active_bids 10 db.bids)
    × (unfunded.users ≡ db.users)
    × (unfunded.wallet_transactions ≡ db.wallet_transactions)
    × (unfunded.auctions ≡ db.auctions)
unfolding place_bid_as_bot_tx active_bids auction_check build_bid_update_data
place_bid_as_bot_tx-unfunded_leads_example =
    place_bid_as_bot_tx-unfunded_leads 40 10 130 4 7 59000 auction db unfunded none db-Priced
      bot-Regular (omega arith) refl refl
