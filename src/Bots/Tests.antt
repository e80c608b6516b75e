-- ===== src/Bots/Tests.antt =====
-- Bots on a concrete auction.
use sneakerbid.Base.{
  ℕ, ◌+◌, ◌*◌, ◌/◌, ◌≡◌, ◌==◌, refl, none, some, List, [], ◌∷◌, false, true, arith, All, map,
  length,
}
use sneakerbid.Store.Rows.{Auction, AuctionStatus, Db}
use sneakerbid.Store.Client.{auction_check, active_bids}
use sneakerbid.Store.Tx.{ok, err, transaction}
use sneakerbid.Service.{World}
use sneakerbid.Samples.{db, kim, auction}
use sneakerbid.Bots.{
  Bot, acquire_cooldown, clear_cooldown, validate_bid, compute_bid_price, try_place_bid,
  is_relisted, insert_after_bot_win, relist_bot_won_auctions, is_within_activity_hours,
}
use sneakerbid.Bots.TopUp.{BotRow, daily_bot_balance_top_up, increment_user_balance}
use sneakerbid.Auctions.{place_bid_as_bot_tx}
use sneakerbid.Auctions.Methods.{place_bid_as_bot}
use sneakerbid.Base.Int.{pos}
use sneakerbid.Bots.Attempts.{select_bid_attempts, merged_auctions}
use sneakerbid.Bots.Keys.{Distinct}
use sneakerbid.Bots.Choosing.{key_of}
use sneakerbid.Bots.Merging.{select_bid_attempts-merged_auctions}
use sneakerbid.Bots.Relisting.{renumbered, relist_bot_won_auctions-once}

at_midnight : is_within_activity_hours 23 22 2 ≡ true
unfolding is_within_activity_hours
at_midnight = refl

at_noon : is_within_activity_hours 12 22 2 ≡ false
unfolding is_within_activity_hours
at_noon = refl

abbrev kim_bot : Bot
kim_bot = record {
  id = 70;
  user = kim;
  type = 1;
  max_by_multiplier = λ price. price * 3 / 2;
  bid_unit = 50;
  activity_start_hour = 22;
  activity_end_hour = 2;
  favorite_brands = [];
}

-- A draw of the middle of the range.
abbrev middle : ℕ → ℕ → ℕ
middle low high = (low + high) / 2

-- A run of the daily money that fails at the second bot: the first one keeps what it got.
failed_top_up :
    let bots : List BotRow =
      record { id = 70; user_id = 1; type = "TROLL" }
      ∷ record { id = 71; user_id = 2; type = "" }
      ∷ [] in
    daily_bot_balance_top_up (λ n. middle) (λ n. n == 0) 0 bots db
    ≡ (false, increment_user_balance 1 40000 db)
unfolding daily_bot_balance_top_up
failed_top_up = refl

abbrev world : World
world = record { db = db; sent = [] }

-- A bot whose money is gone since it was read: its bid is in the table, and is not reported.
abbrev broke : World
broke = record world { db = record db { users = record kim { balance = pos 1 } ∷ [] } }

unreported :
    let t = try_place_bid middle true 40 900 1000 23 auction "Nike" kim_bot (λ ks. ks) [] broke in
    (t.placed ≡ none) × (t.keys ≡ []) × (length t.world.db.bids ≡ length db.bids + 1)
unfolding try_place_bid acquire_cooldown clear_cooldown validate_bid compute_bid_price
    place_bid_as_bot is_within_activity_hours place_bid_as_bot_tx transaction active_bids
unreported = (refl, refl, refl)

abbrev won : Auction
won = record auction { status = AuctionStatus.closed; winner_user_id = some 4 }

abbrev rows : List (ℕ × Auction)
rows = (50, won) ∷ []

abbrev after_relisting : Db
after_relisting = elim (relist_bot_won_auctions rows 70000 db) [ ok (_, d) ↦ d | err _ ↦ db ]

relist_bot_won_auctions-once_example :
    All
      (λ (row : ℕ × Auction).
        (w : ℕ)
        → row.1.winner_user_id ≡ some w
        → is_relisted row.1.id after_relisting.auctions ≡ true)
      rows
    × (relist_bot_won_auctions (renumbered (λ id. id + 1) rows) 130000 after_relisting
        ≡ ok (tt, after_relisting))
unfolding relist_bot_won_auctions insert_after_bot_win auction_check
relist_bot_won_auctions-once_example =
    relist_bot_won_auctions-once rows (λ id. id + 1) 70000 130000 db after_relisting refl

abbrev sold_by_bot : Auction
sold_by_bot = record auction { id = 11; seller_user_id = 4 }

-- The auction of a bot is in both queries; the draws come to both pairs, one of them twice.
abbrev offered : List Auction
offered = auction ∷ sold_by_bot ∷ []

abbrev draws : List (ℕ × ℕ)
draws = (1, 0) ∷ (1, 0) ∷ (0, 0) ∷ []

select_bid_attempts-merged_auctions_example :
    (r : List (Auction × Bot)) × (select_bid_attempts
        (λ a. a.id)
        (λ b. b.id)
        (merged_auctions (λ a. a.id) offered (sold_by_bot ∷ []))
        (kim_bot ∷ [])
        draws
      ≡ some r)
    × (length r ≡ 2)
    × Distinct (map (key_of (λ a. a.id) (λ b. b.id)) r)
unfolding merged_auctions
select_bid_attempts-merged_auctions_example =
    select_bid_attempts-merged_auctions (λ a. a.id) (λ b. b.id) offered (sold_by_bot ∷ [])
      (kim_bot ∷ []) draws (refl, tt)
      ((omega arith, omega arith), ((omega arith, omega arith), ((omega arith, omega arith), tt)))
      (λ i j hi hj. ground arith)
