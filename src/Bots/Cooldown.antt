-- ===== src/Bots/Cooldown.antt =====
-- The price of a bot's bid, and the cooldown around it.
use sneakerbid.Base.{ℕ, ◌+◌, ◌-◌, ◌≤◌, min, true, false, Option, none, some, List, ◌≡◌, ◌⊎◌, ◌<◌}
use sneakerbid.Base.Int.{pos, ◌≤ℤ◌, pos_part, int_laws}
use sneakerbid.Store.Rows.{Auction, User, BidSourceType}
use sneakerbid.Store.Tx.{ok}
use sneakerbid.Service.{World}
use sneakerbid.Auctions.{min_bid, place_bid_as_bot_tx}
use sneakerbid.Auctions.Bidding.{Allowed, bid_taken}
use sneakerbid.Bots.{
  Bot, compute_bid_price, Key, same_key, is_set, with_bot_key, with_auction_key, acquire_cooldown,
  Attempt,
}

-- A price that is computed reaches the auction's least bid, and stays within the bot's limit, its
-- balance and its unit, whatever is drawn from the range that is asked for.
pub compute_bid_price-bounds :
    (draw : ℕ → ℕ → ℕ) (a : Auction) (bot : Bot) (p : ℕ)
    → ((k : ℕ) → draw 0 k ≤ k)
    → compute_bid_price draw a bot ≡ some p
    → (min_bid a ≤ p)
      × (p ≤ bot.max_by_multiplier a.start_price)
      × (pos p ≤ℤ bot.user.balance)
      × (p ≤ min_bid a + bot.bid_unit)
unfolding compute_bid_price
compute_bid_price-bounds draw a bot p within h = grind (
  int_laws,
  within (
      min bot.bid_unit
        (min (bot.max_by_multiplier a.start_price) (pos_part bot.user.balance) - min_bid a)),
)

-- The keys after both were set.
abbrev pub acquired : ℕ → ℕ → ℕ → List (Key × ℕ) → List (Key × ℕ)
acquired a b asked ks = with_bot_key a b 25 asked (with_auction_key a 8 asked ks)

-- The cooldown is not to be had, and nothing changes from then on.
abbrev pub IsOnCooldown : ℕ → ℕ → ℕ → List (Key × ℕ) → List (Key × ℕ) → Type 0
IsOnCooldown a b asked ks left =
    ((is_set (Key.auction_key a) asked ks ≡ true) ⊎ (is_set (Key.bot_key a b) asked ks ≡ true))
    × ((k : Key) (t : ℕ) → asked ≤ t → is_set k t left ≡ is_set k t ks)

-- No bot gets the cooldown of the auction within eight seconds, and the bot's own key is set for
-- twenty-five.
abbrev pub IsHeld : ℕ → ℕ → ℕ → List (Key × ℕ) → Type 0
IsHeld a b asked ks =
    ((other t : ℕ) → t < asked + 8000 → acquire_cooldown a other 25 8 t ks ≡ (false, ks))
    × ((t : ℕ) → t < asked + 25000 → is_set (Key.bot_key a b) t ks ≡ true)

-- The two keys are gone, and no other key is changed.
abbrev pub IsCleared : ℕ → ℕ → List (Key × ℕ) → List (Key × ℕ) → Type 0
IsCleared a b before after =
    ((t : ℕ) → is_set (Key.auction_key a) t after ≡ false)
    × ((t : ℕ) → is_set (Key.bot_key a b) t after ≡ false)
    × ((k : Key) (t : ℕ)
        → same_key (Key.auction_key a) k ≡ false
        → same_key (Key.bot_key a b) k ≡ false
        → is_set k t after ≡ is_set k t before)

module _ (bid_id now : ℕ) (a : Auction) (bot : Bot) (ks : List (Key × ℕ)) (w : World) where
  -- No bid is reported and the keys are cleared. The database is as before, or as the transaction of a
  -- bid left it.
  abbrev pub IsGivenUp : Attempt → Type 0
  IsGivenUp t =
      (t.placed ≡ none)
      × IsCleared a.id bot.id ks t.keys
      × ((t.world.db ≡ w.db)
          ⊎ ((p : ℕ) × (l : Option (Option ℕ)) × (place_bid_as_bot_tx bid_id a.id p bot.user.id
                  bot.type now w.db
                ≡ ok (l, t.world.db))))

  -- A bid is reported, which was allowed and is in the database, and the keys are left.
  abbrev pub IsPlaced : Attempt → Type 0
  IsPlaced t =
      (p : ℕ) × (t.placed ≡ some p)
      × (t.keys ≡ ks)
      × ((x : Auction) × (u : User) × Allowed a.id p bot.user.id now x u w.db)
      × (t.world.db
          ≡ bid_taken bid_id a.id p bot.user.id now BidSourceType.from_bot (some bot.type) w.db)
