-- ===== src/Bots.antt =====
-- The bids of bots and the relisting of what they won, in backend/src/bots/bots.service.ts, with
-- backend/src/bots/redis-cooldown.store.ts and
-- backend/src/database/repositories/auction-relist.repository.ts.
pub mod Cooldown
pub mod Relisting
pub mod Attempts
pub mod Keys
pub mod Choosing
pub mod Merging
pub mod TopUp
mod Tests
use sneakerbid.Base.{
  ℕ, ◌+◌, ◌-◌, ◌*◌, ◌/◌, min, Bool, true, false, Option, none, some, List, [], ◌∷◌, ◌&&◌, ◌||◌,
  ◌==◌, ltb, leb, if◌then◌else◌, not, any, filter_by, String, same_text, same_id, is_some,
}
use sneakerbid.Base.Int.{ℤ, pos, ltb_ℤ, pos_part}
use sneakerbid.Store.Rows.{User, Auction, AuctionStatus, Db}
use sneakerbid.Store.Tx.{Tx, Error, Result, ok, err, ◌>>=◌, ◌>>◌, pure, throw}
use sneakerbid.Store.Client.{auction_check}
use sneakerbid.Service.{World}
use sneakerbid.Auctions.{min_bid}
use sneakerbid.Auctions.Methods.{place_bid_as_bot, BidPlaced}

-- `isWithinActivityHours`, of the hour of `now`
unfoldable pub is_within_activity_hours : ℕ → ℕ → ℕ → Bool
is_within_activity_hours hour start end =
    if leb start end then leb start hour && leb hour end else leb start hour || leb hour end

-- `BotWithUser`, with the user as it was read before. `max_by_multiplier` is the floating-point
-- `Math.floor(price * bot.maxBidMultiplier)`; `favorite_brands` are the texts of its array, if it is one.
pub record Bot : Type 0 where
  pub id : ℕ
  pub user : User
  pub type : ℕ
  pub max_by_multiplier : ℕ → ℕ
  pub bid_unit : ℕ
  pub activity_start_hour : ℕ
  pub activity_end_hour : ℕ
  pub favorite_brands : List String

abbrev pub is_favored : List String → String → Bool
is_favored [] brand = true
is_favored (b ∷ bs) brand = any (same_text brand) (b ∷ bs)

-- `validateBid`, of the auction with the brand of its sneaker
unfoldable pub validate_bid : Auction → String → Bot → ℕ → Bool
unfolding is_within_activity_hours
validate_bid a brand bot hour =
    not (a.seller_user_id == bot.user.id)
    && is_within_activity_hours hour bot.activity_start_hour bot.activity_end_hour
    && is_favored bot.favorite_brands brand

-- `computeBidPrice`; `draw` is `randInt`.
unfoldable pub compute_bid_price : (ℕ → ℕ → ℕ) → Auction → Bot → Option ℕ
compute_bid_price draw a bot =
    let most = min (bot.max_by_multiplier a.start_price) (pos_part bot.user.balance) in
    if ltb (bot.max_by_multiplier a.start_price) (min_bid a)
      || ltb_ℤ bot.user.balance (pos (min_bid a))
    then none
    else some (min_bid a + draw 0 (min bot.bid_unit (most - min_bid a)))

-- The keys that are set in Redis.
pub data Key : Type 0 where
  auction_key : (auction_id : ℕ) → Key
  bot_key : (auction_id bot_id : ℕ) → Key

abbrev pub same_key : Key → Key → Bool
same_key (Key.auction_key a) (Key.auction_key b) = a == b
same_key (Key.bot_key a m) (Key.bot_key b n) = a == b && m == n
same_key _ _ = false

-- The keys that were set, each with the time at which it expires.
abbrev pub is_set : Key → ℕ → List (Key × ℕ) → Bool
is_set k now ks = any (λ (x : Key × ℕ). same_key k x.0 && ltb now x.1) ks

abbrev pub delete : Key → List (Key × ℕ) → List (Key × ℕ)
delete k ks = filter_by (λ (x : Key × ℕ). not (same_key k x.0)) ks

-- `BOT_COOLDOWN_MS` and `AUCTION_COOLDOWN_SEC` of backend/src/common/constants/bot.constants.ts
abbrev pub bot_cooldown_ms : ℕ
bot_cooldown_ms = 25000

abbrev pub auction_cooldown_sec : ℕ
auction_cooldown_sec = 8

-- Both keys with their seconds to live.
abbrev pub with_auction_key : ℕ → ℕ → ℕ → List (Key × ℕ) → List (Key × ℕ)
with_auction_key auction_id auction_ttl now ks =
    (Key.auction_key auction_id, now + auction_ttl * 1000) ∷ ks

abbrev pub with_bot_key : ℕ → ℕ → ℕ → ℕ → List (Key × ℕ) → List (Key × ℕ)
with_bot_key auction_id bot_id bot_ttl now ks =
    (Key.bot_key auction_id bot_id, now + bot_ttl * 1000) ∷ ks

-- `acquireCooldown`: both keys by SET … EX … NX, the first one given up when the second is taken.
unfoldable pub acquire_cooldown : ℕ → ℕ → ℕ → ℕ → ℕ → List (Key × ℕ) → Bool × List (Key × ℕ)
acquire_cooldown auction_id bot_id bot_ttl auction_ttl now ks =
    if is_set (Key.auction_key auction_id) now ks
    then (false, ks)
    else if is_set (Key.bot_key auction_id bot_id) now
        (with_auction_key auction_id auction_ttl now ks)
    then (
      false,
      delete (Key.auction_key auction_id) (with_auction_key auction_id auction_ttl now ks),
    )
    else (
      true,
      with_bot_key auction_id bot_id bot_ttl now (with_auction_key auction_id auction_ttl now ks),
    )

-- `clearCooldown`
unfoldable pub clear_cooldown : ℕ → ℕ → List (Key × ℕ) → List (Key × ℕ)
clear_cooldown auction_id bot_id ks =
    delete (Key.auction_key auction_id) (delete (Key.bot_key auction_id bot_id) ks)

-- What an attempt comes to: the price that it reports as bid, the keys, and the world.
pub record Attempt : Type 0 where
  pub placed : Option ℕ
  pub keys : List (Key × ℕ)
  pub world : World

abbrev after_try : ℕ → ℕ → ℕ → List (Key × ℕ) → Result (Option BidPlaced) × World → Attempt
after_try auction_id bot_id price ks (ok (some _), w) = record {
  placed = some price;
  keys = ks;
  world = w;
}
after_try auction_id bot_id price ks (ok none, w) = record {
  placed = none;
  keys = clear_cooldown auction_id bot_id ks;
  world = w;
}
after_try auction_id bot_id price ks (err _, w) = record {
  placed = none;
  keys = clear_cooldown auction_id bot_id ks;
  world = w;
}

abbrev pub bid_at : Bool → ℕ → ℕ → Auction → Bot → Option ℕ → List (Key × ℕ) → World → Attempt
bid_at counted bid_id now a bot none ks w = record {
  placed = none;
  keys = clear_cooldown a.id bot.id ks;
  world = w;
}
bid_at counted bid_id now a bot (some price) ks w =
    after_try a.id bot.id price ks
      (place_bid_as_bot counted bid_id a.id price bot.user bot.type now w)

-- `tryPlaceBid`, of an auction and a bot as they were read before. The cooldown is asked for at `asked`,
-- the bid is placed at `now`, and `later` is what other attempts do to the keys meanwhile.
module _ (draw : ℕ → ℕ → ℕ) (counted : Bool) (bid_id asked now hour : ℕ) (a : Auction)
    (brand : String) (bot : Bot) (later : List (Key × ℕ) → List (Key × ℕ)) where
  abbrev pub try_acquired : Bool × List (Key × ℕ) → World → Attempt
  try_acquired (false, ks) w = record { placed = none; keys = later ks; world = w }
  try_acquired (true, ks) w =
      if validate_bid a brand bot hour
      then bid_at counted bid_id now a bot (compute_bid_price draw a bot) (later ks) w
      else record { placed = none; keys = clear_cooldown a.id bot.id (later ks); world = w }

  unfoldable pub try_place_bid : List (Key × ℕ) → World → Attempt
  try_place_bid ks w =
      try_acquired
        (acquire_cooldown a.id bot.id ((bot_cooldown_ms + 999) / 1000) auction_cooldown_sec asked
          ks)
        w

-- `RELIST_AUCTION_DURATION_SEC` of backend/src/common/constants/bot.constants.ts
abbrev pub relist_auction_duration_sec : ℕ
relist_auction_duration_sec = 3600

-- The row that `insertAfterBotWin` inserts: the winner sells at the price that was paid.
abbrev pub relisted_auction : ℕ → ℕ → ℕ → Auction → Auction
relisted_auction id winner end_time a = record {
  id = id;
  sneaker_id = a.sneaker_id;
  size = a.size;
  start_price = a.current_price;
  current_price = a.current_price;
  buy_now_price = a.buy_now_price;
  minimum_increment = a.minimum_increment;
  status = AuctionStatus.opened;
  end_time = end_time;
  winner_user_id = none;
  closed_at = none;
  last_extended_at = none;
  extend_count = 0;
  seller_user_id = winner;
  relisted_from_auction_id = some a.id;
  post_close_finalize_payload = none;
}

-- Whether an auction was relisted: "idx_auction_relisted_from_auction_id" is unique.
abbrev pub is_relisted : ℕ → List Auction → Bool
is_relisted id xs = any (λ a. same_id a.relisted_from_auction_id (some id)) xs

-- `insertAfterBotWin`: INSERT … ON CONFLICT DO NOTHING
unfoldable pub insert_after_bot_win : ℕ → ℕ → ℕ → Auction → Tx Bool
unfolding auction_check
insert_after_bot_win id winner end_time a db =
    if not (auction_check (relisted_auction id winner end_time a))
    then throw Error.check_violation db
    else if is_relisted a.id db.auctions
    then pure false db
    else pure true (record db { auctions = relisted_auction id winner end_time a ∷ db.auctions })

abbrev pub relist_won : ℕ → Option ℕ → ℕ → Auction → Tx (Unit {0})
relist_won id none end_time a = pure tt
relist_won id (some winner) end_time a = insert_after_bot_win id winner end_time a >> pure tt

-- The loop of `relistBotWonAuctions` over the rows of its query, each with the id of a new row. Each
-- INSERT commits by itself.
unfoldable pub relist_bot_won_auctions : List (ℕ × Auction) → ℕ → Tx (Unit {0})
unfolding insert_after_bot_win
relist_bot_won_auctions [] now = pure tt
relist_bot_won_auctions ((id, a) ∷ rows) now =
    let rest = relist_bot_won_auctions rows now in
    relist_won id a.winner_user_id (now + relist_auction_duration_sec * 1000) a >> rest
