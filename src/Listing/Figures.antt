-- ===== src/Listing/Figures.antt =====
-- The figures of the market: `getLiveStats` of backend/src/auctions/auctions.service.ts over
-- backend/src/database/repositories/bid.repository.ts and auction.repository.ts. Speeds are counted
-- in tenths of a second, to which the source rounds them.
use sneakerbid.Base.{
  ℕ, zero, suc, ◌+◌, ◌-◌, ◌*◌, ◌/◌, Bool, false, Option, none, some, List, [], ◌∷◌, ◌&&◌, ltb, leb,
  if◌then◌else◌, not, filter_by, length, take, map, is_some,
}
use mathlib.Core.List.{reverse}
use sneakerbid.Store.Rows.{Auction, Bid, is_opened}
use sneakerbid.Store.Table.{find}
use sneakerbid.Store.Pages.{sort_by}
use sneakerbid.Listing.Views.{distinct}

abbrev is_running : ℕ → Auction → Bool
is_running now a = is_opened a.status && ltb now a.end_time

abbrev pub is_running? : ℕ → Option Auction → Bool
is_running? now none = false
is_running? now (some a) = is_running now a

-- `findDistinctUserIds`
unfoldable pub find_distinct_user_ids : ℕ → List Auction → List Bid → List ℕ
find_distinct_user_ids now xs bids = distinct (
    map (λ b. b.user_id)
      (filter_by
        (λ b. is_running? now (find (λ a. a.id) b.auction_id xs) && not (is_some b.disqualified_at))
        bids))

-- `countOpen`
unfoldable pub count_open : ℕ → List Auction → ℕ
count_open now xs = length (filter_by (is_running now) xs)

abbrev pub sum : List ℕ → ℕ
sum [] = 0
sum (x ∷ xs) = x + sum xs

abbrev pub closed_since : ℕ → Option ℕ → Bool
closed_since t none = false
closed_since t (some c) = leb t c

-- `sumClosedVolume24h`
unfoldable pub sum_closed_volume_24h : ℕ → List Auction → ℕ
sum_closed_volume_24h day_ago xs = sum (
    map (λ a. a.current_price)
      (filter_by
        (λ a.
          not (is_opened a.status) && closed_since day_ago a.closed_at && is_some a.winner_user_id)
        xs))

abbrev later_first : ℕ → ℕ → Bool
later_first s t = leb t s

-- `findRecentCreatedAt`, from the times of creation by the bid's id.
unfoldable pub find_recent_created_at : (ℕ → ℕ) → ℕ → List Bid → List ℕ
find_recent_created_at created_at limit bids = take limit (
    sort_by later_first
      (map (λ b. created_at b.id) (filter_by (λ b. not (is_some b.disqualified_at)) bids)))

-- The loop over `times`.
unfoldable pub diffs : List ℕ → List ℕ
diffs [] = []
diffs (s ∷ []) = []
diffs (s ∷ t ∷ times) = (t - s) ∷ diffs (t ∷ times)

-- `Math.round` of a quotient of natural numbers
abbrev pub round_div : ℕ → ℕ → ℕ
round_div a b = (2 * a + b) / (2 * b)

abbrev positive_or : ℕ → ℕ → ℕ
positive_or d zero = d
positive_or d (suc n) = suc n

-- `avgBidSpeedSeconds`, in tenths, from the recent times, the last first.
unfoldable pub avg_bid_speed : List ℕ → ℕ
unfolding diffs
avg_bid_speed recent =
    if ltb (length recent) 2
    then 8
    else positive_or 8
        (round_div (sum (diffs (reverse recent))) (100 * length (diffs (reverse recent))))

pub record LiveStats : Type 0 where
  pub active_bidders : ℕ
  pub active_auctions : ℕ
  pub volume_24h : ℕ
  pub avg_bid_speed_tenths : ℕ

-- `getLiveStats`; before the first day has passed the volume is that of all time.
unfoldable pub get_live_stats : (ℕ → ℕ) → ℕ → List Auction → List Bid → LiveStats
unfolding find_distinct_user_ids count_open sum_closed_volume_24h find_recent_created_at
    avg_bid_speed
get_live_stats created_at now xs bids = record {
  active_bidders = length (find_distinct_user_ids now xs bids);
  active_auctions = count_open now xs;
  volume_24h = sum_closed_volume_24h (now - 24 * 60 * 60 * 1000) xs;
  avg_bid_speed_tenths = avg_bid_speed (find_recent_created_at created_at 100 bids);
}
