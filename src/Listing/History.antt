-- ===== src/Listing/History.antt =====
-- The history of trades: `getTradeHistory` of backend/src/auctions/auctions.service.ts over
-- `findTodaysClosings` and `findTradeHistory` of
-- backend/src/database/repositories/auction.repository.ts. The start of the local day, the text of a
-- date, JavaScript's `trim` and PostgreSQL's ILIKE are parameters.
use sneakerbid.Base.{
  ℕ, ◌-◌, ◌*◌, Bool, true, Option, none, some, List, [], ◌∷◌, ◌&&◌, ◌||◌, leb, if◌then◌else◌, not,
  filter_by, length, take, map, max, is_some, or_else, String, same_text, append_text,
}
use sneakerbid.Store.Rows.{is_opened}
use sneakerbid.Store.Pages.{sort_by}
use sneakerbid.Listing.{Entry, id_of}
use sneakerbid.Listing.Figures.{sum, round_div, closed_since}

-- `AUCTION_HISTORY_PERIODS`
pub data Period : Type 0 where
  one_day three_days five_days all : Period

abbrev pub day_ms : ℕ
day_ms = 24 * 60 * 60 * 1000

-- `getHistoryPeriodStart`
unfoldable pub get_history_period_start : ℕ → Option Period → Option ℕ
get_history_period_start now none = none
get_history_period_start now (some all) = none
get_history_period_start now (some one_day) = some (now - 1 * day_ms)
get_history_period_start now (some three_days) = some (now - 3 * day_ms)
get_history_period_start now (some five_days) = some (now - 5 * day_ms)

-- `findTodaysClosings`
unfoldable pub find_todays_closings : ℕ → List Entry → List ℕ
find_todays_closings today_start es =
    map (λ e. e.auction.current_price)
      (filter_by
        (λ e. not (is_opened e.auction.status) && closed_since today_start e.auction.closed_at) es)

pub record Stats : Type 0 where
  pub trades_today : ℕ
  pub average_price_today : Option ℕ
  pub max_price_today : Option ℕ

-- `Math.max(...prices)`
abbrev pub max_of : List ℕ → ℕ
max_of [] = 0
max_of (x ∷ xs) = max x (max_of xs)

-- The statistics of the prices of today's closings.
unfoldable pub stats_of : List ℕ → Stats
stats_of [] = record { trades_today = 0; average_price_today = none; max_price_today = none }
stats_of (x ∷ xs) = record {
  trades_today = length (x ∷ xs);
  average_price_today = some (round_div (sum (x ∷ xs)) (length (x ∷ xs)));
  max_price_today = some (max_of (x ∷ xs));
}

-- `AuctionHistoryItem`
pub record HistoryEntry : Type 0 where
  pub auction_id : ℕ
  pub image_url : String
  pub brand : String
  pub model_name : String
  pub participants : ℕ
  pub final_price : ℕ
  pub date : String
  pub completed : Bool

-- `ORDER BY a."closedAt" DESC`
abbrev by_closed_at : Entry → Entry → Bool
by_closed_at a b = leb (or_else b.auction.closed_at 0) (or_else a.auction.closed_at 0)

abbrev since : Option ℕ → Option ℕ → Bool
since none c = true
since (some t) c = closed_since t c

module _ (trim : String → String) (ilike : String → String → Bool) (date_text : ℕ → String) where
  -- The search, which is kept unless it is missing or empty; its wildcards are not escaped here.
  abbrev pub finds : Option String → Entry → Bool
  finds none e = true
  finds (some s) e =
      let pattern = append_text "%" (append_text s "%") in
      if same_text s ""
      then true
      else ilike e.sneaker.brand pattern || ilike e.sneaker.model_name pattern

  -- `findTradeHistory`
  unfoldable pub find_trade_history : Option ℕ → Option String → ℕ → List Entry → List Entry
  find_trade_history period_start search limit es = take limit (
      sort_by by_closed_at (
        filter_by
          (λ e.
            not (is_opened e.auction.status)
            && is_some e.auction.closed_at
            && since period_start e.auction.closed_at
            && finds search e)
          es))

  abbrev pub trimmed : Option String → Option String
  trimmed none = none
  trimmed (some s) = some (trim s)

  -- `auction.closedAt ?? auction.updatedAt`
  abbrev item_of : Entry → HistoryEntry
  item_of e = record {
    auction_id = id_of e;
    image_url = e.sneaker.image_url;
    brand = e.sneaker.brand;
    model_name = e.sneaker.model_name;
    participants = e.bid_count;
    final_price = e.auction.current_price;
    date = date_text (or_else e.auction.closed_at e.updated_at);
    completed = is_some e.auction.winner_user_id;
  }

  -- `getTradeHistory`
  unfoldable pub get_trade_history :
      ℕ → ℕ → Option Period → Option String → ℕ → List Entry → Stats × List HistoryEntry
  unfolding get_history_period_start find_todays_closings stats_of find_trade_history
  get_trade_history limit now period search today_start es = (
    stats_of (find_todays_closings today_start es),
    map item_of
        (find_trade_history (get_history_period_start now period) (trimmed search) limit es),
  )
