-- ===== src/Browser/Bidding.antt =====
-- The page of one auction: the state and the handlers of
-- frontend/components/detail/AuctionDetailClient.tsx, frontend/lib/util/bidHistory.ts and the events
-- of frontend/hooks/useAuctionEvents.ts. The caches that a handler also writes are in Browser/Caches;
-- the digits of an id, as a number, are a parameter.
pub mod Shown
pub mod Optimistic
mod Tests
use sneakerbid.Base.{
  ℕ, ◌+◌, max, Bool, true, false, Option, none, some, List, [], ◌∷◌, ◌&&◌, ◌||◌, ◌==◌, ltb, leb,
  not, if◌then◌else◌, take, or_else, is_some, String, same_text,
}
use sneakerbid.Base.Int.{ℤ, pos, negsuc}
use sneakerbid.Store.Pages.{sort_by}

-- `BidLogItem`
pub record LogItem : Type 0 where
  pub id : ℕ
  pub user : String
  pub amount : ℕ
  pub time : String
  pub is_bot : Bool
  pub participant_count : Option ℕ

pub data ItemStatus : Type 0 where
  ongoing ending_soon closed failed buy_now : ItemStatus

-- `AuctionClosedPayload`
pub record Closed : Type 0 where
  pub is_buy_now : Bool
  pub winner_user_id : Option ℕ
  pub final_price : ℕ

-- What the handlers read of the auction and of the bids that were fetched.
pub record Item : Type 0 where
  pub current_bid : ℕ
  pub participants : ℕ
  pub minimum_increment : Option ℕ
  pub status : ItemStatus
  pub bids : List LogItem

abbrev pub default_bid_step : ℕ
default_bid_step = 10000

abbrev pub bid_step : Item → ℕ
bid_step item = or_else item.minimum_increment default_bid_step

-- The local state of the page.
pub record Page : Type 0 where
  pub current_price : ℕ
  pub participants : ℕ
  pub bid_history : List LogItem
  pub bid_amount : ℕ
  pub bid_error : String
  pub closed_payload : Option Closed

-- The first state, and what is set when the auction was fetched again.
unfoldable pub mount : Item → Page
mount item = record {
  current_price = item.current_bid;
  participants = item.participants;
  bid_history = item.bids;
  bid_amount = item.current_bid + bid_step item;
  bid_error = "";
  closed_payload = none;
}

unfoldable pub synchronize : Item → Page → Page
synchronize item s = record s {
  current_price = item.current_bid;
  participants = item.participants;
  bid_history = item.bids;
  bid_amount = item.current_bid + bid_step item;
}

-- `handleNewBidFromSSE`
unfoldable pub handle_new_bid : LogItem → Page → Page
handle_new_bid bid s = record s {
  bid_history = take 5 (bid ∷ s.bid_history);
  current_price = bid.amount;
  participants = or_else bid.participant_count (s.participants + 1);
}

-- `handleAuctionClosed`
unfoldable pub handle_auction_closed : Closed → Page → Page
handle_auction_closed payload s = record s {
  closed_payload = some payload;
  current_price = payload.final_price;
}

abbrev is_just_now : LogItem → Bool
is_just_now b = same_text b.time "방금 전"

abbrev pub is_below : ℤ → ℕ → Bool
is_below (pos b) n = ltb b n
is_below (negsuc b) n = true

-- What a press of the button does before the answer: it asks for a login, it shows an error, or it
-- sends the amount.
pub data Press : Type 0 where
  needs_login : Press
  shows_error : Page → Press
  sends : ℕ → Page → Press

abbrev with_error : String → Page → Page
with_error msg s = record s { bid_error = msg }

-- The optimistic update of `handleBid`
unfoldable pub begin_bid : Item → Page → Page
begin_bid item s = record s {
  bid_error = "";
  current_price = s.bid_amount;
  bid_amount = s.bid_amount + bid_step item;
}

module _ (digits : ℕ → ℕ) where
  -- The comparison of `sortBidHistory` is not positive.
  abbrev pub precedes : LogItem → LogItem → Bool
  precedes a b =
      if a.amount == b.amount
      then (if is_just_now a && not (is_just_now b)
          then true
          else if is_just_now b && not (is_just_now a)
          then false
          else leb (digits b.id) (digits a.id))
      else ltb b.amount a.amount

  -- `sortBidHistory`
  unfoldable pub sort_bid_history : List LogItem → List LogItem
  sort_bid_history bids = sort_by precedes bids

  abbrev pub amount_of_first : List LogItem → ℕ → ℕ
  amount_of_first [] price = price
  amount_of_first (b ∷ bids) price = b.amount

  -- `displayCurrentPrice`
  unfoldable pub display_current_price : Page → ℕ
  unfolding sort_bid_history
  display_current_price s =
      max s.current_price (amount_of_first (sort_bid_history s.bid_history) s.current_price)

  -- `minBid`
  unfoldable pub min_bid : Item → Page → ℕ
  unfolding display_current_price
  min_bid item s = display_current_price s + bid_step item

  -- `handleBid` until the request, for a user with a balance, with the text of the least bid
  unfoldable pub handle_bid : (ℕ → String) → Option ℤ → Item → Page → Press
  unfolding begin_bid min_bid
  handle_bid too_low none item s = needs_login
  handle_bid too_low (some balance) item s =
      if ltb s.bid_amount (min_bid item s)
      then shows_error (with_error (too_low (min_bid item s)) s)
      else if is_below balance s.bid_amount
      then shows_error (with_error "잔액이 부족합니다." s)
      else sends s.bid_amount (begin_bid item s)

-- The answer to the request: the price that the server has.
unfoldable pub succeed : Item → ℕ → Page → Page
succeed item price s = record s { current_price = price; bid_amount = price + bid_step item }

-- The request has failed: what the optimistic update of the state `before` set is taken back unless
-- it has changed since.
unfoldable pub fail : Item → Page → String → Page → Page
fail item before msg s = record s {
  current_price =
      if s.current_price == before.bid_amount then before.current_price else s.current_price;
  bid_amount =
      if s.bid_amount == before.bid_amount + bid_step item then before.bid_amount else s.bid_amount;
  bid_error = msg;
}

-- `handleBidAmountChange`
unfoldable pub handle_bid_amount_change : ℕ → Page → Page
handle_bid_amount_change value s = record s { bid_amount = value; bid_error = "" }

abbrev pub is_terminal : ItemStatus → Bool
is_terminal ongoing = false
is_terminal ending_soon = false
is_terminal _ = true

-- `isAuctionActive`, with whether the countdown has run out
unfoldable pub is_auction_active : Bool → Item → Page → Bool
is_auction_active is_expired item s =
    not (is_terminal item.status || is_expired || is_some s.closed_payload)

-- `displayStatus`
abbrev status_after : Option Closed → ItemStatus → ItemStatus
status_after none t = t
status_after (some p) t = if p.is_buy_now then buy_now else closed

unfoldable pub display_status : Item → Page → ItemStatus
display_status item s = status_after s.closed_payload item.status

-- A message of the stream as far as `onMessage` reads it: fields may be missing or of another type.
pub data Event : Type 0 where
  new_bid : LogItem → Event
  auction_closed : Option ℕ → String → Option ℕ → Event
  other : Event

abbrev closed_by : ℕ → String → Option ℕ → Option Closed
closed_by price status winner =
    if same_text status "buy_now" || same_text status "CLOSED"
    then some (record {
      is_buy_now = same_text status "buy_now";
      winner_user_id = winner;
      final_price = price;
    })
    else none

abbrev or_same : Option Closed → Page → Page
or_same none s = s
or_same (some p) s = handle_auction_closed p s

-- `onMessage` of `useAuctionEvents` with the handlers of the page
unfoldable pub on_message : Event → Page → Page
unfolding handle_new_bid handle_auction_closed
on_message (new_bid b) s = handle_new_bid b s
on_message (auction_closed none status winner) s = s
on_message (auction_closed (some price) status winner) s = or_same (closed_by price status winner) s
on_message other s = s
