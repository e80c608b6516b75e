-- ===== src/Auctions.antt =====
-- Bidding in backend/src/auctions/auctions.service.ts: the soft close, and the transactions of the
-- bid of a user and of the bid of a bot. A method's `now` and the id of the row that it inserts are arguments.
pub mod Methods
pub mod Editing
pub mod Bidding
pub mod SoftClose
pub mod Prices
pub mod Deletion
pub mod Patching
mod Tests
mod EditTests
use sneakerbid.Base.{
  ℕ, ◌+◌, ◌-◌, ◌*◌, Bool, true, false, Option, none, some, List, [], ◌∷◌, ◌&&◌, ◌||◌, ◌==◌, ltb,
  leb, if◌then◌else◌, not, length, filter_by, any, same_id, or_else, String,
}
use sneakerbid.Store.Rows.{User, Auction, Bid, Db, BidSourceType, is_opened, Wishlist, Sneaker}
use sneakerbid.Store.Table.{find}
use sneakerbid.Store.Tx.{
  Tx, Error, Result, ok, err, ◌>>=◌, ◌>>◌, pure, gets, or_throw, throw_if, null_if, or_null,
}
use sneakerbid.Store.Client.{
  auction_find, auction_bids, auction_update, bid_create, auction_check, active_bids,
}
use sneakerbid.Store.Lock.{lock_auction_for_update, open_after}
use sneakerbid.Wallet.{hold_for_bid}

-- backend/src/common/constants/auction.constants.ts
abbrev pub soft_close_extend_threshold_sec : ℕ
soft_close_extend_threshold_sec = 10

abbrev pub soft_close_extend_by_minutes : ℕ
soft_close_extend_by_minutes = 5

abbrev pub soft_close_max_extend_count : ℕ
soft_close_max_extend_count = 3

-- `msUntilEnd <= threshold`, for an end before `now` too.
abbrev pub closes_soon : ℕ → ℕ → Bool
closes_soon end_time now = leb end_time (now + soft_close_extend_threshold_sec * 1000)

-- The auction with the data of `buildBidUpdateData` written to it.
unfoldable pub build_bid_update_data : ℕ → ℕ → Auction → Auction
build_bid_update_data now bid_price a =
    if closes_soon a.end_time now && ltb a.extend_count soft_close_max_extend_count
    then record a {
      current_price = bid_price;
      end_time = a.end_time + soft_close_extend_by_minutes * 60000;
      last_extended_at = some now;
      extend_count = a.extend_count + 1;
    }
    else record a { current_price = bid_price }

-- `auction.bids?.[0]?.userId ?? null`
abbrev pub leader_of : List Bid → Option ℕ
leader_of [] = none
leader_of (b ∷ _) = some b.user_id

abbrev pub new_bid_row : ℕ → ℕ → ℕ → ℕ → BidSourceType → Option ℕ → Bid
new_bid_row bid_id auction_id user_id bid_price source strategy = record {
  id = bid_id;
  auction_id = auction_id;
  user_id = user_id;
  bid_price = bid_price;
  source_type = source;
  strategy_type = strategy;
  disqualified_at = none;
}

abbrev pub min_bid : Auction → ℕ
min_bid a = a.current_price + a.minimum_increment

-- The transaction of `placeBid`: the previous leader, when the bid is taken.
unfoldable pub place_bid_tx : ℕ → ℕ → ℕ → ℕ → ℕ → Tx (Option ℕ)
unfolding lock_auction_for_update auction_find auction_bids bid_create hold_for_bid auction_update
place_bid_tx bid_id auction_id bid_price user_id now = do
  locked ← lock_auction_for_update auction_id (open_after now)
  throw_if (not locked) Error.auction_not_found
  found ← auction_find auction_id
  a ← or_throw found Error.auction_not_found
  bids ← auction_bids auction_id
  throw_if (a.seller_user_id == user_id) Error.own_auction
  throw_if (same_id (leader_of bids) (some user_id)) Error.already_leading
  throw_if (not (is_opened a.status)) Error.not_open
  throw_if (leb a.end_time now) Error.already_ended
  throw_if (ltb bid_price (min_bid a)) (Error.bid_too_low (min_bid a))
  bid_create (new_bid_row bid_id auction_id user_id bid_price BidSourceType.from_user none)
  held ← hold_for_bid user_id bid_price bid_id
  throw_if (not held) Error.insufficient_balance
  auction_update auction_id (build_bid_update_data now bid_price)
  pure (leader_of bids)

-- The transaction of `placeBidAsBot`. A guard that fails returns `null`, which commits.
unfoldable pub place_bid_as_bot_tx : ℕ → ℕ → ℕ → ℕ → ℕ → ℕ → Tx (Option (Option ℕ))
unfolding lock_auction_for_update auction_find auction_bids bid_create hold_for_bid auction_update
place_bid_as_bot_tx bid_id auction_id bid_price bot_user_id strategy now = do
  locked ← lock_auction_for_update auction_id (open_after now)
  null_if (not locked) (do
    found ← auction_find auction_id
    or_null found λ a. null_if (not (is_opened a.status)) (
        null_if (leb a.end_time now) (
          null_if (a.seller_user_id == bot_user_id) (do
            bids ← auction_bids auction_id
            null_if (same_id (leader_of bids) (some bot_user_id)) (
                null_if (ltb bid_price (min_bid a)) (do
                  bid_create (
                      new_bid_row bid_id auction_id bot_user_id bid_price BidSourceType.from_bot
                        (some strategy))
                  held ← hold_for_bid bot_user_id bid_price bid_id
                  null_if (not held) (do
                    auction_update auction_id (build_bid_update_data now bid_price)
                    pure (some (leader_of bids)))))))))
