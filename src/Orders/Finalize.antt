-- ===== src/Orders/Finalize.antt =====
-- What backend/src/orders/orders.service.ts does after the commit of a closing: the losers' holds
-- are released and the result is sent. A failure stores the result, and a later run tries again.
use sneakerbid.Base.{ℕ, Bool, Option, none, some, List, [], ◌∷◌, if◌then◌else◌, is_some}
use sneakerbid.Store.Json.{Json}
use sneakerbid.Store.Rows.{Auction, Db, Sneaker, is_opened}
use sneakerbid.Store.Table.{find}
use sneakerbid.Store.Tx.{Result, ok, err}
use sneakerbid.Store.Client.{auction_update}
use sneakerbid.Service.{
  Action, World, Message, HistoryItem, ClosedBy, ◌>>=◌, ◌>>◌, pure, reads, in_transaction,
  if_reached, attempt, send, emit_new_deal,
}
use sneakerbid.Auctions.Methods.{count_by_auction_id, joined_sneaker}
use sneakerbid.Orders.Payload.{
  CloseResult, LosingBid, close_result_to_db_payload, parse_close_result_from_payload,
}
use sneakerbid.Orders.{release_all}

abbrev history_of : Option Auction → Option Sneaker → ℕ → Option HistoryItem
history_of (some a) (some s) count =
    if is_opened a.status
    then none
    else some (record {
      auction_id = a.id;
      brand = s.brand;
      model_name = s.model_name;
      participants = count;
      final_price = a.current_price;
      completed = is_some a.winner_user_id;
    })
history_of _ _ count = none

-- `getTradeHistoryItem` of backend/src/auctions/auctions.service.ts
unfoldable pub get_trade_history_item : ℕ → Db → Option HistoryItem
unfolding count_by_auction_id
get_trade_history_item auction_id db =
    let a = find (λ x. x.id) auction_id db.auctions in
    history_of a (joined_sneaker a db) (count_by_auction_id auction_id db)

-- Whether the database can be reached at each of the calls after the commit.
pub record Weather : Type 0 where
  pub history_reached : Bool
  pub release_reached : Bool
  pub clear_reached : Bool
  pub persist_reached : Bool

abbrev pub set_payload : Option Json → Auction → Auction
set_payload p a = record a { post_close_finalize_payload = p }

-- `persistPostCloseFinalizePayload` and `clearPostCloseFinalizePayload`
unfoldable pub persist_post_close_finalize_payload : CloseResult → Action (Option Auction)
persist_post_close_finalize_payload r =
    in_transaction (auction_update r.auction_id (set_payload (some (close_result_to_db_payload r))))

unfoldable pub clear_post_close_finalize_payload : ℕ → Action (Option Auction)
clear_post_close_finalize_payload auction_id =
    in_transaction (auction_update auction_id (set_payload none))

-- The releases in one transaction, if there are losers at all.
abbrev pub release_losers : Bool → List LosingBid → Action (Unit {0})
release_losers reached [] = pure tt
release_losers reached (l ∷ ls) = if_reached reached (in_transaction (release_all (l ∷ ls)))

abbrev pub notify_winner : CloseResult → Option ℕ → Action (Unit {0})
notify_winner r none = pure tt
notify_winner r (some user_id) = send (Message.auction_won user_id r.auction_id r.final_price)

-- A failure to clear the payload is logged, not thrown.
abbrev pub clear_or_log : Bool → ℕ → Action (Unit {0})
clear_or_log reached auction_id w =
    (ok tt, attempt (if_reached reached (clear_post_close_finalize_payload auction_id) w))

-- What is sent once the holds are released; then the payload is cleared.
abbrev pub announce : Bool → Option HistoryItem → Option ℕ → CloseResult → Action (Unit {0})
announce clear_reached item winner r = do
  send (Message.auction_closed r.auction_id ClosedBy.time_or_admin winner r.final_price)
  emit_new_deal item
  notify_winner r winner
  clear_or_log clear_reached r.auction_id

-- `finalizeAuctionClose`
unfoldable pub finalize_auction_close : Weather → CloseResult → Action (Unit {0})
finalize_auction_close weather r = do
  item ← if_reached weather.history_reached (reads (get_trade_history_item r.auction_id))
  release_losers weather.release_reached r.losing_bids
  announce weather.clear_reached item r.winner_user_id r

abbrev pub persist_or_log :
    Bool → CloseResult → Result (Unit {0}) × World → Result (Unit {0}) × World
persist_or_log reached r (ok _, w) = (ok tt, w)
persist_or_log reached r (err _, w) =
    (ok tt, attempt (if_reached reached (persist_post_close_finalize_payload r) w))

-- `safeFinalizeAuctionClose`: after a failure the result is stored for a retry.
unfoldable pub safe_finalize_auction_close : Weather → CloseResult → Action (Unit {0})
safe_finalize_auction_close weather r w =
    persist_or_log weather.persist_reached r (finalize_auction_close weather r w)

-- One row of `processPendingPostCloseFinalizes`: a payload that cannot be read is dropped.
abbrev pub retry_parsed : Weather → ℕ → Option CloseResult → Action (Unit {0})
retry_parsed weather auction_id none = do
  if_reached weather.clear_reached (clear_post_close_finalize_payload auction_id)
  pure tt
retry_parsed weather auction_id (some r) =
    λ w. (ok tt, attempt (finalize_auction_close weather r w))

-- A row of `findClosedWithPendingPostCloseFinalize`, with the weather of its turn.
pub record PendingRow : Type 0 where
  pub id : ℕ
  pub payload : Json
  pub weather : Weather

-- `processPendingPostCloseFinalizes`, over the rows that its query returned.
unfoldable pub process_pending_post_close_finalizes : List PendingRow → Action (Unit {0})
process_pending_post_close_finalizes [] = pure tt
process_pending_post_close_finalizes (row ∷ rows) =
    let rest = process_pending_post_close_finalizes rows in
    retry_parsed row.weather row.id (parse_close_result_from_payload row.id row.payload) >> rest
