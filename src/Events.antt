-- ===== src/Events.antt =====
-- The streams of backend/src/events/events.service.ts: a subject for each auction and each user that
-- somebody listens to, with a count of the listeners, and what becomes of a message that arrives on
-- a channel of Redis. The heartbeat of a stream, which is a timer beside it, is not here.
pub mod Live
pub mod Delivery
mod Tests
use sneakerbid.Base.{
  ℕ, ◌+◌, ◌-◌, Bool, true, false, Option, none, some, List, [], ◌∷◌, ◌++◌, map, ◌==◌, if◌then◌else◌,
  any, String, same_text,
}
use sneakerbid.Store.Table.{remove}

-- A `Map` from ids.
abbrev pub Map : Type 0 → Type 0
Map V = ℕ → Option V

abbrev pub empty_map : {V : Type 0} → Map V
empty_map k = none

abbrev pub set : {V : Type 0} → ℕ → V → Map V → Map V
set k v m j = if j == k then some v else m j

abbrev pub delete : {V : Type 0} → ℕ → Map V → Map V
delete k m j = if j == k then none else m j

-- The subjects, each as its listeners in the order in which they came, and the counts.
pub record Hub : Type 0 where
  pub subjects : Map (List ℕ)
  pub ref_counts : Map ℕ

abbrev pub empty_hub : Hub
empty_hub = record { subjects = empty_map; ref_counts = empty_map }

-- `map.get(k) ?? 0`
abbrev pub or_zero : Option ℕ → ℕ
or_zero none = 0
or_zero (some n) = n

abbrev pub or_nobody : Option (List ℕ) → List ℕ
or_nobody none = []
or_nobody (some ls) = ls

-- `getOrCreateSubject` and `getOrCreateNotificationSubject`
unfoldable pub get_or_create_subject : ℕ → Hub → Hub
get_or_create_subject k h = record h { subjects = set k (or_nobody (h.subjects k)) h.subjects }

-- `incrementRefCount` and `incrementNotificationRefCount`
unfoldable pub increment_ref_count : ℕ → Hub → Hub
increment_ref_count k h = record h {
  ref_counts = set k (or_zero (h.ref_counts k) + 1) h.ref_counts;
}

abbrev cleaned_up : ℕ → ℕ → Hub → Hub
cleaned_up k next h =
    if next == 0
    then record { subjects = delete k h.subjects; ref_counts = delete k h.ref_counts }
    else record h { ref_counts = set k next h.ref_counts }

-- `decrementRefCountAndCleanup` and `decrementNotificationRefCountAndCleanup`. The difference on the
-- natural numbers is the `Math.max(0, count - 1)` of the source.
unfoldable pub decrement_ref_count_and_cleanup : ℕ → Hub → Hub
decrement_ref_count_and_cleanup k h = cleaned_up k (or_zero (h.ref_counts k) - 1) h

-- Subscribing to the subject of a key, and unsubscribing, which takes the listener's first entry.
abbrev pub listen : ℕ → ℕ → Hub → Hub
listen id k h = record h { subjects = set k (or_nobody (h.subjects k) ++ id ∷ []) h.subjects }

abbrev pub unlisten_subject : ℕ → ℕ → Option (List ℕ) → Hub → Hub
unlisten_subject id k none h = h
unlisten_subject id k (some ls) h = record h { subjects = set k (remove (λ x. x) id ls) h.subjects }

abbrev pub unlisten : ℕ → ℕ → Hub → Hub
unlisten id k h = unlisten_subject id k (h.subjects k) h

-- `streamAuction` and `streamNotifications`, once somebody subscribes,
unfoldable pub stream : ℕ → ℕ → Hub → Hub
unfolding get_or_create_subject increment_ref_count
stream id k h = listen id k (increment_ref_count k (get_or_create_subject k h))

-- and the function that they return for the end of the subscription.
unfoldable pub end_stream : ℕ → ℕ → Hub → Hub
unfolding decrement_ref_count_and_cleanup
end_stream id k h = decrement_ref_count_and_cleanup k (unlisten id k h)

-- What a listener gets.
pub record Event (P : Type 0) : Type 0 where
  pub type : String
  pub payload : Option P

-- `emitToAuctionLocal` and `emitToNotificationLocal`: each listener of the subject, if there is one.
unfoldable pub emit_to_local : {P : Type 0} → ℕ → Event P → Hub → List (ℕ × Event P)
emit_to_local k e h = map (λ id. (id, e)) (or_nobody (h.subjects k))

-- The channels of backend/src/common/constants/events.constants.ts
pub data Channel : Type 0 where
  sse_auction sse_history sse_notifications other_channel : Channel

-- `ALLOWED_AUCTION_EVENT_TYPES`
abbrev pub allowed_auction_event_types : List String
allowed_auction_event_types = "newBid" ∷ "auctionClosed" ∷ "ping" ∷ []

abbrev pub auction_event_type : Option String → String
auction_event_type none = "newBid"
auction_event_type (some t) = if any (same_text t) allowed_auction_event_types then t else "newBid"

-- `type ?? 'newDeal'`
abbrev pub history_event_type : Option String → String
history_event_type none = "newDeal"
history_event_type (some t) = t

-- The fields that are read of a message; `type` is missing where it is no text, as are the ids.
pub record Data (P : Type 0) : Type 0 where
  pub auction_id : Option ℕ
  pub user_id : Option ℕ
  pub type : Option String
  pub payload : Option P

-- The state of the service: the two maps with their counts, and the listeners of the history.
pub record Streams : Type 0 where
  pub auctions : Hub
  pub history : List ℕ
  pub notifications : Hub

abbrev pub to_auction : {P : Type 0} → Option ℕ → Data P → Streams → List (ℕ × Event P)
unfolding emit_to_local
to_auction none d s = []
to_auction (some k) d s =
    emit_to_local k (record { type = auction_event_type d.type; payload = d.payload }) s.auctions

abbrev pub to_user : {P : Type 0} → Option ℕ → Data P → Streams → List (ℕ × Event P)
unfolding emit_to_local
to_user none d s = []
to_user (some u) d s =
    emit_to_local u (record { type = "notification"; payload = d.payload }) s.notifications

-- The handler of `onModuleInit`, of a message that was parsed, or not: who gets what.
unfoldable pub on_message : {P : Type 0} → Channel → Option (Data P) → Streams → List (ℕ × Event P)
on_message c none s = []
on_message Channel.sse_auction (some d) s = to_auction d.auction_id d s
on_message Channel.sse_history (some d) s =
    map (λ id. (id, record { type = history_event_type d.type; payload = d.payload })) s.history
on_message Channel.sse_notifications (some d) s = to_user d.user_id d s
on_message Channel.other_channel (some d) s = []

module _ {P : Type 0} where
  -- `emitStatsUpdate`
  abbrev pub emit_stats_update : List (Channel × Data P)
  emit_stats_update =
      (
        Channel.sse_history,
        record { auction_id = none; user_id = none; type = some "statsUpdate"; payload = none },
      )
      ∷ []

  -- `emitNewDeal`: what is published, where Redis takes it.
  unfoldable pub emit_new_deal : P → List (Channel × Data P)
  emit_new_deal p =
      (
        Channel.sse_history,
        record { auction_id = none; user_id = none; type = some "newDeal"; payload = some p },
      )
      ∷ emit_stats_update

  -- `emitNewBid`
  unfoldable pub emit_new_bid : ℕ → P → List (Channel × Data P)
  emit_new_bid k p =
      (
        Channel.sse_auction,
        record { auction_id = some k; user_id = none; type = some "newBid"; payload = some p },
      )
      ∷ emit_stats_update

  -- `emitRecentBidToHistory`
  unfoldable pub emit_recent_bid_to_history : P → List (Channel × Data P)
  emit_recent_bid_to_history p =
      (
        Channel.sse_history,
        record { auction_id = none; user_id = none; type = some "newBid"; payload = some p },
      )
      ∷ emit_stats_update

  -- `emitAuctionClosed`
  unfoldable pub emit_auction_closed : ℕ → P → List (Channel × Data P)
  emit_auction_closed k p =
      (
        Channel.sse_auction,
        record {
          auction_id = some k;
          user_id = none;
          type = some "auctionClosed";
          payload = some p;
        },
      )
      ∷ []

  -- What `createAndPublish` of backend/src/notifications/notifications.service.ts publishes.
  abbrev pub publish_notification : ℕ → P → List (Channel × Data P)
  publish_notification u p =
      (
        Channel.sse_notifications,
        record { auction_id = none; user_id = some u; type = none; payload = some p },
      )
      ∷ []

  -- The messages arrive one after the other.
  abbrev pub on_messages : List (Channel × Data P) → Streams → List (ℕ × Event P)
  on_messages [] s = []
  on_messages ((c, d) ∷ ms) s = on_message c (some d) s ++ on_messages ms s
