-- ===== src/Browser/Reconnecting.antt =====
-- The stream of events with its reconnection: frontend/hooks/useReconnectingEventSource.ts, with the
-- counter of frontend/store/useSSEConnectionStore.ts that `useAuctionEvents` and `useHistoryEvents`
-- give it as `onStatusChange`. Times are milliseconds. A closed EventSource fires no more events.
pub mod Backoff
mod Tests
use sneakerbid.Base.{
  ℕ, zero, suc, ◌+◌, ◌-◌, ◌*◌, min, Bool, true, false, Option, none, some, ◌≡◌, ◌≢◌, ltb,
  if◌then◌else◌, ◌&&◌,
}

abbrev pub initial_delay_ms : ℕ
initial_delay_ms = 1000

abbrev pub max_delay_ms : ℕ
max_delay_ms = 30000

-- `reconnectingCount`, with `addReconnecting` and `removeReconnecting`
unfoldable pub add_reconnecting : ℕ → ℕ
add_reconnecting count = count + 1

unfoldable pub remove_reconnecting : ℕ → ℕ
remove_reconnecting count = count - 1

-- `selectIsReconnecting`
abbrev pub select_is_reconnecting : ℕ → Bool
select_is_reconnecting count = ltb 0 count

-- The EventSource: there is none, it is opening, or it is open.
pub data Connection : Type 0 where
  idle opening live : Connection

-- The references of the hook, whether its effect runs, and the counter that it shares with others.
pub record Source : Type 0 where
  pub connection : Connection
  pub delay : ℕ
  pub timer : Option ℕ
  pub mounted : Bool
  pub enabled : Bool
  pub count : ℕ

-- A component appears with the effect, where there is a URL and the hook is enabled.
unfoldable pub start : ℕ → Source
start count = record {
  connection = opening;
  delay = initial_delay_ms;
  timer = none;
  mounted = true;
  enabled = true;
  count = count;
}

-- `onopen`
unfoldable pub handle_open : Source → Source
unfolding remove_reconnecting
handle_open s = record s {
  connection = live;
  delay = initial_delay_ms;
  count = remove_reconnecting s.count;
}

-- The cleanup of the effect, when the hook is disabled.
unfoldable pub stop : Source → Source
unfolding remove_reconnecting
stop s = record s {
  connection = idle;
  delay = initial_delay_ms;
  timer = none;
  enabled = false;
  count = remove_reconnecting s.count;
}

-- The effect again.
unfoldable pub restart : Source → Source
restart s = record s { connection = opening; enabled = true }

-- The component goes away: the cleanups of both effects.
unfoldable pub unmount : Source → Source
unfolding stop
unmount s = record (if s.enabled then stop s else s) { timer = none; mounted = false }

module _ (max_delay : ℕ) where
  -- The callback of the timer.
  unfoldable pub fire : Source → Source
  fire s =
      if s.mounted
      then record s { timer = none; delay = min (s.delay * 2) max_delay; connection = opening }
      else record s { timer = none }

  module _ (reconnect : Bool) where
    -- `scheduleReconnect`
    unfoldable pub schedule_reconnect : Source → Source
    unfolding add_reconnecting
    schedule_reconnect s =
        if s.mounted && reconnect
        then record s {
          connection = idle;
          timer = some (min s.delay max_delay);
          count = add_reconnecting s.count;
        }
        else s

    -- `handleError`
    unfoldable pub handle_error : Source → Source
    unfolding schedule_reconnect
    handle_error s = if s.mounted then schedule_reconnect s else s

    -- What can happen: an EventSource opens, or fails whether it was open or not; a timer that was
    -- set fires; the hook is disabled or enabled; the component goes away.
    pub data Step : Source → Source → Type 0 where
      opens : (s : Source) → s.connection ≡ opening → Step s (handle_open s)
      fails : (s : Source) → s.connection ≢ idle → Step s (handle_error s)
      fires : (s : Source) (d : ℕ) → s.timer ≡ some d → Step s (fire s)
      stops : (s : Source) → s.mounted ≡ true → s.enabled ≡ true → Step s (stop s)
      restarts : (s : Source) → s.mounted ≡ true → s.enabled ≡ false → Step s (restart s)
      leaves : (s : Source) → s.mounted ≡ true → Step s (unmount s)

    pub data Reach : ℕ → Source → Type 0 where
      begins : (count : ℕ) → Reach count (start count)
      goes : (count : ℕ) (s t : Source) → Reach count s → Step s t → Reach count t

    -- A connection that fails again and again, until a timer has fired after each failure.
    unfoldable pub fail_times : ℕ → Source → Source
    unfolding handle_error fire
    fail_times zero s = s
    fail_times (suc n) s = fire (handle_error (fail_times n s))
