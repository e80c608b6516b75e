-- ===== src/Browser/Reconnecting/Tests.antt =====
-- Runs of the stream of events of a client.
use sneakerbid.Base.{◌+◌, ◌-◌, true, some, ◌≡◌, refl, arith}
use sneakerbid.Browser.Reconnecting.{
  live, max_delay_ms, start, handle_error, handle_open, fail_times, select_is_reconnecting,
}
use sneakerbid.Browser.Reconnecting.Backoff.{handle_open-count}

-- A connection that has failed five times waits for the greatest delay.
sixth_delay :
    (handle_error max_delay_ms true (fail_times max_delay_ms true 5 (start 0))).timer ≡ some 30000
unfolding start fail_times
sixth_delay = refl

-- A connection that fails at first and opens afterwards.
handle_open-count_example :
    let s = handle_open (fail_times max_delay_ms true 2 (start 0)) in
    (s.connection ≡ live) × (s.count ≡ 0 + (2 - 1)) × (select_is_reconnecting s.count ≡ true)
handle_open-count_example = handle_open-count max_delay_ms 2 0 (omega arith)
