-- ===== src/Browser/Times/Reading.antt =====
-- The clock that is shown and the time that is left.
use sneakerbid.Base.{ℕ, ◌+◌, ◌*◌, ◌≤◌, ◌<◌, true, ◌≡◌, ◌↔◌, arith}
use sneakerbid.Browser.Times.{get_remaining_seconds, is_expired, clock_of, seconds_of}

-- The clock that is shown of the time that is left has less than 60 minutes and seconds, it reads as
-- the whole seconds that are left, and the client takes the auction for over exactly when less than
-- a second is left.
pub clock_of-get_remaining_seconds :
    (end_time now : ℕ)
    → let c = clock_of (get_remaining_seconds end_time now) in
      (c.minutes < 60)
      × (c.seconds < 60)
      × (now ≤ end_time
          → (now + seconds_of c * 1000 ≤ end_time) × (end_time < now + (seconds_of c + 1) * 1000))
      × ((is_expired end_time now ≡ true) ↔ (end_time < now + 1000))
unfolding clock_of get_remaining_seconds is_expired
clock_of-get_remaining_seconds end_time now = (
  omega arith,
  omega arith,
  λ h. (omega arith, omega arith),
  (λ e. ground (arith, e), λ h. ground (arith, h)),
)
