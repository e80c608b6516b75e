-- ===== src/Browser/Times.antt =====
-- The time that is left: frontend/hooks/useCountdown.ts and useRemainingTime.ts with
-- `formatCountdown` and `formatRemainingTime` of frontend/lib/util/format.ts. The text of a number is
-- a parameter, and so is the number that a text reads as.
pub mod Reading
mod Tests
use sneakerbid.Base.{
  ℕ, ◌+◌, ◌-◌, ◌*◌, ◌/◌, ◌%◌, Bool, ◌==◌, ltb, if◌then◌else◌, String, append_text, same_text,
}

-- `Math.max(0, Math.floor((endTime - now) / 1000))`
unfoldable pub get_remaining_seconds : ℕ → ℕ → ℕ
get_remaining_seconds end_time now = (end_time - now) / 1000

-- `isExpired`
unfoldable pub is_expired : ℕ → ℕ → Bool
unfolding get_remaining_seconds
is_expired end_time now = get_remaining_seconds end_time now == 0

-- Hours, minutes and seconds
pub record Clock : Type 0 where
  pub hours : ℕ
  pub minutes : ℕ
  pub seconds : ℕ

unfoldable pub clock_of : ℕ → Clock
clock_of total = record {
  hours = total / 3600;
  minutes = (total % 3600) / 60;
  seconds = total % 60;
}

abbrev pub seconds_of : Clock → ℕ
seconds_of c = c.hours * 3600 + c.minutes * 60 + c.seconds

module _ (number_text : ℕ → String) where
  -- `padStart(2, '0')`, of a number
  abbrev pub padded : ℕ → String
  padded n = if ltb n 10 then append_text "0" (number_text n) else number_text n

  -- `formatCountdown`
  unfoldable pub format_countdown : ℕ → String
  unfolding clock_of
  format_countdown total =
      let c = clock_of total in
      append_text (padded c.hours)
        (append_text ":" (append_text (padded c.minutes) (append_text ":" (padded c.seconds))))

  -- `formatRemainingTime`
  unfoldable pub format_remaining_time : ℕ → ℕ → String
  unfolding get_remaining_seconds format_countdown
  format_remaining_time end_time now = format_countdown (get_remaining_seconds end_time now)

  -- Whether `useRemainingTime` sets a timer after the first update.
  abbrev pub goes_on : ℕ → ℕ → Bool
  goes_on end_time now =
      if same_text (format_remaining_time end_time now) "00:00:00" then Bool.false else Bool.true
