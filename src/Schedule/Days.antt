-- ===== src/Schedule/Days.antt =====
-- lib/schedule.ts `datesBetween`, services/reservation.service.ts `generateRecurringDates`,
-- lib/clock.ts. A date is its day number since 1970-01-01: ISO dates (of four-digit years) compare
-- as these, and `Date` steps a UTC day by 1 and has weekday (day + 4) % 7, 0 for Sunday.
use ufcim_backend_proto.Prelude.{
  ℕ, zero, suc, ◌+◌, ◌-◌, ◌%◌, List, [], ◌∷◌, ◌==◌, if◌then◌else◌, any,
}

-- Campus-local time, read once per request: `campusToday()`, `campusNowMinutes()`, and
-- `new Date()` in milliseconds. The time zone's rules are `Intl`'s.
pub record Clock : Type 0 where
  pub campus_today : ℕ
  pub campus_now_minutes : ℕ
  pub now : ℕ

-- The days from `cursor` on, for as many rounds as the loop makes.
abbrev pub days_from : ℕ → ℕ → List ℕ
days_from cursor zero = []
days_from cursor (suc rounds) = cursor ∷ days_from (cursor + 1) rounds

-- `while (cursor <= end)`: none if `to` is before `from`.
unfoldable pub dates_between : ℕ → ℕ → List ℕ
dates_between from to = days_from from (to + 1 - from)

abbrev pub utc_day : ℕ → ℕ
utc_day date = (date + 4) % 7

abbrev pub recurring_from : List ℕ → ℕ → ℕ → List ℕ
recurring_from days cursor zero = []
recurring_from days cursor (suc rounds) =
    if any (λ d. d == utc_day cursor) days
    then cursor ∷ recurring_from days (cursor + 1) rounds
    else recurring_from days (cursor + 1) rounds

unfoldable pub generate_recurring_dates : ℕ → ℕ → List ℕ → List ℕ
generate_recurring_dates start end days = recurring_from days start (end + 1 - start)
