-- ===== src/Maintenance.antt =====
-- services/maintenance-report.service.ts: the report on broken equipment over a range of dates.
pub mod Range
pub mod Intervals
pub mod Counts
pub mod Series
pub mod Timeline
pub mod Report
pub mod Bounds
pub mod Timelines
pub mod Brokenness
pub mod Totals
pub mod Agreement
use ufcim_backend_proto.Prelude.{
  ℕ, ◌+◌, ◌*◌, ◌/◌, Bool, true, false, not, ◌&&◌, Option, none, some, ltb, leb, is_some,
}
use ufcim_backend_proto.Equipment.{EquipmentStatus, broken, working, same_status, HistoryRow}

abbrev pub max_maintenance_range_days : ℕ
max_maintenance_range_days = 90

abbrev pub hour_ms : ℕ
hour_ms = 60 * 60 * 1000

abbrev pub day_ms : ℕ
day_ms = 24 * 60 * 60 * 1000

-- From the first date's midnight to that after the last date, `end_ms`, which is outside.
pub record ResolvedRange : Type 0 where
  pub from : ℕ
  pub to : ℕ
  pub days : ℕ
  pub start_ms : ℕ
  pub end_ms : ℕ

pub record Interval : Type 0 where
  pub start : ℕ
  pub end : ℕ

-- Midnight on the campus is 03:00 UTC.
abbrev pub campus_midnight_ms : ℕ → ℕ
campus_midnight_ms date = date * day_ms + 3 * hour_ms

-- `Math.round(x / d)`: a half goes up.
abbrev pub round_div : ℕ → ℕ → ℕ
round_div x d = (2 * x + d) / (2 * d)

abbrev pub is_broken : EquipmentStatus → Bool
is_broken broken = true
is_broken _ = false

abbrev pub is_transition : HistoryRow → Bool
is_transition row = not (same_status row.from_status row.to_status)

abbrev pub in_range : ResolvedRange → ℕ → Bool
in_range range t = leb range.start_ms t && ltb t range.end_ms

unfoldable pub in_window : Option ℕ → ResolvedRange → Bool
in_window none range = false
in_window (some t) range = in_range range t
