-- ===== src/Maintenance/Series.antt =====
-- services/maintenance-report.service.ts `buildSeries`
use ufcim_backend_proto.Prelude.{
  ℕ, zero, suc, ◌+◌, ◌-◌, ◌*◌, ◌/◌, List, [], ◌∷◌, ◌==◌, min, select, length,
}
use ufcim_backend_proto.Equipment.{Report}
use ufcim_backend_proto.Maintenance.{
  hour_ms, day_ms, ResolvedRange, Interval, campus_midnight_ms, round_div,
}
use ufcim_backend_proto.Maintenance.Intervals.{overlap_ms}

-- `broken_days` counts hundredths.
pub record SeriesPoint : Type 0 where
  pub date : ℕ
  pub reports : ℕ
  pub broken_days : ℕ

-- lib/clock.ts `campusToday` of a moment.
abbrev pub campus_date : ℕ → ℕ
campus_date ms = (ms - 3 * hour_ms) / day_ms

-- The number that the map holds under a date.
abbrev pub reports_on : List Report → ℕ → ℕ
reports_on reports date = length (select (λ r. campus_date r.created_at == date) reports)

unfoldable pub day_broken_ms : List (List Interval) → ℕ → ℕ → ℕ
day_broken_ms [] date now_ms = 0
day_broken_ms (intervals ∷ sets) date now_ms =
    overlap_ms intervals (campus_midnight_ms date) (min (campus_midnight_ms date + day_ms) now_ms)
    + day_broken_ms sets date now_ms

abbrev pub point_of : List Report → List (List Interval) → ℕ → ℕ → SeriesPoint
point_of reports sets now_ms date = record {
  date = date;
  reports = reports_on reports date;
  broken_days = round_div (day_broken_ms sets date now_ms * 100) day_ms;
}

abbrev pub points_from : List Report → List (List Interval) → ℕ → ℕ → ℕ → List SeriesPoint
points_from reports sets now_ms date zero = []
points_from reports sets now_ms date (suc days) =
    point_of reports sets now_ms date ∷ points_from reports sets now_ms (date + 1) days

unfoldable pub build_series :
    ResolvedRange → List Report → List (List Interval) → ℕ → List SeriesPoint
build_series range reports sets now_ms = points_from reports sets now_ms range.from range.days
