-- ===== src/Maintenance/Range.antt =====
-- services/maintenance-report.service.ts `resolveRange`
use ufcim_backend_proto.Prelude.{ℕ, ◌+◌, ◌-◌, Option, none, some, ltb}
use ufcim_backend_proto.Errors.{
  Result, ok, err, app, internal, ◌>>=◌, ◌>>◌, throw_if, app_error, invalid_date,
  invalid_date_range, range_too_large, bad_dates, dates_out_of_order, range_limit,
}
use ufcim_backend_proto.Maintenance.{
  max_maintenance_range_days, day_ms, ResolvedRange, campus_midnight_ms, round_div,
}

-- A date of the query: absent, no date, or a date.
pub data DateInput : Type 0 where
  absent no_date : DateInput
  date : ℕ → DateInput

pub record MaintenanceRangeInput : Type 0 where
  pub from : DateInput
  pub to : DateInput

-- `input.to ?? campusToday(now)`; `none` is a text that is no date.
abbrev pub date_or : DateInput → Option ℕ → Option ℕ
date_or absent default = default
date_or no_date default = none
date_or (date d) default = some d

-- `new Date(…).toISOString()` throws on a text that is no date. Dates before 1970 are not modelled: the
-- shift stops at 1970-01-01.
abbrev pub shift_back : ℕ → Option ℕ → Result (Option ℕ)
shift_back days none = err internal
shift_back days (some d) = ok (some (d - days))

abbrev pub first_date : DateInput → Option ℕ → Result (Option ℕ)
first_date absent to = shift_back (max_maintenance_range_days - 1) to
first_date input to = ok (date_or input none)

abbrev pub both : Option ℕ → Option ℕ → Result (ℕ × ℕ)
both (some a) (some b) = ok (a, b)
both _ _ = err (app (app_error 400 invalid_date bad_dates))

abbrev pub day_count : ℕ → ℕ → ℕ
day_count from to = round_div (campus_midnight_ms to - campus_midnight_ms from) day_ms + 1

unfoldable pub check_range : ℕ × ℕ → Result ResolvedRange
check_range (from, to) = do
  throw_if (ltb (campus_midnight_ms to) (campus_midnight_ms from))
      (app_error 400 invalid_date_range dates_out_of_order)
  throw_if (ltb max_maintenance_range_days (day_count from to))
      (app_error 400 range_too_large range_limit)
  ok (record {
    from = from;
    to = to;
    days = day_count from to;
    start_ms = campus_midnight_ms from;
    end_ms = campus_midnight_ms to + day_ms;
  })

unfoldable pub resolve_range : MaintenanceRangeInput → ℕ → Result ResolvedRange
resolve_range input today = do
  first ← first_date input.from (date_or input.to (some today))
  dates ← both first (date_or input.to (some today))
  check_range dates
