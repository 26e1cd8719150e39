-- ===== src/Maintenance/Bounds.antt =====
-- services/maintenance-report.service.ts `resolveRange`: the bounds of a range.
use ufcim_backend_proto.Prelude.{
  ℕ, ◌≡◌, refl, sym, ap, subst, ◌∙◌, Option, none, ◌+◌, ◌-◌, ◌*◌, ◌≤◌, some, arith, ltb,
}
use ufcim_backend_proto.Errors.{
  ok, >>=-eq-ok, throw_if-eq-ok, throw_if, ◌>>◌, app_error, invalid_date_range, dates_out_of_order,
  range_too_large, range_limit,
}
use ufcim_backend_proto.Maintenance.{
  max_maintenance_range_days, day_ms, ResolvedRange, campus_midnight_ms,
}
use ufcim_backend_proto.Maintenance.Range.{
  DateInput, absent, no_date, date, MaintenanceRangeInput, day_count, check_range, resolve_range,
  first_date, date_or, both,
}

day_count-eq : (from to : ℕ) → from ≤ to → day_count from to ≡ to - from + 1
day_count-eq from to h = omega (arith, h)

pub check_range-bounds :
    (from to : ℕ) {range : ResolvedRange}
    → check_range (from, to) ≡ ok range
    → (range.days ≡ range.to - range.from + 1)
      × (range.from ≤ range.to)
      × (range.days ≤ 90)
      × (range.start_ms ≡ campus_midnight_ms range.from)
      × (range.end_ms ≡ range.start_ms + range.days * day_ms)
unfolding check_range
check_range-bounds from to {range} h =
    let made : ResolvedRange = record {
      from = from;
      to = to;
      days = day_count from to;
      start_ms = campus_midnight_ms from;
      end_ms = campus_midnight_ms to + day_ms;
    } in
    let (ordered, rest) =
      throw_if-eq-ok (ltb (campus_midnight_ms to) (campus_midnight_ms from))
        (app_error 400 invalid_date_range dates_out_of_order)
        (throw_if (ltb max_maintenance_range_days (day_count from to))
            (app_error 400 range_too_large range_limit)
          >> ok made)
        h in
    let (few, last) =
      throw_if-eq-ok (ltb max_maintenance_range_days (day_count from to))
        (app_error 400 range_too_large range_limit) (ok made) rest in
    let same : made ≡ range = cc in
    let le : from ≤ to = ground (arith, ordered) in
    let few' : day_count from to ≤ 90 = ground (arith, few) in
    rw⁻¹ same (day_count-eq from to le, le, few', refl, omega (arith, le, day_count-eq from to le))

-- The date that a date of the query stands for, when an absent one stands for `default`.
abbrev pub StandsFor : DateInput → ℕ → ℕ → Type 0
StandsFor absent default d = d ≡ default
StandsFor no_date default d = ⊥
StandsFor (date asked) default d = d ≡ asked

date_or-StandsFor :
    (input : DateInput) (default d : ℕ)
    → date_or input (some default) ≡ some d
    → StandsFor input default d
date_or-StandsFor absent default d h = cc
date_or-StandsFor no_date default d h = cc
date_or-StandsFor (date asked) default d h = cc

both-eq-ok :
    (a b : Option ℕ) {dates : ℕ × ℕ} → both a b ≡ ok dates → (a ≡ some dates.0) × (b ≡ some dates.1)
both-eq-ok none b h = cc
both-eq-ok (some a) none h = cc
both-eq-ok (some a) (some b) {dates} h =
    let same : (a, b) ≡ dates = cc in
    (ap (λ (z : ℕ × ℕ). some z.0) same, ap (λ (z : ℕ × ℕ). some z.1) same)

first_date-StandsFor :
    (input : DateInput) (to : ℕ) {from : ℕ}
    → first_date input (some to) ≡ ok (some from)
    → StandsFor input (to - 89) from
first_date-StandsFor absent to h = cc
first_date-StandsFor no_date to h = cc
first_date-StandsFor (date asked) to h = cc

check_range-dates :
    (from to : ℕ) {range : ResolvedRange}
    → check_range (from, to) ≡ ok range
    → (range.from ≡ from) × (range.to ≡ to)
unfolding check_range
check_range-dates from to h = (ground (arith, h), ground (arith, h))

-- If a range is returned, its last date is the one asked for, or today if none is, and its first date
-- is the one asked for, or if none is the one 89 days before the last (no date lies before
-- 1970-01-01). It starts at or before its end, has at most 90 days, which are the dates from the first
-- to the last, and lasts from the first date's midnight on the campus for exactly that many days.
pub resolve_range-bounds :
    (input : MaintenanceRangeInput) (today : ℕ) {range : ResolvedRange}
    → resolve_range input today ≡ ok range
    → StandsFor input.to today range.to
      × StandsFor input.from (range.to - 89) range.from
      × (range.days ≡ range.to - range.from + 1)
      × (range.from ≤ range.to)
      × (range.days ≤ 90)
      × (range.start_ms ≡ campus_midnight_ms range.from)
      × (range.end_ms ≡ range.start_ms + range.days * day_ms)
unfolding resolve_range
resolve_range-bounds input today {range} h =
    let end = date_or input.to (some today) in
    let (first, begun, rest) = >>=-eq-ok (first_date input.from end) _ h in
    let (dates, paired, last) = >>=-eq-ok (both first end) check_range rest in
    let (is_from, is_to) = both-eq-ok first end paired in
    let (from, to) = check_range-dates dates.0 dates.1 last in
    let ends : StandsFor input.to today dates.1 = date_or-StandsFor input.to today dates.1 is_to in
    let begins : first_date input.from (some dates.1) ≡ ok (some dates.0) =
      ap (first_date input.from) (sym is_to) ∙ begun ∙ ap (λ o. ok o) is_from in
    let (count, order, few, start, finish) = check_range-bounds dates.0 dates.1 last in
    (
      subst (StandsFor input.to today) (sym to) ends,
      rw (from, to) (first_date-StandsFor input.from dates.1 begins),
      count,
      order,
      few,
      start,
      finish,
    )
