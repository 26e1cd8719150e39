-- ===== src/Maintenance/Agreement.antt =====
-- services/maintenance-report.service.ts: what the parts of one report say of each other.
use ufcim_backend_proto.Prelude.{
  ℕ, ◌≡◌, sym, ◌∙◌, ap, ◌*◌, ◌+◌, Bool, true, ◌&&◌, Option, some, List, [], ◌∷◌, arith, All,
  All-map_pred, select, Bool-cases, inl, inr, ltb,
}
use ufcim_backend_proto.Errors.{ok, >>=-eq-ok}
use ufcim_backend_proto.Reservation.Guards.{found}
use ufcim_backend_proto.Equipment.{EquipmentDb}
use ufcim_backend_proto.Equipment.Items.{find_equipment}
use ufcim_backend_proto.Maintenance.{ResolvedRange, day_ms, round_div, in_range}
use ufcim_backend_proto.Maintenance.Range.{MaintenanceRangeInput, resolve_range}
use ufcim_backend_proto.Maintenance.Intervals.{broken_intervals}
use ufcim_backend_proto.Maintenance.Counts.{compute_counts, broken_ms}
use ufcim_backend_proto.Maintenance.Series.{SeriesPoint, campus_date, day_broken_ms}
use ufcim_backend_proto.Maintenance.Report.{
  EquipmentReport, report_of, reports_in_range, is_in_query, history_until, get_equipment_report,
}
use ufcim_backend_proto.Maintenance.Totals.{sum_of, build_series-adds_up}
use ufcim_backend_proto.Maintenance.Timelines.{All-sort}

select-All {ℓ} : {A : Type ℓ} (q : A → Bool) (xs : List A) → All (λ x. q x ≡ true) (select q xs)
select-All q [] = tt
select-All q (x ∷ xs) = elim (Bool-cases (q x)) [
  | inl t ↦ rw t (t, select-All q xs)
  | inr f ↦ rw f (select-All q xs)
]

inside : (a b : Bool) → (a && b) ≡ true → a ≡ true
inside a b h = ground arith

reports_in_range-inside :
    (range : ResolvedRange) (id : Option ℕ) (db : EquipmentDb)
    → All (λ r. in_range range r.created_at ≡ true) (reports_in_range range id db)
reports_in_range-inside range id db =
    All-sort (λ a b. ltb a.created_at b.created_at) (λ r. in_range range r.created_at ≡ true)
      (select (is_in_query range id) db.reports)
      (All-map_pred (select (is_in_query range id) db.reports)
        (λ r h. inside (in_range range r.created_at) _ h)
        (select-All (is_in_query range id) db.reports))

-- In a report on one equipment, the daily numbers of reports add up to the number of reports in the
-- summary, and the broken time of the summary, in tenths of a day, is the sum of the days' broken
-- time, from the intervals of the history up to the range's end, rounded once.
pub get_equipment_report-agrees :
    (now_ms id : ℕ) (input : MaintenanceRangeInput) (db : EquipmentDb) {report : EquipmentReport}
    → get_equipment_report now_ms id input db ≡ ok report
    → (sum_of (λ (p : SeriesPoint). p.reports) report.series ≡ report.summary.report_count)
      × (report.summary.time_in_broken_days
          ≡ round_div
              (sum_of
                  (λ (p : SeriesPoint).
                    day_broken_ms
                      (broken_intervals (history_until report.range (some id) db) now_ms ∷ [])
                      p.date
                      now_ms)
                  report.series
                * 10)
              day_ms)
unfolding get_equipment_report compute_counts
get_equipment_report-agrees now_ms id input db {report} h =
    let (range, ranged, rest) = >>=-eq-ok (resolve_range input (campus_date now_ms)) _ h in
    let (item, there, last) = >>=-eq-ok (found (find_equipment id db)) _ rest in
    let reports = reports_in_range range (some id) db in
    let history = history_until range (some id) db in
    let intervals = broken_intervals history now_ms in
    let same : report_of reports history range now_ms db item ≡ report = cc in
    let (count, time) =
      build_series-adds_up input (campus_date now_ms) range reports (intervals ∷ []) now_ms ranged
        (reports_in_range-inside range (some id) db) in
    let total : broken_ms intervals range now_ms + 0 ≡ broken_ms intervals range now_ms =
      omega arith in
    rw⁻¹ same (count, ap (λ n. round_div (n * 10) day_ms) (sym (time ∙ total)))
