-- ===== src/Maintenance/Counts.antt =====
-- services/maintenance-report.service.ts `computeCounts`, `lastReport`
use ufcim_backend_proto.Prelude.{
  ℕ, ◌*◌, Bool, true, false, ◌&&◌, Option, none, some, List, [], ◌∷◌, ltb, leb, min, select, length,
  if◌then◌else◌,
}
use ufcim_backend_proto.Equipment.{
  EquipmentStatus, working, Severity, minor, ReportStatus, resolved, dismissed, is_open_status,
  Report, HistoryRow,
}
use ufcim_backend_proto.Maintenance.{
  day_ms, ResolvedRange, Interval, round_div, is_broken, is_transition, in_range,
}
use ufcim_backend_proto.Maintenance.Intervals.{overlap_ms}

-- `time_in_broken_days` counts tenths.
pub record MaintenanceCounts : Type 0 where
  pub report_count : ℕ
  pub open_count : ℕ
  pub resolved_count : ℕ
  pub dismissed_count : ℕ
  pub breakdown_count : ℕ
  pub repair_count : ℕ
  pub time_in_broken_days : ℕ
  pub recurrences : ℕ
  pub is_recurrent : Bool

-- `SERIOUS_SEVERITIES`
abbrev pub is_serious_severity : Severity → Bool
is_serious_severity minor = false
is_serious_severity _ = true

abbrev pub is_resolved : ReportStatus → Bool
is_resolved resolved = true
is_resolved _ = false

abbrev pub is_dismissed : ReportStatus → Bool
is_dismissed dismissed = true
is_dismissed _ = false

abbrev pub is_repaired : EquipmentStatus → Bool
is_repaired working = true
is_repaired _ = false

abbrev pub broken_ms : List Interval → ResolvedRange → ℕ → ℕ
broken_ms intervals range now_ms = overlap_ms intervals range.start_ms (min range.end_ms now_ms)

abbrev pub recurrences_of : List Report → ℕ
recurrences_of reports =
    length (select (λ r. is_resolved r.status && is_serious_severity r.severity) reports)

abbrev pub transitions_of : List HistoryRow → ResolvedRange → List HistoryRow
transitions_of history range = select (λ h. is_transition h && in_range range h.changed_at) history

unfoldable pub compute_counts :
    List Report → List HistoryRow → List Interval → ResolvedRange → ℕ → MaintenanceCounts
compute_counts reports history intervals range now_ms = record {
  report_count = length reports;
  open_count = length (select (λ r. is_open_status r.status) reports);
  resolved_count = length (select (λ r. is_resolved r.status) reports);
  dismissed_count = length (select (λ r. is_dismissed r.status) reports);
  breakdown_count = length (select (λ h. is_broken h.to_status) (transitions_of history range));
  repair_count = length (select (λ h. is_repaired h.to_status) (transitions_of history range));
  time_in_broken_days = round_div (broken_ms intervals range now_ms * 10) day_ms;
  recurrences = recurrences_of reports;
  is_recurrent = leb 2 (recurrences_of reports);
}

-- The first of those created last.
abbrev pub later_report : Option Report → Report → Option Report
later_report none r = some r
later_report (some latest) r = if ltb latest.created_at r.created_at then some r else some latest

abbrev pub last_from : Option Report → List Report → Option Report
last_from latest [] = latest
last_from latest (r ∷ rs) = last_from (later_report latest r) rs

unfoldable pub last_report : List Report → Option Report
last_report reports = last_from none reports
