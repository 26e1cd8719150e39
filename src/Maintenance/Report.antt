-- ===== src/Maintenance/Report.antt =====
-- services/maintenance-report.service.ts `listEquipment`, `getEquipmentReport`
use ufcim_backend_proto.Prelude.{
  ℕ, Bool, true, false, not, ◌&&◌, ◌||◌, Option, none, some, List, [], ◌∷◌, ◌++◌, ◌==◌, ltb, any,
  find, select, length, is_some, holds_id, option_map, map, if◌then◌else◌,
}
use ufcim_backend_proto.Errors.{Result, ok, ◌>>=◌}
use ufcim_backend_proto.Reservation.Guards.{found}
use ufcim_backend_proto.Schema.{Space}
use ufcim_backend_proto.Equipment.{
  EquipmentStatus, same_status, Equipment, Severity, minor, major, blocking, Report, HistoryRow,
  EquipmentDb,
}
use ufcim_backend_proto.Equipment.Reports.{is_working}
use ufcim_backend_proto.Equipment.Items.{find_equipment}
use ufcim_backend_proto.Maintenance.{ResolvedRange, Interval, is_broken, is_transition, in_range}
use ufcim_backend_proto.Maintenance.Range.{MaintenanceRangeInput, resolve_range}
use ufcim_backend_proto.Maintenance.Intervals.{broken_intervals, sort_by, sort_history}
use ufcim_backend_proto.Maintenance.Counts.{MaintenanceCounts, compute_counts, last_report}
use ufcim_backend_proto.Maintenance.Series.{SeriesPoint, build_series, campus_date}
use ufcim_backend_proto.Maintenance.Timeline.{TimelineEvent, build_timeline}

pub record MaintenanceListFilters : Type 0 where
  pub range : MaintenanceRangeInput
  pub space_id : Option ℕ
  pub department_id : Option ℕ
  pub equipment_id : Option ℕ
  pub status : Option EquipmentStatus
  pub severity : Option Severity

-- `(!filter || filter === x)`
abbrev pub passes : Option ℕ → ℕ → Bool
passes none x = true
passes (some y) x = x == y

abbrev severity_code : Severity → ℕ
severity_code minor = 0
severity_code major = 1
severity_code blocking = 2

abbrev passes_severity : Option Severity → Severity → Bool
passes_severity none x = true
passes_severity (some y) x = severity_code x == severity_code y

abbrev passes_status : Option EquipmentStatus → EquipmentStatus → Bool
passes_status none x = true
passes_status (some y) x = same_status x y

-- The oldest history row: the first of an ascending order.
abbrev pub earlier : Option ℕ → ℕ → Option ℕ
earlier none t = some t
earlier (some s) t = if ltb t s then some t else some s

abbrev pub first_change : Option ℕ → List HistoryRow → Option ℕ
first_change t [] = t
first_change t (h ∷ hs) = first_change (earlier t h.changed_at) hs

abbrev pub history_since : EquipmentDb → Option ℕ
history_since db = first_change none db.history

abbrev wants : Option ℕ → Option ℕ → Bool
wants none target = true
wants (some id) target = holds_id target id

-- The query of the reports: about equipment, created in the range, in order.
abbrev pub is_in_query : ResolvedRange → Option ℕ → Report → Bool
is_in_query range id r =
    in_range range r.created_at && (is_some r.equipment_id && wants id r.equipment_id)

abbrev pub reports_in_range : ResolvedRange → Option ℕ → EquipmentDb → List Report
reports_in_range range id db =
    sort_by (λ a b. ltb a.created_at b.created_at) (select (is_in_query range id) db.reports)

abbrev pub history_until : ResolvedRange → Option ℕ → EquipmentDb → List HistoryRow
history_until range id db =
    sort_history
      (select (λ h. ltb h.changed_at range.end_ms && passes id h.equipment_id) db.history)

abbrev pub space_of : EquipmentDb → Equipment → Option Space
space_of db e = find (λ s. s.id == e.space_id) db.spaces

abbrev department_passes : Option ℕ → Option Space → Bool
department_passes none space = true
department_passes (some d) none = false
department_passes (some d) (some s) = s.department == d

abbrev pub is_selected : MaintenanceListFilters → EquipmentDb → Equipment → Bool
is_selected filters db e =
    passes filters.equipment_id e.id
    && (passes filters.space_id e.space_id
        && (passes_status filters.status e.status
            && department_passes filters.department_id (space_of db e)))

abbrev pub reports_of :
    MaintenanceListFilters → ResolvedRange → EquipmentDb → Equipment → List Report
reports_of filters range db e =
    select (λ r. holds_id r.equipment_id e.id && passes_severity filters.severity r.severity)
      (reports_in_range range filters.equipment_id db)

abbrev pub history_of :
    MaintenanceListFilters → ResolvedRange → EquipmentDb → Equipment → List HistoryRow
history_of filters range db e =
    select (λ h. h.equipment_id == e.id) (history_until range filters.equipment_id db)

pub record MaintenanceEquipmentRow : Type 0 where
  pub equipment : Equipment
  pub space : Option Space
  pub last_report_at : Option ℕ
  pub last_severity : Option Severity
  pub counts : MaintenanceCounts

-- What the loop keeps of one equipment.
pub record Entry : Type 0 where
  pub row : MaintenanceEquipmentRow
  pub intervals : List Interval
  pub reports : List Report

abbrev pub has_activity : List Report → List HistoryRow → ResolvedRange → MaintenanceCounts → Bool
has_activity reports history range counts =
    not (length reports == 0)
    || (any (λ h. is_transition h && in_range range h.changed_at) history
        || ltb 0 counts.time_in_broken_days)

abbrev pub is_included :
    MaintenanceListFilters
    → Equipment
    → List Report
    → List HistoryRow
    → ResolvedRange
    → MaintenanceCounts
    → Bool
is_included filters e reports history range counts =
    if is_some filters.severity
    then not (length reports == 0)
    else is_some filters.equipment_id
      || (has_activity reports history range counts || not (is_working e.status))

abbrev pub entry_of :
    List Report → List HistoryRow → ResolvedRange → ℕ → EquipmentDb → Equipment → Entry
entry_of reports history range now_ms db e = record {
  row = record {
    equipment = e;
    space = space_of db e;
    last_report_at = option_map (λ (r : Report). r.created_at) (last_report reports);
    last_severity = option_map (λ (r : Report). r.severity) (last_report reports);
    counts = compute_counts reports history (broken_intervals history now_ms) range now_ms;
  };
  intervals = broken_intervals history now_ms;
  reports = reports;
}

abbrev pub add_entry :
    MaintenanceListFilters → ResolvedRange → ℕ → EquipmentDb → Equipment → List Entry → List Entry
add_entry filters range now_ms db e entries =
    let reports = reports_of filters range db e in
    let history = history_of filters range db e in
    let entry = entry_of reports history range now_ms db e in
    if is_included filters e reports history range entry.row.counts
    then entry ∷ entries
    else entries

unfoldable pub entries_of :
    MaintenanceListFilters → ResolvedRange → ℕ → EquipmentDb → List Equipment → List Entry
entries_of filters range now_ms db [] = []
entries_of filters range now_ms db (e ∷ es) =
    let rest = entries_of filters range now_ms db es in
    if is_selected filters db e then add_entry filters range now_ms db e rest else rest

abbrev all_reports : List Entry → List Report
all_reports [] = []
all_reports (x ∷ xs) = x.reports ++ all_reports xs

abbrev rows_of : List Entry → List MaintenanceEquipmentRow
rows_of entries = map (λ (x : Entry). x.row) entries

-- Longest broken first, then most reports, then by name, as `localeCompare` orders names.
abbrev pub precedes : (ℕ → ℕ → Bool) → MaintenanceEquipmentRow → MaintenanceEquipmentRow → Bool
precedes name_less a b =
    ltb b.counts.time_in_broken_days a.counts.time_in_broken_days
    || a.counts.time_in_broken_days == b.counts.time_in_broken_days
      && (ltb b.counts.report_count a.counts.report_count
          || a.counts.report_count == b.counts.report_count
            && name_less a.equipment.name b.equipment.name)

pub record MaintenanceList : Type 0 where
  pub range : ResolvedRange
  pub since : Option ℕ
  pub series : List SeriesPoint
  pub equipment : List MaintenanceEquipmentRow

abbrev pub list_of : (ℕ → ℕ → Bool) → ResolvedRange → ℕ → EquipmentDb → List Entry → MaintenanceList
list_of name_less range now_ms db entries = record {
  range = range;
  since = history_since db;
  series =
      build_series range (all_reports entries) (map (λ (x : Entry). x.intervals) entries) now_ms;
  equipment = sort_by (precedes name_less) (rows_of entries);
}

unfoldable pub list_equipment :
    (ℕ → ℕ → Bool) → ℕ → MaintenanceListFilters → EquipmentDb → Result MaintenanceList
list_equipment name_less now_ms filters db = do
  range ← resolve_range filters.range (campus_date now_ms)
  ok (list_of name_less range now_ms db (entries_of filters range now_ms db db.equipment))

-- `occurrences.at(-1)`: the latest of the reports and breakdowns.
abbrev pub later : Option ℕ → ℕ → Option ℕ
later none t = some t
later (some s) t = if ltb s t then some t else some s

abbrev pub latest : Option ℕ → List ℕ → Option ℕ
latest t [] = t
latest t (u ∷ us) = latest (later t u) us

abbrev pub occurrences : List Report → List HistoryRow → ResolvedRange → List ℕ
occurrences reports history range =
    map (λ (r : Report). r.created_at) reports
    ++ map (λ (h : HistoryRow). h.changed_at)
        (select (λ h. is_transition h && (is_broken h.to_status && in_range range h.changed_at))
          history)

pub record EquipmentReport : Type 0 where
  pub equipment : Equipment
  pub space : Option Space
  pub range : ResolvedRange
  pub since : Option ℕ
  pub summary : MaintenanceCounts
  pub last_occurrence_at : Option ℕ
  pub series : List SeriesPoint
  pub timeline : List TimelineEvent

abbrev pub report_of :
    List Report → List HistoryRow → ResolvedRange → ℕ → EquipmentDb → Equipment → EquipmentReport
report_of reports history range now_ms db item =
    let intervals = broken_intervals history now_ms in
    record {
      equipment = item;
      space = space_of db item;
      range = range;
      since = history_since db;
      summary = compute_counts reports history intervals range now_ms;
      last_occurrence_at = latest none (occurrences reports history range);
      series = build_series range reports (intervals ∷ []) now_ms;
      timeline = build_timeline reports history range;
    }

unfoldable pub get_equipment_report :
    ℕ → ℕ → MaintenanceRangeInput → EquipmentDb → Result EquipmentReport
get_equipment_report now_ms id input db = do
  range ← resolve_range input (campus_date now_ms)
  item ← found (find_equipment id db)
  ok (
      report_of (reports_in_range range (some id) db) (history_until range (some id) db) range
        now_ms db item)
