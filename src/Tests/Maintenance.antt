-- ===== src/Tests/Maintenance.antt =====
-- Runs of the maintenance report.
use ufcim_backend_proto.Prelude.{
  ◌≡◌, refl, ◌+◌, ◌-◌, ◌*◌, ◌≤◌, false, none, some, [], ◌∷◌, List, arith, ◌++◌, Pairs,
}
use ufcim_backend_proto.Equipment.{
  working, broken, major, resolved, by_hand, by_report, Report, HistoryRow, EquipmentDb,
}
use ufcim_backend_proto.Maintenance.{ResolvedRange, Interval, campus_midnight_ms, day_ms, round_div}
use ufcim_backend_proto.Maintenance.Range.{MaintenanceRangeInput, date, check_range, resolve_range}
use ufcim_backend_proto.Maintenance.Intervals.{broken_intervals, sort_history}
use ufcim_backend_proto.Maintenance.Counts.{broken_ms}
use ufcim_backend_proto.Maintenance.Series.{SeriesPoint, day_broken_ms, build_series}
use ufcim_backend_proto.Maintenance.Timeline.{
  is_report, all_report_events, status_events, build_timeline,
}
use ufcim_backend_proto.Maintenance.Report.{
  EquipmentReport, report_of, history_until, get_equipment_report,
}
use ufcim_backend_proto.Maintenance.Bounds.{resolve_range-bounds, StandsFor, StandsFor}
use ufcim_backend_proto.Maintenance.Brokenness.{covers, broken_at, broken_intervals-covers}
use ufcim_backend_proto.Maintenance.Totals.{sum_of, build_series-adds_up}
use ufcim_backend_proto.Maintenance.Timelines.{build_timeline-ordered, Precedes, count}
use ufcim_backend_proto.Maintenance.Agreement.{get_equipment_report-agrees}
use ufcim_backend_proto.Tests.Tickets.{projector, bare}

abbrev two_days : MaintenanceRangeInput
two_days = record { from = date 1; to = date 2 }

abbrev days_1_2 : ResolvedRange
days_1_2 = record { from = 1; to = 2; days = 2; start_ms = 97200000; end_ms = 270000000 }

resolve_range-bounds_example :
    StandsFor two_days.to 5 days_1_2.to
    × StandsFor two_days.from (days_1_2.to - 89) days_1_2.from
    × (days_1_2.days ≡ days_1_2.to - days_1_2.from + 1)
    × (days_1_2.from ≤ days_1_2.to)
    × (days_1_2.days ≤ 90)
    × (days_1_2.start_ms ≡ campus_midnight_ms days_1_2.from)
    × (days_1_2.end_ms ≡ days_1_2.start_ms + days_1_2.days * day_ms)
unfolding resolve_range check_range
resolve_range-bounds_example = resolve_range-bounds two_days 5 {range = days_1_2} refl

abbrev breaks : HistoryRow
breaks = record {
  id = 1;
  equipment_id = 1;
  from_status = working;
  to_status = broken;
  changed_by = none;
  changed_at = 100000000;
  source = by_report;
}

abbrev repairs : HistoryRow
repairs = record {
  id = 2;
  equipment_id = 1;
  from_status = broken;
  to_status = working;
  changed_by = none;
  changed_at = 150000000;
  source = by_hand;
}

abbrev changes : List HistoryRow
changes = breaks ∷ repairs ∷ []

broken_intervals-covers_example :
    covers (broken_intervals changes 200000000) 120000000 ≡ broken_at 120000000 false changes
broken_intervals-covers_example =
    broken_intervals-covers 120000000 200000000 changes (omega arith) ((omega arith, tt), (tt, tt))

abbrev leak : Report
leak = record {
  id = 3;
  equipment_id = some 1;
  space_id = 4;
  category = none;
  reported_by = 8;
  description = [];
  severity = major;
  status = resolved;
  acknowledged_by = some 9;
  acknowledged_at = some 110000000;
  resolved_at = some 150000000;
  dismissed_reason = none;
  created_at = 100000000;
}

abbrev outage : List (List Interval)
outage = (record { start = 100000000; end = 150000000 } ∷ []) ∷ []

build_series-adds_up_example :
    (sum_of (λ (p : SeriesPoint). p.reports) (build_series days_1_2 (leak ∷ []) outage 200000000)
      ≡ 1)
    × (sum_of
          (λ (p : SeriesPoint). day_broken_ms outage p.date 200000000)
          (build_series days_1_2 (leak ∷ []) outage 200000000)
        ≡ sum_of (λ intervals. broken_ms intervals days_1_2 200000000) outage)
unfolding resolve_range check_range
build_series-adds_up_example =
    build_series-adds_up two_days 5 days_1_2 (leak ∷ []) outage 200000000 refl (refl, tt)

abbrev kept : EquipmentDb
kept = record bare { reports = leak ∷ []; history = changes }

abbrev projector_report : EquipmentReport
projector_report = report_of (leak ∷ []) changes days_1_2 200000000 kept projector

get_equipment_report-agrees_example :
    (sum_of (λ (p : SeriesPoint). p.reports) projector_report.series
      ≡ projector_report.summary.report_count)
    × (projector_report.summary.time_in_broken_days
        ≡ round_div
            (sum_of
                (λ (p : SeriesPoint).
                  day_broken_ms
                    (broken_intervals (history_until days_1_2 (some 1) kept) 200000000 ∷ [])
                    p.date
                    200000000)
                projector_report.series
              * 10)
            day_ms)
unfolding get_equipment_report resolve_range check_range sort_history
get_equipment_report-agrees_example =
    get_equipment_report-agrees 200000000 1 two_days kept {report = projector_report} refl

build_timeline-ordered_example :
    Pairs Precedes (build_timeline (leak ∷ []) changes days_1_2)
    × (count (λ e. is_report e.what) (build_timeline (leak ∷ []) changes days_1_2)
        ≡ count
            (λ e. is_report e.what)
            (all_report_events days_1_2 (leak ∷ []) ++ status_events days_1_2 changes))
build_timeline-ordered_example =
    build_timeline-ordered (leak ∷ []) changes days_1_2 (λ e. is_report e.what)
