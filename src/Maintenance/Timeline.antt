-- ===== src/Maintenance/Timeline.antt =====
-- services/maintenance-report.service.ts `buildTimeline`
use ufcim_backend_proto.Prelude.{
  ℕ, Bool, true, false, not, ◌&&◌, ◌||◌, Option, none, some, List, [], ◌∷◌, ◌++◌, ◌==◌, ltb,
  if◌then◌else◌, select, map,
}
use ufcim_backend_proto.Schedule.Times.{Text}
use ufcim_backend_proto.Equipment.{
  EquipmentStatus, Severity, ReportStatus, resolved, dismissed, Report, HistorySource, HistoryRow,
}
use ufcim_backend_proto.Maintenance.{ResolvedRange, is_transition, in_range}
use ufcim_backend_proto.Maintenance.Intervals.{sort_by}
use ufcim_backend_proto.Maintenance.Counts.{is_dismissed}

-- The label follows from the event. Authors are the identifiers of the users that the queries join.
pub data Happening : Type 0 where
  reported : Severity → ℕ → Text → Happening
  in_review : Severity → Option ℕ → Happening
  closed : Severity → ReportStatus → Option Text → Happening
  changed : EquipmentStatus → EquipmentStatus → HistorySource → Option ℕ → Happening

pub record TimelineEvent : Type 0 where
  pub id : ℕ
  pub at : ℕ
  pub what : Happening

abbrev pub is_report : Happening → Bool
is_report (changed from to source author) = false
is_report _ = true

abbrev pub reported_event : Report → TimelineEvent
reported_event r = record {
  id = r.id;
  at = r.created_at;
  what = reported r.severity r.reported_by r.description;
}

abbrev pub event_at : Option ℕ → ResolvedRange → ℕ → Happening → List TimelineEvent
event_at none range id what = []
event_at (some t) range id what =
    if in_range range t then record { id = id; at = t; what = what } ∷ [] else []

abbrev pub closing : Report → Happening
closing r =
    if is_dismissed r.status
    then closed r.severity dismissed r.dismissed_reason
    else closed r.severity resolved none

abbrev pub report_events : ResolvedRange → Report → List TimelineEvent
report_events range r =
    reported_event r
      ∷ event_at r.acknowledged_at range r.id (in_review r.severity r.acknowledged_by)
    ++ event_at r.resolved_at range r.id (closing r)

abbrev pub all_report_events : ResolvedRange → List Report → List TimelineEvent
all_report_events range [] = []
all_report_events range (r ∷ rs) = report_events range r ++ all_report_events range rs

abbrev pub status_event : HistoryRow → TimelineEvent
status_event h = record {
  id = h.id;
  at = h.changed_at;
  what = changed h.from_status h.to_status h.source h.changed_by;
}

abbrev pub status_events : ResolvedRange → List HistoryRow → List TimelineEvent
status_events range history =
    map status_event (select (λ h. is_transition h && in_range range h.changed_at) history)

-- By time; at one moment a report comes before a change of status.
abbrev pub happens_before : TimelineEvent → TimelineEvent → Bool
happens_before a b = ltb a.at b.at || a.at == b.at && (is_report a.what && not (is_report b.what))

unfoldable pub build_timeline : List Report → List HistoryRow → ResolvedRange → List TimelineEvent
build_timeline reports history range =
    sort_by happens_before (all_report_events range reports ++ status_events range history)
