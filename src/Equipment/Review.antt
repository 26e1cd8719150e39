-- ===== src/Equipment/Review.antt =====
-- services/equipment-report.service.ts `acknowledge`, `resolve`, `dismiss`
use ufcim_backend_proto.Prelude.{ℕ, Option, some, ◌==◌, any, find, update_where, if◌then◌else◌}
use ufcim_backend_proto.Errors.{Result, ok, err}
use ufcim_backend_proto.Reservation.Guards.{found}
use ufcim_backend_proto.Schedule.Times.{Text}
use ufcim_backend_proto.Schema.{equipment_report_notice}
use ufcim_backend_proto.Equipment.{
  acknowledged, resolved, dismissed, Report, acknowledge_equipment_report, resolve_equipment_report,
  dismiss_equipment_report, EquipmentAction, EquipmentDb, log_equipment, notify_user,
}

abbrev pub find_report : ℕ → EquipmentDb → Option Report
find_report id db = find (λ r. r.id == id) db.reports

abbrev pub set_report : ℕ → (Report → Report) → EquipmentDb → EquipmentDb
set_report id f db = record db { reports = update_where (λ r. r.id == id) f db.reports }

abbrev pub set_acknowledged : ℕ → ℕ → Report → Report
set_acknowledged now user_id r = record r {
  status = acknowledged;
  acknowledged_by = some user_id;
  acknowledged_at = some now;
}

abbrev pub set_resolved : ℕ → Report → Report
set_resolved now r = record r { status = resolved; resolved_at = some now }

abbrev pub set_dismissed : ℕ → Text → Report → Report
set_dismissed now reason r = record r {
  status = dismissed;
  dismissed_reason = some reason;
  resolved_at = some now;
}

abbrev pub run_review :
    ℕ
    → ℕ
    → EquipmentAction
    → (Report → Report)
    → EquipmentDb
    → Result Report
    → Result Report × EquipmentDb
run_review id user_id action f db (err e) = (err e, db)
run_review id user_id action f db (ok r) =
    (ok (f r), log_equipment user_id action id (set_report id f db))

unfoldable pub acknowledge : ℕ → ℕ → ℕ → EquipmentDb → Result Report × EquipmentDb
acknowledge now id user_id db =
    run_review id user_id acknowledge_equipment_report (set_acknowledged now user_id) db
      (found (find_report id db))

unfoldable pub dismiss : ℕ → ℕ → ℕ → Text → EquipmentDb → Result Report × EquipmentDb
dismiss now id user_id reason db =
    run_review id user_id dismiss_equipment_report (set_dismissed now reason) db
      (found (find_report id db))

-- The reporter is told, if the account is there.
abbrev pub tell_reporter : ℕ → EquipmentDb → EquipmentDb
tell_reporter user_id db =
    if any (λ u. u.id == user_id) db.users
    then notify_user user_id equipment_report_notice db
    else db

abbrev pub run_resolve : ℕ → ℕ → ℕ → EquipmentDb → Result Report → Result Report × EquipmentDb
run_resolve now id user_id db (err e) = (err e, db)
run_resolve now id user_id db (ok r) = (
  ok (set_resolved now r),
  log_equipment user_id resolve_equipment_report id
      (tell_reporter r.reported_by (set_report id (set_resolved now) db)),
)

unfoldable pub resolve : ℕ → ℕ → ℕ → EquipmentDb → Result Report × EquipmentDb
resolve now id user_id db = run_resolve now id user_id db (found (find_report id db))
