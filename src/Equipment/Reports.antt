-- ===== src/Equipment/Reports.antt =====
-- services/equipment-report.service.ts `create`, `createEquipmentReport`, `createRoomReport`
use ufcim_backend_proto.Prelude.{
  ℕ, ◌+◌, ◌*◌, Bool, true, false, not, ◌&&◌, ◌||◌, Option, none, some, List, [], ◌∷◌, ◌==◌, leb,
  any, find, select, is_some, holds_id, if◌then◌else◌,
}
use ufcim_backend_proto.Errors.{
  Result, ok, err, app, internal, ◌>>=◌, ◌>>◌, throw_if, app_error, conflict_error,
  validation_error, ticket_target, open_ticket, recent_ticket,
}
use ufcim_backend_proto.Reservation.Guards.{found}
use ufcim_backend_proto.Schedule.Times.{Text}
use ufcim_backend_proto.Schema.{UserRole, staff, maintenance, User, Space, equipment_report_notice}
use ufcim_backend_proto.Equipment.{
  EquipmentStatus, working, broken, Equipment, Severity, minor, pending, MaintenanceCategory,
  category_code, Report, HistoryRow, by_report, create_equipment_report, EquipmentDb, log_equipment,
  notify_user, insert_report, with_history,
}
use ufcim_backend_proto.Equipment.Items.{find_equipment, rewrite}
use ufcim_backend_proto.Equipment.OpenStatus.{
  has, number_code, get_open_status_by_equipment_ids, get_open_room_status_by_category,
}

-- The request's keys; one that is absent is `none`.
pub record CreateReportInput : Type 0 where
  pub equipment_id : Option ℕ
  pub space_id : Option ℕ
  pub category : Option MaintenanceCategory
  pub description : Text
  pub severity : Severity

-- The identifiers of the new ticket and of the new history row.
pub record FreshIds : Type 0 where
  pub report_id : ℕ
  pub history_id : ℕ

-- 24 hours in milliseconds.
abbrev pub recent_report_window_ms : ℕ
recent_report_window_ms = 24 * 60 * 60 * 1000

-- By the same user on the same equipment, within the window.
abbrev pub is_recent : ℕ → ℕ → ℕ → Report → Bool
is_recent now user_id equipment_id r =
    r.reported_by == user_id
    && (holds_id r.equipment_id equipment_id && leb now (r.created_at + recent_report_window_ms))

unfoldable pub admit_equipment_report : ℕ → ℕ → ℕ → EquipmentDb → Result Equipment
admit_equipment_report now user_id equipment_id db = do
  equip ← found (find_equipment equipment_id db)
  throw_if
      (has number_code (get_open_status_by_equipment_ids (equipment_id ∷ []) db.reports)
        equipment_id)
      (conflict_error open_ticket)
  throw_if (any (is_recent now user_id equipment_id) db.reports) (conflict_error recent_ticket)
  ok equip

abbrev pub new_report :
    ℕ → ℕ → ℕ → Option ℕ → ℕ → Option MaintenanceCategory → CreateReportInput → Report
new_report now id user_id equipment_id space_id category input = record {
  id = id;
  equipment_id = equipment_id;
  space_id = space_id;
  category = category;
  reported_by = user_id;
  description = input.description;
  severity = input.severity;
  status = pending;
  acknowledged_by = none;
  acknowledged_at = none;
  resolved_at = none;
  dismissed_reason = none;
  created_at = now;
}

abbrev pub is_serious : Severity → Bool
is_serious minor = false
is_serious _ = true

abbrev pub is_working : EquipmentStatus → Bool
is_working working = true
is_working _ = false

abbrev pub set_broken : ℕ → ℕ → Equipment → Equipment
set_broken now user_id e = record e { status = broken; updated_by = some user_id; updated_at = now }

abbrev pub broken_row : ℕ → ℕ → ℕ → ℕ → HistoryRow
broken_row now history_id user_id equipment_id = record {
  id = history_id;
  equipment_id = equipment_id;
  from_status = working;
  to_status = broken;
  changed_by = some user_id;
  changed_at = now;
  source = by_report;
}

-- A serious report moves a working equipment to broken.
unfoldable pub break_if_serious :
    ℕ → ℕ → ℕ → Equipment → Severity → EquipmentDb → Option EquipmentDb
break_if_serious now history_id user_id equip severity db =
    if is_serious severity && is_working equip.status
    then with_history (broken_row now history_id user_id equip.id)
        (rewrite equip.id (set_broken now user_id) db.equipment) db
    else some db

abbrev pub is_crew : UserRole → Bool
is_crew staff = true
is_crew maintenance = true
is_crew _ = false

abbrev pub is_target : User → Bool
is_target u = not (is_some u.disabled_at) && (not (is_some u.deleted_at) && is_crew u.role)

abbrev pub notify_all : List User → EquipmentDb → EquipmentDb
notify_all [] db = db
notify_all (u ∷ us) db = notify_all us (notify_user u.id equipment_report_notice db)

abbrev pub notify_staff : EquipmentDb → EquipmentDb
notify_staff db = notify_all (select is_target db.users) db

abbrev pub announce : ℕ → Report → EquipmentDb → Result Report × EquipmentDb
announce user_id r db = (ok r, log_equipment user_id create_equipment_report r.id (notify_staff db))

-- The ticket stays where the move to broken fails.
abbrev pub after_break : ℕ → Report → EquipmentDb → Option EquipmentDb → Result Report × EquipmentDb
after_break user_id r db none = (err internal, db)
after_break user_id r db (some db') = announce user_id r db'

abbrev pub after_insert :
    ℕ → ℕ → ℕ → Equipment → Report → EquipmentDb → Option EquipmentDb → Result Report × EquipmentDb
after_insert now history_id user_id equip r db none = (err internal, db)
after_insert now history_id user_id equip r db (some db') =
    after_break user_id r db' (break_if_serious now history_id user_id equip r.severity db')

abbrev pub run_equipment_report :
    ℕ
    → FreshIds
    → ℕ
    → CreateReportInput
    → EquipmentDb
    → Result Equipment
    → Result Report × EquipmentDb
run_equipment_report now ids user_id input db (err e) = (err e, db)
run_equipment_report now ids user_id input db (ok equip) =
    let r = new_report now ids.report_id user_id (some equip.id) equip.space_id none input in
    after_insert now ids.history_id user_id equip r db (insert_report r db)

unfoldable pub create_equipment_report_for :
    ℕ → FreshIds → ℕ → ℕ → CreateReportInput → EquipmentDb → Result Report × EquipmentDb
create_equipment_report_for now ids user_id equipment_id input db =
    run_equipment_report now ids user_id input db
      (admit_equipment_report now user_id equipment_id db)

abbrev pub has_open_category : Option MaintenanceCategory → ℕ → EquipmentDb → Bool
has_open_category none space_id db = false
has_open_category (some c) space_id db =
    has category_code (get_open_room_status_by_category space_id db.reports) c

abbrev pub find_room : Option ℕ → EquipmentDb → Option Space
find_room none db = none
find_room (some id) db = find (λ s. s.id == id) db.spaces

unfoldable pub admit_room_report : CreateReportInput → EquipmentDb → Result Space
admit_room_report input db = do
  space ← found (find_room input.space_id db)
  throw_if (has_open_category input.category space.id db) (conflict_error open_ticket)
  ok space

abbrev pub after_room_insert :
    ℕ → Report → EquipmentDb → Option EquipmentDb → Result Report × EquipmentDb
after_room_insert user_id r db none = (err internal, db)
after_room_insert user_id r db (some db') = announce user_id r db'

abbrev pub run_room_report :
    ℕ → FreshIds → ℕ → CreateReportInput → EquipmentDb → Result Space → Result Report × EquipmentDb
run_room_report now ids user_id input db (err e) = (err e, db)
run_room_report now ids user_id input db (ok space) =
    let r = new_report now ids.report_id user_id none space.id input.category input in
    after_room_insert user_id r db (insert_report r db)

unfoldable pub create_room_report :
    ℕ → FreshIds → ℕ → CreateReportInput → EquipmentDb → Result Report × EquipmentDb
create_room_report now ids user_id input db =
    run_room_report now ids user_id input db (admit_room_report input db)

-- One target: an equipment, or a room with a category.
abbrev pub create_on :
    ℕ
    → FreshIds
    → ℕ
    → CreateReportInput
    → EquipmentDb
    → Bool
    → Option ℕ
    → Result Report × EquipmentDb
create_on now ids user_id input db true none = create_room_report now ids user_id input db
create_on now ids user_id input db false (some id) =
    create_equipment_report_for now ids user_id id input db
create_on now ids user_id input db _ _ =
    (err (app (app_error 400 validation_error ticket_target)), db)

unfoldable pub create :
    ℕ → FreshIds → ℕ → CreateReportInput → EquipmentDb → Result Report × EquipmentDb
create now ids user_id input db =
    create_on now ids user_id input db (is_some input.space_id || is_some input.category)
      input.equipment_id
