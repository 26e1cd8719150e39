-- ===== src/Equipment.antt =====
-- db/schema.ts `equipment`, `equipment_reports`, `equipment_status_history`: the tables of
-- services/equipment.service.ts and services/equipment-report.service.ts, and the writes to them.
pub mod Items
pub mod OpenStatus
pub mod Reports
pub mod Review
pub mod Merging
pub mod Requests
pub mod NewTickets
pub mod OneOpen
pub mod Replay
pub mod Tracking
use ufcim_backend_proto.Prelude.{
  ℕ, Bool, true, false, not, ◌&&◌, ◌||◌, Option, none, some, List, [], ◌∷◌, ◌++◌, ◌==◌, any,
  some_when,
}
use ufcim_backend_proto.Schedule.Times.{Text}
use ufcim_backend_proto.Schema.{User, Space, Notification, NotificationType}

pub data EquipmentStatus : Type 0 where
  working broken under_repair replacement_scheduled : EquipmentStatus

-- The place of a status in the list, to compare two of them.
abbrev pub status_code : EquipmentStatus → ℕ
status_code working = 0
status_code broken = 1
status_code under_repair = 2
status_code replacement_scheduled = 3

abbrev pub same_status : EquipmentStatus → EquipmentStatus → Bool
same_status a b = status_code a == status_code b

pub record Equipment : Type 0 where
  pub id : ℕ
  pub asset_id : Text
  pub space_id : ℕ
  pub name : ℕ
  pub kind : ℕ
  pub status : EquipmentStatus
  pub notes : Option Text
  pub updated_by : Option ℕ
  pub updated_at : ℕ

pub data Severity : Type 0 where
  minor major blocking : Severity

pub data ReportStatus : Type 0 where
  pending acknowledged resolved dismissed : ReportStatus

-- `OPEN_STATUSES`
abbrev pub is_open_status : ReportStatus → Bool
is_open_status pending = true
is_open_status acknowledged = true
is_open_status _ = false

-- validators/equipment-report.schema.ts `MAINTENANCE_CATEGORIES`
pub data MaintenanceCategory : Type 0 where
  lighting electrical painting ceiling : MaintenanceCategory
  doors_windows plumbing furniture other : MaintenanceCategory

abbrev pub category_code : MaintenanceCategory → ℕ
category_code lighting = 0
category_code electrical = 1
category_code painting = 2
category_code ceiling = 3
category_code doors_windows = 4
category_code plumbing = 5
category_code furniture = 6
category_code other = 7

pub record Report : Type 0 where
  pub id : ℕ
  pub equipment_id : Option ℕ
  pub space_id : ℕ
  pub category : Option MaintenanceCategory
  pub reported_by : ℕ
  pub description : Text
  pub severity : Severity
  pub status : ReportStatus
  pub acknowledged_by : Option ℕ
  pub acknowledged_at : Option ℕ
  pub resolved_at : Option ℕ
  pub dismissed_reason : Option Text
  pub created_at : ℕ

pub data HistorySource : Type 0 where
  by_report by_hand by_system : HistorySource

pub record HistoryRow : Type 0 where
  pub id : ℕ
  pub equipment_id : ℕ
  pub from_status : EquipmentStatus
  pub to_status : EquipmentStatus
  pub changed_by : Option ℕ
  pub changed_at : ℕ
  pub source : HistorySource

pub data EquipmentAction : Type 0 where
  create_equipment update_equipment_status : EquipmentAction
  create_equipment_report acknowledge_equipment_report : EquipmentAction
  resolve_equipment_report dismiss_equipment_report : EquipmentAction

pub record EquipmentLog : Type 0 where
  pub user_id : ℕ
  pub action : EquipmentAction
  pub reference_id : ℕ

pub record EquipmentDb : Type 0 where
  pub users : List User
  pub spaces : List Space
  pub equipment : List Equipment
  pub reports : List Report
  pub history : List HistoryRow
  pub notifications : List Notification
  pub audit_logs : List EquipmentLog

abbrev pub log_equipment : ℕ → EquipmentAction → ℕ → EquipmentDb → EquipmentDb
log_equipment user_id action id db = record db {
  audit_logs =
      db.audit_logs ++ record { user_id = user_id; action = action; reference_id = id } ∷ [];
}

abbrev pub notify_user : ℕ → NotificationType → EquipmentDb → EquipmentDb
notify_user user_id kind db = record db {
  notifications = db.notifications ++ record { user_id = user_id; kind = kind } ∷ [];
}

-- Inserts fail on the primary key.
unfoldable pub insert_report : Report → EquipmentDb → Option EquipmentDb
insert_report r db =
    some_when (not (any (λ s. s.id == r.id) db.reports))
      (record db { reports = db.reports ++ r ∷ [] })

-- A batch of a write to the equipment and a row of its history: both, or neither.
unfoldable pub with_history : HistoryRow → List Equipment → EquipmentDb → Option EquipmentDb
with_history h items db =
    some_when (not (any (λ g. g.id == h.id) db.history))
      (record db { equipment = items; history = db.history ++ h ∷ [] })
