-- ===== src/Schema.antt =====
-- db/schema.ts: the tables that the modelled services read and write, one record for each row.
-- Identifiers and names, which are only stored and compared, are drawn as numbers, where the empty
-- text, which the code treats as absent, is `none`; times and descriptions keep their text.
use ufcim_backend_proto.Prelude.{ℕ, Bool, true, false, Option, List}
use ufcim_backend_proto.Schedule.Times.{Text, TimeSlot}

-- types/auth.ts
pub data UserRole : Type 0 where
  student professor staff maintenance : UserRole

abbrev pub is_staff : UserRole → Bool
is_staff staff = true
is_staff _ = false

abbrev pub is_maintenance : UserRole → Bool
is_maintenance maintenance = true
is_maintenance _ = false

pub record User : Type 0 where
  pub id : ℕ
  pub name : ℕ
  pub role : UserRole
  pub is_master_admin : Bool
  pub disabled_at : Option ℕ
  pub deleted_at : Option ℕ

pub record Space : Type 0 where
  pub id : ℕ
  pub number : ℕ
  pub department : ℕ
  pub reservable : Bool
  pub closed_from : Text
  pub closed_to : Text

-- The requester columns that reservations and recurrences share.
pub record Requester : Type 0 where
  pub requester_user_id : Option ℕ
  pub requester_name : Option ℕ
  pub requester_contact : Option ℕ

pub record Recurrence : Type 0 where
  pub id : ℕ
  pub description : Text
  pub created_by : ℕ
  pub requester : Requester
  pub created_at : ℕ

pub data ReservationStatus : Type 0 where
  confirmed canceled modified overridden : ReservationStatus

abbrev pub is_confirmed : ReservationStatus → Bool
is_confirmed confirmed = true
is_confirmed _ = false

abbrev pub is_canceled : ReservationStatus → Bool
is_canceled canceled = true
is_canceled _ = false

-- `changeOrigin` is null, or 'blocking' after a blocking overrode the reservation.
pub data ChangeOrigin : Type 0 where
  blocking : ChangeOrigin

pub record Reservation : Type 0 where
  pub id : ℕ
  pub space_id : ℕ
  pub user_id : ℕ
  pub created_by : ℕ
  pub requester : Requester
  pub date : ℕ
  pub time_slot : TimeSlot
  pub start_time : Text
  pub end_time : Text
  pub status : ReservationStatus
  pub recurrence_id : Option ℕ
  pub change_origin : Option ChangeOrigin
  pub purpose : Option Text
  pub description : Option Text
  pub cancel_reason : Option Text
  pub created_at : ℕ
  pub updated_at : ℕ

pub data BlockType : Type 0 where
  maintenance_block administrative_block : BlockType

pub data BlockingStatus : Type 0 where
  active removed : BlockingStatus

abbrev pub is_active : BlockingStatus → Bool
is_active active = true
is_active removed = false

pub record Blocking : Type 0 where
  pub id : ℕ
  pub space_id : ℕ
  pub created_by : ℕ
  pub date : ℕ
  pub time_slot : TimeSlot
  pub start_time : Text
  pub end_time : Text
  pub reason : Text
  pub block_type : BlockType
  pub status : BlockingStatus
  pub batch_id : Option ℕ
  pub created_at : ℕ
  pub updated_at : ℕ

pub data NotificationType : Type 0 where
  confirmed_notice canceled_notice modified_notice overridden_notice equipment_report_notice :
      NotificationType

pub record Notification : Type 0 where
  pub user_id : ℕ
  pub kind : NotificationType

pub data ActionType : Type 0 where
  create_reservation create_recurring_reservation update_reservation : ActionType
  cancel_reservation cancel_recurring_reservation override_reservation : ActionType
  create_blocking remove_blocking : ActionType

pub record AuditLog : Type 0 where
  pub user_id : ℕ
  pub action_type : ActionType
  pub reference_id : ℕ

-- The tables that reservations and blockings touch.
pub record Db : Type 0 where
  pub users : List User
  pub spaces : List Space
  pub recurrences : List Recurrence
  pub reservations : List Reservation
  pub blockings : List Blocking
  pub notifications : List Notification
  pub audit_logs : List AuditLog
