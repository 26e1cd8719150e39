-- ===== src/Equipment/Requests.antt =====
-- Requests on equipment and tickets in any order, by any users and at any times.
use ufcim_backend_proto.Prelude.{ℕ}
use ufcim_backend_proto.Schedule.Times.{Text}
use ufcim_backend_proto.Equipment.{EquipmentDb}
use ufcim_backend_proto.Equipment.Items.{
  CreateEquipmentInput, UpdateEquipmentStatusInput, create, update_status,
}
use ufcim_backend_proto.Equipment.Reports
use ufcim_backend_proto.Equipment.Reports.{CreateReportInput, FreshIds}
use ufcim_backend_proto.Equipment.Review.{acknowledge, resolve, dismiss}

-- One request, granted or refused; `May` says which tickets may be acknowledged.
pub data Step (May : ℕ → EquipmentDb → Type 0) (db : EquipmentDb) : EquipmentDb → Type 0 where
  creates_equipment :
      (now id user_id : ℕ) (input : CreateEquipmentInput)
      → Step May db (create now id user_id input db).1
  updates_status :
      (now history_id id user_id : ℕ) (input : UpdateEquipmentStatusInput)
      → Step May db (update_status now history_id id user_id input db).1
  creates_report :
      (now : ℕ) (ids : FreshIds) (user_id : ℕ) (input : CreateReportInput)
      → Step May db (Reports.create now ids user_id input db).1
  acknowledges : (now id user_id : ℕ) → May id db → Step May db (acknowledge now id user_id db).1
  resolves : (now id user_id : ℕ) → Step May db (resolve now id user_id db).1
  dismisses :
      (now id user_id : ℕ) (reason : Text) → Step May db (dismiss now id user_id reason db).1

pub data Reach (May : ℕ → EquipmentDb → Type 0) (start : EquipmentDb) : EquipmentDb → Type 0 where
  here : Reach May start start
  next : {db db' : EquipmentDb} → Reach May start db → Step May db db' → Reach May start db'
