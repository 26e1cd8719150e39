-- ===== src/Equipment/Items.antt =====
-- services/equipment.service.ts `create`, `updateStatus`
use ufcim_backend_proto.Prelude.{
  ℕ, Bool, not, ◌&&◌, ◌||◌, Option, none, some, List, [], ◌∷◌, ◌++◌, ◌==◌, any, find, or_else,
  some_when, first_some, update_where, if◌then◌else◌,
}
use ufcim_backend_proto.Errors.{
  Result, ok, err, internal, ◌>>=◌, ◌>>◌, throw_if, conflict_error, asset_exists,
}
use ufcim_backend_proto.Reservation.Guards.{found}
use ufcim_backend_proto.Schedule.Times.{Text, text_eq}
use ufcim_backend_proto.Schema.{Space}
use ufcim_backend_proto.Equipment.{
  EquipmentStatus, same_status, Equipment, HistoryRow, by_hand, create_equipment,
  update_equipment_status, EquipmentDb, log_equipment, with_history,
}

pub record CreateEquipmentInput : Type 0 where
  pub asset_id : Text
  pub space_id : ℕ
  pub name : ℕ
  pub kind : ℕ
  pub status : EquipmentStatus
  pub notes : Option Text

abbrev pub has_asset : Text → List Equipment → Bool
has_asset asset_id = any (λ e. text_eq e.asset_id asset_id)

unfoldable pub admit_equipment : CreateEquipmentInput → EquipmentDb → Result Space
admit_equipment input db = do
  space ← found (find (λ s. s.id == input.space_id) db.spaces)
  throw_if (has_asset input.asset_id db.equipment) (conflict_error asset_exists)
  ok space

abbrev pub new_equipment : ℕ → ℕ → ℕ → CreateEquipmentInput → Equipment
new_equipment now id user_id input = record {
  id = id;
  asset_id = input.asset_id;
  space_id = input.space_id;
  name = input.name;
  kind = input.kind;
  status = input.status;
  notes = input.notes;
  updated_by = some user_id;
  updated_at = now;
}

-- The primary key and the unique asset number.
unfoldable pub insert_equipment : Equipment → EquipmentDb → Option EquipmentDb
insert_equipment e db =
    some_when (not (any (λ f. f.id == e.id || text_eq f.asset_id e.asset_id) db.equipment))
      (record db { equipment = db.equipment ++ e ∷ [] })

abbrev pub commit_equipment :
    ℕ → Equipment → EquipmentDb → Option EquipmentDb → Result Equipment × EquipmentDb
commit_equipment user_id e db none = (err internal, db)
commit_equipment user_id e db (some db') = (ok e, log_equipment user_id create_equipment e.id db')

abbrev pub run_equipment :
    ℕ → ℕ → ℕ → CreateEquipmentInput → EquipmentDb → Result Space → Result Equipment × EquipmentDb
run_equipment now id user_id input db (err e) = (err e, db)
run_equipment now id user_id input db (ok space) =
    let e = new_equipment now id user_id input in
    commit_equipment user_id e db (insert_equipment e db)

unfoldable pub create :
    ℕ → ℕ → ℕ → CreateEquipmentInput → EquipmentDb → Result Equipment × EquipmentDb
create now id user_id input db = run_equipment now id user_id input db (admit_equipment input db)

pub record UpdateEquipmentStatusInput : Type 0 where
  pub status : EquipmentStatus
  pub notes : Option Text
  pub asset_id : Option Text

-- The columns of `.set(…)`, from the row that was read.
abbrev pub set_status : ℕ → ℕ → UpdateEquipmentStatusInput → Equipment → Equipment → Equipment
set_status now user_id input item row = record row {
  asset_id = or_else input.asset_id item.asset_id;
  status = input.status;
  notes = first_some input.notes item.notes;
  updated_by = some user_id;
  updated_at = now;
}

abbrev pub rewrite : ℕ → (Equipment → Equipment) → List Equipment → List Equipment
rewrite id f = update_where (λ e. e.id == id) f

-- Another row has the asset number that the update writes.
abbrev pub asset_clash : ℕ → Text → List Equipment → Bool
asset_clash id asset_id = any (λ e. not (e.id == id) && text_eq e.asset_id asset_id)

abbrev pub status_row : ℕ → ℕ → ℕ → ℕ → UpdateEquipmentStatusInput → Equipment → HistoryRow
status_row now history_id id user_id input item = record {
  id = history_id;
  equipment_id = id;
  from_status = item.status;
  to_status = input.status;
  changed_by = some user_id;
  changed_at = now;
  source = by_hand;
}

-- A change of status lands with its history row; any other change alone.
unfoldable pub write_status :
    ℕ → ℕ → ℕ → ℕ → UpdateEquipmentStatusInput → Equipment → EquipmentDb → Option EquipmentDb
write_status now history_id id user_id input item db =
    let items = rewrite id (set_status now user_id input item) db.equipment in
    if asset_clash id (or_else input.asset_id item.asset_id) db.equipment
    then none
    else if same_status item.status input.status
    then some (record db { equipment = items })
    else with_history (status_row now history_id id user_id input item) items db

abbrev pub commit_status :
    ℕ
    → ℕ
    → ℕ
    → UpdateEquipmentStatusInput
    → Equipment
    → EquipmentDb
    → Option EquipmentDb
    → Result Equipment × EquipmentDb
commit_status now id user_id input item db none = (err internal, db)
commit_status now id user_id input item db (some db') = (
  ok (set_status now user_id input item item),
  log_equipment user_id update_equipment_status id db',
)

abbrev pub run_status :
    ℕ
    → ℕ
    → ℕ
    → ℕ
    → UpdateEquipmentStatusInput
    → EquipmentDb
    → Result Equipment
    → Result Equipment × EquipmentDb
run_status now history_id id user_id input db (err e) = (err e, db)
run_status now history_id id user_id input db (ok item) =
    commit_status now id user_id input item db
      (write_status now history_id id user_id input item db)

abbrev pub find_equipment : ℕ → EquipmentDb → Option Equipment
find_equipment id db = find (λ e. e.id == id) db.equipment

unfoldable pub update_status :
    ℕ → ℕ → ℕ → ℕ → UpdateEquipmentStatusInput → EquipmentDb → Result Equipment × EquipmentDb
update_status now history_id id user_id input db =
    run_status now history_id id user_id input db (found (find_equipment id db))
