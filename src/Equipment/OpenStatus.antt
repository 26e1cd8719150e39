-- ===== src/Equipment/OpenStatus.antt =====
-- services/equipment-report.service.ts `mergeOpenStatus`, `getOpenStatusByEquipmentIds`,
-- `getOpenRoomStatusByCategory`: the open tickets as a map from a key to a status. A `Map` is the
-- list of its entries; `code` tells keys apart.
use ufcim_backend_proto.Prelude.{
  ℕ, Bool, not, ◌&&◌, Option, none, some, List, [], ◌∷◌, ◌==◌, any, select, is_some, holds_id,
  if◌then◌else◌,
}
use ufcim_backend_proto.Equipment.{
  ReportStatus, pending, acknowledged, is_open_status, MaintenanceCategory, category_code, Report,
}

module _ {K : Type 0} (code : K → ℕ) where
  -- `map.get(key)`
  abbrev pub lookup : List (K × ReportStatus) → K → Option ReportStatus
  lookup [] key = none
  lookup ((k, v) ∷ m) key = if code k == code key then some v else lookup m key

  abbrev pub has : List (K × ReportStatus) → K → Bool
  has m key = is_some (lookup m key)

  -- `map.set(key, status)`
  abbrev pub put : K → ReportStatus → List (K × ReportStatus) → List (K × ReportStatus)
  put key v [] = (key, v) ∷ []
  put key v ((k, w) ∷ m) = if code k == code key then (k, v) ∷ m else (k, w) ∷ put key v m

  -- `acknowledged` over `pending` when a key has both.
  unfoldable pub merge_open_status :
      List (K × ReportStatus) → K → ReportStatus → List (K × ReportStatus)
  merge_open_status m key acknowledged = put key acknowledged m
  merge_open_status m key pending = if has m key then m else put key pending m
  merge_open_status m key _ = m

  abbrev merge_keyed : Option K → ReportStatus → List (K × ReportStatus) → List (K × ReportStatus)
  merge_keyed none s m = m
  merge_keyed (some k) s m = merge_open_status m k s

  -- The loop over the rows; a row without a key is passed over.
  unfoldable pub merge_rows :
      (Report → Option K) → List Report → List (K × ReportStatus) → List (K × ReportStatus)
  merge_rows key_of [] m = m
  merge_rows key_of (r ∷ rs) m = merge_rows key_of rs (merge_keyed (key_of r) r.status m)

abbrev pub number_code : ℕ → ℕ
number_code n = n

abbrev pub among_ids : List ℕ → Option ℕ → Bool
among_ids ids o = any (λ id. holds_id o id) ids

unfoldable pub get_open_status_by_equipment_ids : List ℕ → List Report → List (ℕ × ReportStatus)
get_open_status_by_equipment_ids ids reports =
    merge_rows number_code (λ r. r.equipment_id)
      (select (λ r. among_ids ids r.equipment_id && is_open_status r.status) reports) []

abbrev pub is_room_ticket : ℕ → Report → Bool
is_room_ticket space_id r =
    r.space_id == space_id && (not (is_some r.equipment_id) && is_open_status r.status)

unfoldable pub get_open_room_status_by_category :
    ℕ → List Report → List (MaintenanceCategory × ReportStatus)
get_open_room_status_by_category space_id reports =
    merge_rows category_code (λ r. r.category) (select (is_room_ticket space_id) reports) []
