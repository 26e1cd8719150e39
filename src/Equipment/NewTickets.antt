-- ===== src/Equipment/NewTickets.antt =====
-- services/equipment-report.service.ts `create`: the guards against a second open ticket (MEL-015).
use ufcim_backend_proto.Prelude.{
  ℕ, ◌≡◌, refl, sym, ◌∙◌, ap, Bool, true, false, not, ◌&&◌, Option, none, some, List, [], ◌∷◌, ◌++◌,
  arith, ◌==◌, ==_iff, any, any-eq-false, All, All-intro, All-map_pred, find, is_some, holds_id,
  Pairs, Pairs-snoc, select, if◌then◌else◌, Bool-cases, Option-cases, inl, inr,
}
use ufcim_backend_proto.Errors.{
  ok, Result-cases, >>=-eq-ok, throw_if-eq-ok, throw_if, ◌>>◌, conflict_error, open_ticket,
  recent_ticket,
}
use ufcim_backend_proto.Reservation.Guards.{found}
use ufcim_backend_proto.Schema.{User, Space}
use ufcim_backend_proto.Equipment.{
  Equipment, Severity, is_open_status, MaintenanceCategory, category_code, Report, HistoryRow,
  EquipmentDb, insert_report, with_history,
}
use ufcim_backend_proto.Equipment.OpenStatus.{
  has, number_code, get_open_status_by_equipment_ids, get_open_room_status_by_category,
}
use ufcim_backend_proto.Equipment.Items.{find_equipment}
use ufcim_backend_proto.Equipment.Reports.{
  find_room, create_on, CreateReportInput, FreshIds, create, admit_equipment_report,
  admit_room_report, break_if_serious, notify_all, is_target, announce, create_equipment_report_for,
  create_room_report, new_report, has_open_category, after_break, after_insert, after_room_insert,
  is_recent,
}
use ufcim_backend_proto.Equipment.Merging.{
  is_ticket_of, is_ticket_in, matches_key, has-get_open_status, has-get_open_room_status,
}

-- Of one category, both of them set.
abbrev same_category : Option MaintenanceCategory → Option MaintenanceCategory → Bool
same_category none d = false
same_category (some c) d = matches_key category_code d c

-- Two tickets on one equipment, or on one category of one room.
abbrev pub same_target : Report → Report → Bool
same_target x y = elim x.equipment_id [
  | some id ↦ holds_id y.equipment_id id
  | none ↦
      not (is_some y.equipment_id)
      && (x.space_id == y.space_id && same_category x.category y.category)
]

abbrev pub clash : Report → Report → Bool
clash x y = (is_open_status x.status && is_open_status y.status) && same_target x y

abbrev pub NoClash : Report → Report → Type 0
NoClash x y = clash x y ≡ false

-- No two open tickets have one target.
abbrev pub HasOneOpen : EquipmentDb → Type 0
HasOneOpen db = Pairs NoClash db.reports

notify_all-reports : (us : List User) (db : EquipmentDb) → (notify_all us db).reports ≡ db.reports
notify_all-reports [] db = refl
notify_all-reports (u ∷ us) db = notify_all-reports us _

abbrev pub Keeps : List Report → Option EquipmentDb → Type 0
Keeps rs none = Unit
Keeps rs (some db) = db.reports ≡ rs

pub with_history-Keeps :
    (h : HistoryRow) (items : List Equipment) (db : EquipmentDb)
    → Keeps db.reports (with_history h items db)
unfolding with_history
with_history-Keeps h items db = elim (Bool-cases (any (λ g. g.id == h.id) db.history)) [
  | inl taken ↦ rw taken tt
  | inr new ↦ rw new refl
]

pub Keeps-if :
    (b : Bool) (o : Option EquipmentDb) (db : EquipmentDb)
    → Keeps db.reports o
    → Keeps db.reports (if b then o else some db)
Keeps-if true o db k = k
Keeps-if false o db k = refl

break-Keeps :
    (now history_id user_id : ℕ) (equip : Equipment) (severity : Severity) (db : EquipmentDb)
    → Keeps db.reports (break_if_serious now history_id user_id equip severity db)
unfolding break_if_serious
break-Keeps now history_id user_id equip severity db = Keeps-if _ _ db (with_history-Keeps _ _ db)

announce-HasOneOpen :
    (user_id : ℕ) (r : Report) (db : EquipmentDb)
    → HasOneOpen db
    → HasOneOpen (announce user_id r db).1
announce-HasOneOpen user_id r db h = rw (notify_all-reports (select is_target db.users) db) h

after_break-HasOneOpen :
    (user_id : ℕ) (r : Report) (db : EquipmentDb) (o : Option EquipmentDb)
    → HasOneOpen db
    → Keeps db.reports o
    → HasOneOpen (after_break user_id r db o).1
after_break-HasOneOpen user_id r db none h k = h
after_break-HasOneOpen user_id r db (some d) h k = announce-HasOneOpen user_id r d (rw k h)

-- A ticket that clashes with none there may be inserted.
after_insert-HasOneOpen :
    (now history_id user_id : ℕ) (equip : Equipment) (r : Report) (db : EquipmentDb)
    → HasOneOpen db
    → All (λ x. NoClash x r) db.reports
    → HasOneOpen (after_insert now history_id user_id equip r db (insert_report r db)).1
unfolding insert_report
after_insert-HasOneOpen now history_id user_id equip r db h free =
    elim (Bool-cases (any (λ s. s.id == r.id) db.reports)) [
      | inl taken ↦ rw taken h
      | inr new ↦
          let d : EquipmentDb = record db { reports = db.reports ++ r ∷ [] } in
          rw new (
            after_break-HasOneOpen user_id r d
              (break_if_serious now history_id user_id equip r.severity d)
              (Pairs-snoc NoClash db.reports r h free)
              (break-Keeps now history_id user_id equip r.severity d))
    ]

after_room_insert-HasOneOpen :
    (user_id : ℕ) (r : Report) (db : EquipmentDb)
    → HasOneOpen db
    → All (λ x. NoClash x r) db.reports
    → HasOneOpen (after_room_insert user_id r db (insert_report r db)).1
unfolding insert_report
after_room_insert-HasOneOpen user_id r db h free =
    elim (Bool-cases (any (λ s. s.id == r.id) db.reports)) [
      | inl taken ↦ rw taken h
      | inr new ↦ rw new (
          announce-HasOneOpen user_id r (record db { reports = db.reports ++ r ∷ [] })
            (Pairs-snoc NoClash db.reports r h free))
    ]

found-some {ℓ} : {A : Type ℓ} (o : Option A) {a : A} → found o ≡ ok a → o ≡ some a
found-some none h = cc
found-some (some b) h = cc

found_id :
    (id : ℕ) (xs : List Equipment) {e : Equipment}
    → found (find (λ e. e.id == id) xs) ≡ ok e
    → e.id ≡ id
found_id id [] h = cc
found_id id (x ∷ xs) {e} h = elim (Bool-cases (x.id == id)) [
  | inl own ↦
      let same : ok x ≡ ok e = rw own at h in
      let is_e : x ≡ e = cc in ap (λ (z : Equipment). z.id) (sym is_e) ∙ (==_iff x.id id).0 own
  | inr other ↦ found_id id xs (rw other at h)
]

-- What the guards of a new ticket saw.
pub equipment-free :
    (now user_id id : ℕ) (db : EquipmentDb) {equip : Equipment}
    → admit_equipment_report now user_id id db ≡ ok equip
    → (equip.id ≡ id)
      × (find_equipment id db ≡ some equip)
      × (any (λ r. is_ticket_of id r && is_open_status r.status) db.reports ≡ false)
unfolding admit_equipment_report
equipment-free now user_id id db {equip} h =
    let (e, got, rest) = >>=-eq-ok (found (find_equipment id db)) _ h in
    let (free, more) =
      throw_if-eq-ok (has number_code (get_open_status_by_equipment_ids (id ∷ []) db.reports) id)
        (conflict_error open_ticket)
        (throw_if (any (is_recent now user_id id) db.reports) (conflict_error recent_ticket)
          >> ok e)
        rest in
    let (old, last) =
      throw_if-eq-ok (any (is_recent now user_id id) db.reports) (conflict_error recent_ticket)
        (ok e) more in
    let same : e ≡ equip = cc in
    (
      ap (λ (z : Equipment). z.id) (sym same) ∙ found_id id db.equipment got,
      found-some (find_equipment id db) (got ∙ ap (λ (z : Equipment). ok z) same),
      sym (has-get_open_status db.reports id) ∙ free,
    )

not_on_equipment :
    (id : ℕ) (x r : Report)
    → r.equipment_id ≡ some id
    → (is_ticket_of id x && is_open_status x.status) ≡ false
    → NoClash x r
not_on_equipment id x r at free = elim (Option-cases x.equipment_id) [
  | inl room ↦ rw (room, at) (ground arith)
  | inr (i, on) ↦ rw (on, at) (ground (arith, rw on at free))
]

equipment_report-HasOneOpen :
    (now : ℕ) (ids : FreshIds) (user_id id : ℕ) (input : CreateReportInput) (db : EquipmentDb)
    → HasOneOpen db
    → HasOneOpen (create_equipment_report_for now ids user_id id input db).1
unfolding create_equipment_report_for
equipment_report-HasOneOpen now ids user_id id input db h =
    elim (Result-cases (admit_equipment_report now user_id id db)) [
      | inr (e, bad) ↦ rw bad h
      | inl (equip, good) ↦
          let (own, there, free) = equipment-free now user_id id db good in
          let r : Report =
            new_report now ids.report_id user_id (some equip.id) equip.space_id none input in
          rw good (
            after_insert-HasOneOpen now ids.history_id user_id equip r db h (
              All-map_pred db.reports (λ x f. not_on_equipment id x r (ap (λ i. some i) own) f)
                (any-eq-false (λ r. is_ticket_of id r && is_open_status r.status) db.reports free)))
    ]

not_in_room :
    (space_id : ℕ) (c : MaintenanceCategory) (x r : Report)
    → r.equipment_id ≡ none
    → r.space_id ≡ space_id
    → r.category ≡ some c
    → is_ticket_in space_id c x ≡ false
    → NoClash x r
not_in_room space_id c x r at here of free = elim (Option-cases x.equipment_id) [
  | inr (i, on) ↦ rw (on, at) (ground arith)
  | inl room ↦ elim (Option-cases x.category) [
    | inl bare ↦ rw (room, at, bare) (ground arith)
    | inr (d, kind) ↦ rw (room, at, here, kind, of) (ground (arith, rw (room, kind) at free))
  ]
]

-- Without a category, or on another target, nothing clashes.
bare_category : (x r : Report) → r.equipment_id ≡ none → r.category ≡ none → NoClash x r
bare_category x r at bare = elim (Option-cases x.equipment_id) [
  | inr (i, on) ↦ rw (on, at) (ground arith)
  | inl room ↦ elim (Option-cases x.category) [
    | inl none_there ↦ rw (room, at, none_there) (ground arith)
    | inr (d, kind) ↦ rw (room, at, kind, bare) (ground arith)
  ]
]

room-free :
    (input : CreateReportInput) (db : EquipmentDb) {space : Space}
    → admit_room_report input db ≡ ok space
    → has_open_category input.category space.id db ≡ false
unfolding admit_room_report
room-free input db {space} h =
    let (s, got, rest) = >>=-eq-ok (found (find_room input.space_id db)) _ h in
    let (free, last) =
      throw_if-eq-ok (has_open_category input.category s.id db) (conflict_error open_ticket) (ok s)
        rest in
    let same : s ≡ space = cc in
    ap (λ (z : Space). has_open_category input.category z.id db) (sym same) ∙ free

room-All :
    (input : CreateReportInput) (space_id : ℕ) (db : EquipmentDb) (r : Report)
    → r.equipment_id ≡ none
    → r.space_id ≡ space_id
    → r.category ≡ input.category
    → has_open_category input.category space_id db ≡ false
    → All (λ x. NoClash x r) db.reports
room-All input space_id db r at here same free = elim (Option-cases input.category) [
  | inl bare ↦ All-intro (λ x. NoClash x r) db.reports (λ x. bare_category x r at (same ∙ bare))
  | inr (c, kind) ↦
      let guard : has category_code (get_open_room_status_by_category space_id db.reports) c
          ≡ false =
        rw kind at free in
      All-map_pred db.reports (λ x f. not_in_room space_id c x r at here (same ∙ kind) f)
        (any-eq-false (is_ticket_in space_id c) db.reports
          (sym (has-get_open_room_status space_id db.reports c) ∙ guard))
]

room_report-HasOneOpen :
    (now : ℕ) (ids : FreshIds) (user_id : ℕ) (input : CreateReportInput) (db : EquipmentDb)
    → HasOneOpen db
    → HasOneOpen (create_room_report now ids user_id input db).1
unfolding create_room_report
room_report-HasOneOpen now ids user_id input db h =
    elim (Result-cases (admit_room_report input db)) [
      | inr (e, bad) ↦ rw bad h
      | inl (space, good) ↦
          let r : Report =
            new_report now ids.report_id user_id none space.id input.category input in
          rw good (
            after_room_insert-HasOneOpen user_id r db h
              (room-All input space.id db r refl refl refl (room-free input db good)))
    ]

create_on-HasOneOpen :
    (now : ℕ) (ids : FreshIds) (user_id : ℕ) (input : CreateReportInput) (db : EquipmentDb)
    (room : Bool) (target : Option ℕ)
    → HasOneOpen db
    → HasOneOpen (create_on now ids user_id input db room target).1
create_on-HasOneOpen now ids user_id input db true none h =
    room_report-HasOneOpen now ids user_id input db h
create_on-HasOneOpen now ids user_id input db false (some id) h =
    equipment_report-HasOneOpen now ids user_id id input db h
create_on-HasOneOpen now ids user_id input db true (some id) h = h
create_on-HasOneOpen now ids user_id input db false none h = h

pub create-HasOneOpen :
    (now : ℕ) (ids : FreshIds) (user_id : ℕ) (input : CreateReportInput) (db : EquipmentDb)
    → HasOneOpen db
    → HasOneOpen (create now ids user_id input db).1
unfolding create
create-HasOneOpen now ids user_id input db h = create_on-HasOneOpen now ids user_id input db _ _ h
