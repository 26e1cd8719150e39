-- ===== src/Equipment/OneOpen.antt =====
-- services/equipment-report.service.ts: the open tickets of an equipment, and of a category of a
-- room, where only open tickets are acknowledged.
use ufcim_backend_proto.Prelude.{
  ℕ, ◌≡◌, refl, sym, subst, Bool, true, false, ◌||◌, Option, none, some, arith, ◌==◌, any, All,
  update_where, Pairs-update_where, Pairs, Pairs-update_where_if, written, if◌then◌else◌, or_else,
  Bool-cases, Option-cases, inl, inr,
}
use ufcim_backend_proto.Errors.{Result-cases}
use ufcim_backend_proto.Schedule.Times.{Text, text_eq}
use ufcim_backend_proto.Schema.{equipment_report_notice}
use ufcim_backend_proto.Equipment.{
  Equipment, is_open_status, same_status, Report, EquipmentDb, notify_user,
}
use ufcim_backend_proto.Equipment.Items.{
  CreateEquipmentInput, admit_equipment, new_equipment, insert_equipment, commit_equipment,
  write_status, commit_status, asset_clash, rewrite, set_status, status_row,
  UpdateEquipmentStatusInput, update_status, find_equipment,
}
use ufcim_backend_proto.Equipment.Items as Items
use ufcim_backend_proto.Equipment.Review.{
  acknowledge, resolve, dismiss, find_report, set_acknowledged, set_report, set_resolved,
  set_dismissed,
}
use ufcim_backend_proto.Equipment.NewTickets.{
  Keeps, with_history-Keeps, NoClash, HasOneOpen, create-HasOneOpen,
}
use ufcim_backend_proto.Equipment.Requests.{
  Step, creates_equipment, updates_status, creates_report, acknowledges, resolves, dismisses, Reach,
  here, next,
}

-- A review that closes tickets makes no clash.
closed-NoClash :
    (id : ℕ) (f : Report → Report)
    → ((r : Report) → is_open_status (f r).status ≡ false)
    → (x y : Report) → NoClash x y
    → NoClash (written (λ r. r.id == id) f x) (written (λ r. r.id == id) f y)
closed-NoClash id f shut x y n = elim (Bool-cases (x.id == id)) [
  | inl own ↦ rw (own, shut x) refl
  | inr other ↦ elim (Bool-cases (y.id == id)) [
    | inl own ↦ rw (other, own, shut y) (ground arith)
    | inr far ↦ rw (other, far) n
  ]
]

abbrev OpenAt : ℕ → Report → Type 0
OpenAt id r = r.id == id ≡ true → is_open_status r.status ≡ true

-- Nor does one that acknowledges open tickets.
acknowledged-NoClash :
    (now id user_id : ℕ) (x y : Report)
    → OpenAt id x
    → OpenAt id y
    → NoClash x y
    → NoClash
        (written (λ r. r.id == id) (set_acknowledged now user_id) x)
        (written (λ r. r.id == id) (set_acknowledged now user_id) y)
acknowledged-NoClash now id user_id x y p q n = elim (Bool-cases (x.id == id)) [
  | inl own ↦ elim (Bool-cases (y.id == id)) [
    | inl too ↦ rw (own, too) (rw (p own, q too) at n)
    | inr far ↦ rw (own, far) (rw (p own) at n)
  ]
  | inr other ↦ elim (Bool-cases (y.id == id)) [
    | inl own ↦ rw (other, own) (rw (q own) at n)
    | inr far ↦ rw (other, far) n
  ]
]

dismiss-HasOneOpen :
    (now id user_id : ℕ) (reason : Text) (db : EquipmentDb)
    → HasOneOpen db
    → HasOneOpen (dismiss now id user_id reason db).1
unfolding dismiss
dismiss-HasOneOpen now id user_id reason db h = elim (Option-cases (find_report id db)) [
  | inl absent ↦ rw absent h
  | inr (r, there) ↦ rw there (
      Pairs-update_where NoClash (λ r. r.id == id) (set_dismissed now reason)
        (closed-NoClash id (set_dismissed now reason) (λ r. refl)) db.reports h)
]

tell-reports :
    (b : Bool) (user_id : ℕ) (db : EquipmentDb)
    → (if b then notify_user user_id equipment_report_notice db else db).reports ≡ db.reports
tell-reports true user_id db = refl
tell-reports false user_id db = refl

resolve-HasOneOpen :
    (now id user_id : ℕ) (db : EquipmentDb)
    → HasOneOpen db
    → HasOneOpen (resolve now id user_id db).1
unfolding resolve
resolve-HasOneOpen now id user_id db h = elim (Option-cases (find_report id db)) [
  | inl absent ↦ rw absent h
  | inr (r, there) ↦
      let closed : Pairs NoClash (update_where (λ r. r.id == id) (set_resolved now) db.reports) =
        Pairs-update_where NoClash (λ r. r.id == id) (set_resolved now)
          (closed-NoClash id (set_resolved now) (λ r. refl)) db.reports h in
      rw there (
        subst (Pairs NoClash)
          (sym (tell-reports _ r.reported_by (set_report id (set_resolved now) db))) closed)
]

-- Every ticket of that identifier is open.
abbrev pub IsOpenTicket : ℕ → EquipmentDb → Type 0
IsOpenTicket id db = All (OpenAt id) db.reports

acknowledge-HasOneOpen :
    (now id user_id : ℕ) (db : EquipmentDb)
    → IsOpenTicket id db
    → HasOneOpen db
    → HasOneOpen (acknowledge now id user_id db).1
unfolding acknowledge
acknowledge-HasOneOpen now id user_id db opened h = elim (Option-cases (find_report id db)) [
  | inl absent ↦ rw absent h
  | inr (r, there) ↦ rw there (
      Pairs-update_where_if NoClash (OpenAt id) (λ r. r.id == id) (set_acknowledged now user_id)
        (acknowledged-NoClash now id user_id) db.reports opened h)
]

commit-reports :
    (user_id : ℕ) (e : Equipment) (db : EquipmentDb)
    → (commit_equipment user_id e db (insert_equipment e db)).1.reports ≡ db.reports
unfolding insert_equipment
commit-reports user_id e db =
    elim (Bool-cases (any (λ f. f.id == e.id || text_eq f.asset_id e.asset_id) db.equipment)) [
      | inl taken ↦ rw taken refl
      | inr new ↦ rw new refl
    ]

add-reports :
    (now id user_id : ℕ) (input : CreateEquipmentInput) (db : EquipmentDb)
    → (Items.create now id user_id input db).1.reports ≡ db.reports
unfolding Items.create
add-reports now id user_id input db = elim (Result-cases (admit_equipment input db)) [
  | inr (e, bad) ↦ rw bad refl
  | inl (space, good) ↦ rw good (commit-reports user_id (new_equipment now id user_id input) db)
]

write-Keeps :
    (now history_id id user_id : ℕ) (input : UpdateEquipmentStatusInput) (item : Equipment)
    (db : EquipmentDb)
    → Keeps db.reports (write_status now history_id id user_id input item db)
unfolding write_status
write-Keeps now history_id id user_id input item db =
    elim (Bool-cases (asset_clash id (or_else input.asset_id item.asset_id) db.equipment)) [
      | inl taken ↦ rw taken tt
      | inr free ↦ elim (Bool-cases (same_status item.status input.status)) [
        | inl same ↦ rw (free, same) refl
        | inr other ↦ rw (free, other) (with_history-Keeps _ _ db)
      ]
    ]

commit_status-reports :
    (now id user_id : ℕ) (input : UpdateEquipmentStatusInput) (item : Equipment) (db : EquipmentDb)
    (o : Option EquipmentDb)
    → Keeps db.reports o
    → (commit_status now id user_id input item db o).1.reports ≡ db.reports
commit_status-reports now id user_id input item db none k = refl
commit_status-reports now id user_id input item db (some d) k = k

status-reports :
    (now history_id id user_id : ℕ) (input : UpdateEquipmentStatusInput) (db : EquipmentDb)
    → (update_status now history_id id user_id input db).1.reports ≡ db.reports
unfolding update_status
status-reports now history_id id user_id input db = elim (Option-cases (find_equipment id db)) [
  | inl absent ↦ rw absent refl
  | inr (item, there) ↦ rw there (
      commit_status-reports now id user_id input item db _
        (write-Keeps now history_id id user_id input item db))
]

Step-HasOneOpen : {db db' : EquipmentDb} → Step IsOpenTicket db db' → HasOneOpen db → HasOneOpen db'
Step-HasOneOpen (creates_equipment now id user_id input) h =
    rw (add-reports now id user_id input _) h
Step-HasOneOpen (updates_status now history_id id user_id input) h =
    rw (status-reports now history_id id user_id input _) h
Step-HasOneOpen (creates_report now ids user_id input) h =
    create-HasOneOpen now ids user_id input _ h
Step-HasOneOpen (acknowledges now id user_id opened) h =
    acknowledge-HasOneOpen now id user_id _ opened h
Step-HasOneOpen (resolves now id user_id) h = resolve-HasOneOpen now id user_id _ h
Step-HasOneOpen (dismisses now id user_id reason) h = dismiss-HasOneOpen now id user_id reason _ h

-- Start from tables in which no equipment, and no category of a room, has two open tickets. Whatever
-- requests follow, of those that create and update equipment and create, resolve and dismiss
-- tickets, and that acknowledge tickets which are open, no equipment and no category of a room has
-- two open tickets.
pub Reach-HasOneOpen :
    {start db : EquipmentDb} → Reach IsOpenTicket start db → HasOneOpen start → HasOneOpen db
Reach-HasOneOpen here h = h
Reach-HasOneOpen (next r s) h = Step-HasOneOpen s (Reach-HasOneOpen r h)
