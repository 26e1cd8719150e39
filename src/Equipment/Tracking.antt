-- ===== src/Equipment/Tracking.antt =====
-- services/equipment.service.ts, services/equipment-report.service.ts: the status of an equipment and
-- its history, over any sequence of requests.
use ufcim_backend_proto.Prelude.{
  ℕ, ◌≡◌, refl, sym, subst, Bool, true, false, ◌&&◌, ◌||◌, Option, none, some, List, [], ◌∷◌, ◌++◌,
  arith, ◌==◌, any, any-eq-false, All, All-map_pred, All-snoc, find-append, select, Pairs-snoc,
  if◌then◌else◌, or_else, Bool-cases, Option-cases, inl, inr,
}
use ufcim_backend_proto.Errors.{ok, Result-cases}
use ufcim_backend_proto.Equipment.NewTickets.{equipment-free}
use ufcim_backend_proto.Schedule.Times.{Text, text_eq}
use ufcim_backend_proto.Schema.{User, equipment_report_notice}
use ufcim_backend_proto.Equipment.{
  EquipmentStatus, working, broken, under_repair, replacement_scheduled, same_status, Equipment,
  Severity, Report, HistoryRow, EquipmentDb, with_history, insert_report, notify_user,
}
use ufcim_backend_proto.Equipment.Items as Items
use ufcim_backend_proto.Equipment.Items.{
  CreateEquipmentInput, UpdateEquipmentStatusInput, rewrite, find_equipment, set_status, set_status,
  status_row, write_status, asset_clash, commit_status, update_status, new_equipment,
  insert_equipment, commit_equipment, admit_equipment,
}
use ufcim_backend_proto.Equipment.Reports.{
  CreateReportInput, FreshIds, create, create_on, admit_equipment_report, admit_room_report,
  break_if_serious, set_broken, broken_row, is_serious, is_working, notify_all, is_target, announce,
  create_equipment_report_for, create_room_report, new_report, after_break, after_insert,
  after_room_insert,
}
use ufcim_backend_proto.Equipment.Review.{
  set_report, set_resolved, acknowledge, resolve, dismiss, find_report,
}
use ufcim_backend_proto.Equipment.Requests.{
  Step, creates_equipment, updates_status, creates_report, acknowledges, resolves, dismisses, Reach,
  here, next,
}
use ufcim_backend_proto.Equipment.Replay.{
  replay-unseen, Explains, refers, Distinct, IsTracked, same-IsTracked, change-IsTracked,
  same_status_eq,
}

-- Any ticket may be acknowledged.
abbrev pub AnyTicket : ℕ → EquipmentDb → Type 0
AnyTicket id db = Unit

-- The equipment that is followed, and its first status.
module _ (mine : ℕ) (first : EquipmentStatus) where
  abbrev GoodOr : Option EquipmentDb → Type 0
  GoodOr none = Unit
  GoodOr (some db) = IsTracked mine first db

  write-GoodOr :
      (now history_id id user_id : ℕ) (input : UpdateEquipmentStatusInput) (item : Equipment)
      (db : EquipmentDb)
      → find_equipment id db ≡ some item
      → IsTracked mine first db
      → GoodOr (write_status now history_id id user_id input item db)
  unfolding write_status with_history
  write-GoodOr now history_id id user_id input item db there t =
      elim (Bool-cases (asset_clash id (or_else input.asset_id item.asset_id) db.equipment)) [
        | inl taken ↦ rw taken tt
        | inr free ↦ elim (Bool-cases (same_status item.status input.status)) [
          | inl same ↦
              rw (free, same)
                (same-IsTracked id (set_status now user_id input item) (λ e. refl) mine first db
                  item there (λ e. sym (same_status_eq item.status input.status same)) t)
          | inr other ↦ elim (Bool-cases (any (λ g. g.id == history_id) db.history)) [
            | inl twice ↦ rw (free, other, twice) tt
            | inr new ↦
                rw (free, other, new)
                  (change-IsTracked id (set_status now user_id input item) (λ e. refl) mine first db
                    item there (status_row now history_id id user_id input item) refl refl
                    (λ e. refl) t)
          ]
        ]
      ]

  commit-IsTracked :
      (now id user_id : ℕ) (input : UpdateEquipmentStatusInput) (item : Equipment)
      (db : EquipmentDb) (o : Option EquipmentDb)
      → IsTracked mine first db
      → GoodOr o
      → IsTracked mine first (commit_status now id user_id input item db o).1
  commit-IsTracked now id user_id input item db none t k = t
  commit-IsTracked now id user_id input item db (some d) t k = k

  update_status-IsTracked :
      (now history_id id user_id : ℕ) (input : UpdateEquipmentStatusInput) (db : EquipmentDb)
      → IsTracked mine first db
      → IsTracked mine first (update_status now history_id id user_id input db).1
  unfolding update_status
  update_status-IsTracked now history_id id user_id input db t =
      elim (Option-cases (find_equipment id db)) [
        | inl absent ↦ rw absent t
        | inr (item, there) ↦ rw there (
            commit-IsTracked now id user_id input item db _ t
              (write-GoodOr now history_id id user_id input item db there t))
      ]

  -- New equipment has no row.
  unseen :
      (id : ℕ) (items : List Equipment) (h : HistoryRow)
      → All (λ e. e.id == id ≡ false) items
      → refers items h ≡ true
      → h.equipment_id == id ≡ false
  unseen id [] h u r = cc
  unseen id (e ∷ es) h (far, u) r = elim (Bool-cases (e.id == h.equipment_id)) [
    | inl about ↦ ground (arith, far, about)
    | inr other ↦ unseen id es h u (rw other at r)
  ]

  or_false : (a b : Bool) → (a || b) ≡ false → a ≡ false
  or_false a b h = ground arith

  and_right : (a b : Bool) → (a && b) ≡ true → b ≡ true
  and_right a b h = ground arith

  refers-snoc :
      (h : HistoryRow) (xs : List Equipment) (e : Equipment)
      → refers xs h ≡ true
      → refers (xs ++ e ∷ []) h ≡ true
  refers-snoc h [] e r = cc
  refers-snoc h (x ∷ xs) e r = elim (Bool-cases (x.id == h.equipment_id)) [
    | inl about ↦ rw about refl
    | inr other ↦ rw other (refers-snoc h xs e (rw other at r))
  ]

  commit_equipment-IsTracked :
      (user_id : ℕ) (e : Equipment) (db : EquipmentDb)
      → IsTracked mine first db
      → IsTracked mine first (commit_equipment user_id e db (insert_equipment e db)).1
  unfolding insert_equipment
  commit_equipment-IsTracked user_id e db (d, r, x, (mine_now, found, led)) =
      elim (Bool-cases (any (λ f. f.id == e.id || text_eq f.asset_id e.asset_id) db.equipment)) [
        | inl taken ↦ rw taken (d, r, x, (mine_now, found, led))
        | inr new ↦
            let fresh : All (λ f. f.id == e.id ≡ false) db.equipment =
              All-map_pred db.equipment (λ f n. or_false (f.id == e.id) _ n)
                (any-eq-false (λ f. f.id == e.id || text_eq f.asset_id e.asset_id) db.equipment
                  new) in
            rw new (
              Pairs-snoc Distinct db.equipment e d fresh,
              All-map_pred db.history (λ h k. refers-snoc h db.equipment e k) r,
              All-snoc (Explains db.history) db.equipment x (
                e.status,
                replay-unseen e.id e.status db.history
                    (All-map_pred db.history (λ h k. unseen e.id db.equipment h fresh k) r),
              ),
              (mine_now, find-append (λ x. x.id == mine) db.equipment (e ∷ []) found, led),
            )
      ]

  create-IsTracked :
      (now id user_id : ℕ) (input : CreateEquipmentInput) (db : EquipmentDb)
      → IsTracked mine first db
      → IsTracked mine first (Items.create now id user_id input db).1
  unfolding Items.create
  create-IsTracked now id user_id input db t = elim (Result-cases (admit_equipment input db)) [
    | inr (e, bad) ↦ rw bad t
    | inl (space, good) ↦
        rw good (commit_equipment-IsTracked user_id (new_equipment now id user_id input) db t)
  ]

  is_working-eq : (s : EquipmentStatus) → is_working s ≡ true → s ≡ working
  is_working-eq working h = refl
  is_working-eq broken h = cc
  is_working-eq under_repair h = cc
  is_working-eq replacement_scheduled h = cc

  break-GoodOr :
      (now history_id user_id : ℕ) (equip : Equipment) (severity : Severity) (db : EquipmentDb)
      → find_equipment equip.id db ≡ some equip
      → IsTracked mine first db
      → GoodOr (break_if_serious now history_id user_id equip severity db)
  unfolding break_if_serious with_history
  break-GoodOr now history_id user_id equip severity db there t =
      elim (Bool-cases (is_serious severity && is_working equip.status)) [
        | inr calm ↦ rw calm t
        | inl hit ↦ elim (Bool-cases (any (λ g. g.id == history_id) db.history)) [
          | inl twice ↦ rw (hit, twice) tt
          | inr new ↦
              rw (hit, new)
                (change-IsTracked equip.id (set_broken now user_id) (λ e. refl) mine first db equip
                  there (broken_row now history_id user_id equip.id) refl
                  (sym (is_working-eq equip.status (and_right _ _ hit))) (λ e. refl) t)
        ]
      ]

  admitted-find :
      (now user_id id : ℕ) (db : EquipmentDb) {equip : Equipment}
      → admit_equipment_report now user_id id db ≡ ok equip
      → find_equipment equip.id db ≡ some equip
  admitted-find now user_id id db {equip} h =
      let (own, there, free) = equipment-free now user_id id db h in
      subst (λ i. find_equipment i db ≡ some equip) (sym own) there

  notify_all-IsTracked :
      (us : List User) (db : EquipmentDb)
      → IsTracked mine first db
      → IsTracked mine first (notify_all us db)
  notify_all-IsTracked [] db t = t
  notify_all-IsTracked (u ∷ us) db t = notify_all-IsTracked us _ t

  announce-IsTracked :
      (user_id : ℕ) (r : Report) (db : EquipmentDb)
      → IsTracked mine first db
      → IsTracked mine first (announce user_id r db).1
  announce-IsTracked user_id r db t = notify_all-IsTracked (select is_target db.users) db t

  after_break-IsTracked :
      (user_id : ℕ) (r : Report) (db : EquipmentDb) (o : Option EquipmentDb)
      → IsTracked mine first db
      → GoodOr o
      → IsTracked mine first (after_break user_id r db o).1
  after_break-IsTracked user_id r db none t k = t
  after_break-IsTracked user_id r db (some d) t k = announce-IsTracked user_id r d k

  after_insert-IsTracked :
      (now history_id user_id : ℕ) (equip : Equipment) (r : Report) (db : EquipmentDb)
      → find_equipment equip.id db ≡ some equip
      → IsTracked mine first db
      → IsTracked mine first (after_insert now history_id user_id equip r db (insert_report r db)).1
  unfolding insert_report
  after_insert-IsTracked now history_id user_id equip r db there t =
      elim (Bool-cases (any (λ s. s.id == r.id) db.reports)) [
        | inl taken ↦ rw taken t
        | inr new ↦
            let d : EquipmentDb = record db { reports = db.reports ++ r ∷ [] } in
            rw new (
              after_break-IsTracked user_id r d
                (break_if_serious now history_id user_id equip r.severity d) t
                (break-GoodOr now history_id user_id equip r.severity d there t))
      ]

  after_room_insert-IsTracked :
      (user_id : ℕ) (r : Report) (db : EquipmentDb)
      → IsTracked mine first db
      → IsTracked mine first (after_room_insert user_id r db (insert_report r db)).1
  unfolding insert_report
  after_room_insert-IsTracked user_id r db t =
      elim (Bool-cases (any (λ s. s.id == r.id) db.reports)) [
        | inl taken ↦ rw taken t
        | inr new ↦
            rw new (announce-IsTracked user_id r (record db { reports = db.reports ++ r ∷ [] }) t)
      ]

  create_on-IsTracked :
      (now : ℕ) (ids : FreshIds) (user_id : ℕ) (input : CreateReportInput) (db : EquipmentDb)
      (room : Bool) (target : Option ℕ)
      → IsTracked mine first db
      → IsTracked mine first (create_on now ids user_id input db room target).1
  unfolding create_room_report create_equipment_report_for
  create_on-IsTracked now ids user_id input db true none t =
      elim (Result-cases (admit_room_report input db)) [
        | inr (e, bad) ↦ rw bad t
        | inl (space, good) ↦ rw good (
            after_room_insert-IsTracked user_id
              (new_report now ids.report_id user_id none space.id input.category input) db t)
      ]
  create_on-IsTracked now ids user_id input db false (some id) t =
      elim (Result-cases (admit_equipment_report now user_id id db)) [
        | inr (e, bad) ↦ rw bad t
        | inl (equip, good) ↦ rw good (
            after_insert-IsTracked now ids.history_id user_id equip
              (new_report now ids.report_id user_id (some equip.id) equip.space_id none input) db
              (admitted-find now user_id id db good) t)
      ]
  create_on-IsTracked now ids user_id input db true (some id) t = t
  create_on-IsTracked now ids user_id input db false none t = t

  report-IsTracked :
      (now : ℕ) (ids : FreshIds) (user_id : ℕ) (input : CreateReportInput) (db : EquipmentDb)
      → IsTracked mine first db
      → IsTracked mine first (create now ids user_id input db).1
  unfolding create
  report-IsTracked now ids user_id input db t = create_on-IsTracked now ids user_id input db _ _ t

  acknowledge-IsTracked :
      (now id user_id : ℕ) (db : EquipmentDb)
      → IsTracked mine first db
      → IsTracked mine first (acknowledge now id user_id db).1
  unfolding acknowledge
  acknowledge-IsTracked now id user_id db t = elim (Option-cases (find_report id db)) [
    | inl absent ↦ rw absent t
    | inr (r, there) ↦ rw there t
  ]

  dismiss-IsTracked :
      (now id user_id : ℕ) (reason : Text) (db : EquipmentDb)
      → IsTracked mine first db
      → IsTracked mine first (dismiss now id user_id reason db).1
  unfolding dismiss
  dismiss-IsTracked now id user_id reason db t = elim (Option-cases (find_report id db)) [
    | inl absent ↦ rw absent t
    | inr (r, there) ↦ rw there t
  ]

  tell-IsTracked :
      (b : Bool) (user_id : ℕ) (db : EquipmentDb)
      → IsTracked mine first db
      → IsTracked mine first (if b then notify_user user_id equipment_report_notice db else db)
  tell-IsTracked true user_id db t = t
  tell-IsTracked false user_id db t = t

  resolve-IsTracked :
      (now id user_id : ℕ) (db : EquipmentDb)
      → IsTracked mine first db
      → IsTracked mine first (resolve now id user_id db).1
  unfolding resolve
  resolve-IsTracked now id user_id db t = elim (Option-cases (find_report id db)) [
    | inl absent ↦ rw absent t
    | inr (r, there) ↦ rw there (
        tell-IsTracked (any (λ u. u.id == r.reported_by) db.users) r.reported_by
          (set_report id (set_resolved now) db) t)
  ]

  Step-IsTracked :
      {db db' : EquipmentDb}
      → Step AnyTicket db db'
      → IsTracked mine first db
      → IsTracked mine first db'
  Step-IsTracked (creates_equipment now id user_id input) t =
      create-IsTracked now id user_id input _ t
  Step-IsTracked (updates_status now history_id id user_id input) t =
      update_status-IsTracked now history_id id user_id input _ t
  Step-IsTracked (creates_report now ids user_id input) t =
      report-IsTracked now ids user_id input _ t
  Step-IsTracked (acknowledges now id user_id any_ticket) t =
      acknowledge-IsTracked now id user_id _ t
  Step-IsTracked (resolves now id user_id) t = resolve-IsTracked now id user_id _ t
  Step-IsTracked (dismisses now id user_id reason) t = dismiss-IsTracked now id user_id reason _ t

-- Start from tables in which equipment has distinct identifiers, history rows are about equipment
-- there is, and the history rows of each equipment, each starting from the status that the one before
-- it set, lead from some status to its status. Let `mine` be an equipment in these tables, whose rows
-- lead from the status `first` to its status. Whatever requests on equipment and tickets follow, this
-- is so of the tables they leave, with the same `first`: the status of `mine` is always the one that
-- its history gives.
pub Reach-IsTracked :
    (mine : ℕ) (first : EquipmentStatus) {start db : EquipmentDb}
    → Reach AnyTicket start db
    → IsTracked mine first start
    → IsTracked mine first db
Reach-IsTracked mine first here t = t
Reach-IsTracked mine first (next r s) t =
    Step-IsTracked mine first s (Reach-IsTracked mine first r t)
