-- ===== src/Consistency/Editing.antt =====
-- `update` keeps the tables consistent.
use ufcim_backend_proto.Prelude.{
  ℕ, ◌≡◌, refl, sym, Bool, true, false, not, Option, none, some, arith, ◌==◌, Bool-cases,
  Option-cases, inl, inr, All, All-map_pred, find-All, find-Fits, Fits,
}
use ufcim_backend_proto.Errors.{AppError, ok-ne-err, Result, ok, ◌>>◌, throw_if, Result-cases}
use ufcim_backend_proto.Schedule.Times.{time_to_minutes, num_le, meets_minimum_duration}
use ufcim_backend_proto.Schedule.Days.{Clock}
use ufcim_backend_proto.Schema.{
  update_reservation as update_reservation_action, Space, Reservation, is_confirmed, Db,
}
use ufcim_backend_proto.Reservation.Guards.{
  find_space, find_reservation, assert_department_access, check_slot_availability, has_started,
}
use ufcim_backend_proto.Reservation.Tables.{update_reservation, with_id}
use ufcim_backend_proto.Reservation.Create.{Actor}
use ufcim_backend_proto.Reservation.Update.{
  UpdateReservationInput, edited, schedule_changed, check_if, find_editable, check_edit, update,
  notify_owner_if, tell_requester,
}
use ufcim_backend_proto.Consistency.{Apart, Uncovered, IsConsistent}
use ufcim_backend_proto.Consistency.Rows.{
  IsConsistent-notify, IsConsistent-log, check-clear, Apart_symm, covers_of_OpenUnder,
}
use ufcim_backend_proto.Consistency.Replacing.{
  Apart_of_FreeOf, Apart-unchanged, covers-unchanged, IsConsistent-replace, id_of_with_id,
}

IsConsistent-notify_owner_if :
    (told : Bool) (user_id : ℕ) (db : Db)
    → IsConsistent db
    → IsConsistent (notify_owner_if told user_id db)
IsConsistent-notify_owner_if true u db c = IsConsistent-notify u _ db c
IsConsistent-notify_owner_if false u db c = c

IsConsistent-tell_requester :
    (o : Option ℕ) (actor_id : ℕ) (db : Db)
    → IsConsistent db
    → IsConsistent (tell_requester o actor_id db)
IsConsistent-tell_requester none actor_id db c = c
IsConsistent-tell_requester (some id) actor_id db c =
    IsConsistent-notify_owner_if (not (id == actor_id)) id db c

edit_checks :
    (a : Result (Unit {0})) (b c d : Bool) (m : Result (Unit {0})) (e f : AppError)
    → (a >> (throw_if b e >> (throw_if c f >> check_if d m))) ≡ ok tt
    → (c ≡ false) × (d ≡ true → m ≡ ok tt)
edit_checks a b c true m e f h = (ground arith, λ _. ground arith)
edit_checks a b c false m e f h = (ground arith, λ k. cc)

module _ (clock : Clock) (db : Db) (actor : Actor) where
  -- What a row that may be edited has passed.
  pub find_editable-eq-ok :
      (id : ℕ) {r : Reservation}
      → find_editable clock db id actor ≡ ok r
      → (find_reservation db id ≡ some r)
        × (is_confirmed r.status ≡ true)
        × (has_started clock r.date r.start_time ≡ false)
  unfolding find_editable
  find_editable-eq-ok id h = ground arith

  -- What an edit has passed.
  pub check_edit-eq-ok :
      (r next : Reservation)
      → check_edit clock db actor r next ≡ ok tt
      → (meets_minimum_duration next.start_time next.end_time ≡ true)
        × (space : Space) × (schedule_changed r next ≡ true
            → check_slot_availability clock db space r.space_id next.date next.start_time
                next.end_time
                (some r.id)
              ≡ ok tt)
  unfolding check_edit
  check_edit-eq-ok r next h = elim (Option-cases (find_space db r.space_id)) [
    | inl missing ↦ absurd (ok-ne-err (sym (rw missing at h)))
    | inr (space, known) ↦
        let (long, free) =
          edit_checks (assert_department_access actor.role actor.department space.department)
            (num_le (time_to_minutes next.end_time) (time_to_minutes next.start_time))
            (not (meets_minimum_duration next.start_time next.end_time)) (schedule_changed r next)
            (check_slot_availability clock db space r.space_id next.date next.start_time
              next.end_time (some r.id))
            _ _ (rw known at h) in
        (ground arith, space, free)
  ]

-- The edited row fits beside the others.
edited-Fits :
    (clock : Clock) (db : Db) (space : Space) (id : ℕ) (r next : Reservation)
    → IsConsistent db
    → find_reservation db id ≡ some r
    → next.id ≡ r.id
    → next.space_id ≡ r.space_id
    → next.status ≡ r.status
    → (schedule_changed r next ≡ true
        → check_slot_availability clock db space r.space_id next.date next.start_time next.end_time
            (some r.id)
          ≡ ok tt)
    → All (Fits Apart Apart_symm (with_id id) next) db.reservations × Uncovered db next
edited-Fits clock db space id r next c known same_id same_space same_status free =
    let old = find-Fits Apart Apart_symm (with_id id) r db.reservations c.apart known in
    let (uncovered, is_r) =
      find-All (Uncovered db) (with_id id) db.reservations c.uncovered known in
    elim (Bool-cases (schedule_changed r next)) [
      | inr kept ↦ (
        All-map_pred db.reservations
            (λ x h n. Apart-unchanged r next same_space same_status kept x (h n)) old,
        All-map_pred db.blockings (covers-unchanged r next same_space same_status kept) uncovered,
      )
      | inl moved ↦
          let (clear, open_under) =
            check-clear clock db space _ _ _ _ (some r.id) (rw (← same_space) at (free moved)) in
          (
            All-map_pred db.reservations
                (λ x h n. Apart_of_FreeOf next x r.id (rw (← id_of_with_id id r is_r) at n) h)
                clear,
            All-map_pred db.blockings (covers_of_OpenUnder next) open_under,
          )
    ]

pub update-IsConsistent :
    (clock : Clock) (id : ℕ) (actor : Actor) (input : UpdateReservationInput) (db : Db)
    → IsConsistent db
    → IsConsistent (update clock id actor input db).1
unfolding update
update-IsConsistent clock id actor input db c =
    elim (Result-cases (find_editable clock db id actor)) [
      | inr (e, refused) ↦ rw refused c
      | inl (r, editable) ↦
          let next = edited clock input r in
          elim (Result-cases (check_edit clock db actor r next)) [
            | inr (e, refused) ↦ rw (editable, refused) c
            | inl (_, checked) ↦ elim (Option-cases (update_reservation id next db)) [
              | inl taken ↦ rw (editable, checked, taken) c
              | inr (db', stored) ↦
                  let (known, _, _) = find_editable-eq-ok clock db actor id editable in
                  let (_, space, free) = check_edit-eq-ok clock db actor r next checked in
                  let (_, is_r) =
                    find-All (Uncovered db) (with_id id) db.reservations c.uncovered known in
                  let (fits, clear) =
                    edited-Fits clock db space id r next c known refl refl refl free in
                  rw (editable, checked, stored)
                    (IsConsistent-tell_requester r.requester.requester_user_id actor.user_id _ (
                      IsConsistent-notify_owner_if (not (r.user_id == actor.user_id)) r.user_id _ (
                        IsConsistent-log actor.user_id update_reservation_action id db' (
                          IsConsistent-replace id next (id_of_with_id id r is_r) db db' c fits clear
                            stored))))
            ]
          ]
    ]
