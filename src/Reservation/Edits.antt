-- ===== src/Reservation/Edits.antt =====
-- services/reservation.service.ts `update`: what an edited reservation is.
use ufcim_backend_proto.Prelude.{
  ℕ, ◌+◌, ◌≤◌, ◌≡◌, refl, sym, subst, ◌∙◌, not, Option, none, Bool, true, false, some, List, [],
  ◌∷◌, ◌==◌, find, find-All, All-intro, length, length-update_where, update_where,
  some_when-eq-some, Bool-cases, Option-cases, inl, inr, arith,
}
use ufcim_backend_proto.Errors.{ok, Result-cases, ok-ne-err}
use ufcim_backend_proto.Schedule.Times.{time_to_minutes, meets_minimum_duration}
use ufcim_backend_proto.Schedule.Days.{Clock}
use ufcim_backend_proto.Schema.{
  Reservation, is_confirmed, Db, ActionType, update_reservation as update_reservation_action,
}
use ufcim_backend_proto.Reservation.Guards.{should_notify_requester, has_started, find_reservation}
use ufcim_backend_proto.Reservation.Tables.{with_id, update_reservation, notify, log}
use ufcim_backend_proto.Reservation.Create.{Actor}
use ufcim_backend_proto.Reservation.Update.{
  UpdateReservationInput, edited, tell_requester, notify_owner_if, find_editable, check_edit,
  update,
}
use ufcim_backend_proto.Consistency.Editing.{find_editable-eq-ok, check_edit-eq-ok}

-- From the start to the end it takes an hour or more.
abbrev pub LastsAnHour : Reservation → Type 0
LastsAnHour r =
    (s : ℕ) × (e : ℕ) × (time_to_minutes r.start_time ≡ some s)
    × (time_to_minutes r.end_time ≡ some e)
    × (s + 60 ≤ e)

true-ne-false : {b : Bool} → b ≡ true → b ≡ false → ⊥
true-ne-false t f = cc

ok-inj : {r next : Reservation} → ok r ≡ ok next → r ≡ next
ok-inj h = cc

meets_minimum-LastsAnHour :
    (r : Reservation) → meets_minimum_duration r.start_time r.end_time ≡ true → LastsAnHour r
unfolding meets_minimum_duration
meets_minimum-LastsAnHour r h = elim (Option-cases (time_to_minutes r.start_time)) [
  | inl nan ↦ absurd (true-ne-false h (rw nan refl))
  | inr (s, start) ↦ elim (Option-cases (time_to_minutes r.end_time)) [
    | inl nan ↦ absurd (true-ne-false h (rw (start, nan) refl))
    | inr (e, end) ↦ (s, e, start, end, ground arith)
  ]
]

-- What stays as it was.
abbrev pub Keeps : Reservation → Reservation → Type 0
Keeps r next =
    (next.id ≡ r.id)
    × (next.space_id ≡ r.space_id)
    × (next.user_id ≡ r.user_id)
    × (next.requester ≡ r.requester)
    × (next.recurrence_id ≡ r.recurrence_id)
    × (is_confirmed next.status ≡ true)

-- A write to the row of an identifier that the table holds.
find-written :
    (id : ℕ) (next : Reservation) (rows : List Reservation) {r : Reservation}
    → next.id == id ≡ true
    → find (λ x. x.id == id) rows ≡ some r
    → find (λ x. x.id == id) (update_where (with_id id) (λ _. next) rows) ≡ some next
find-written id next [] own h = cc
find-written id next (x ∷ xs) own h = elim (Bool-cases (x.id == id)) [
  | inl hit ↦ rw (hit, own) refl
  | inr miss ↦ rw (miss, miss) (find-written id next xs own (rw miss at h))
]

find-unwritten :
    (id other : ℕ) (next : Reservation) (rows : List Reservation)
    → next.id == id ≡ true
    → id == other ≡ false
    → find (λ x. x.id == other) (update_where (with_id id) (λ _. next) rows)
      ≡ find (λ x. x.id == other) rows
find-unwritten id other next [] own far = refl
find-unwritten id other next (x ∷ xs) own far = elim (Bool-cases (x.id == id)) [
  | inl hit ↦
      let written : next.id == other ≡ false = ground (arith, own, far) in
      let before : x.id == other ≡ false = ground (arith, hit, far) in
      rw (hit, written, before) (find-unwritten id other next xs own far)
  | inr miss ↦ elim (Bool-cases (x.id == other)) [
    | inl sought ↦ rw (miss, sought) refl
    | inr not_sought ↦ rw (miss, not_sought) (find-unwritten id other next xs own far)
  ]
]

-- The reservations after the update of a row: the row, another row, and how many there are.
abbrev pub Stores : ℕ → ℕ → Reservation → List Reservation → List Reservation → Type 0
Stores id other next rows rows' =
    (find (with_id id) rows' ≡ some next)
    × (find (with_id other) rows' ≡ find (with_id other) rows)
    × (length rows' ≡ length rows)

update_reservation-Stores :
    (id other : ℕ) (next : Reservation) (db : Db) {db' : Db} {r : Reservation}
    → next.id == id ≡ true
    → id == other ≡ false
    → find_reservation db id ≡ some r
    → update_reservation id next db ≡ some db'
    → Stores id other next db.reservations db'.reservations
unfolding update_reservation
update_reservation-Stores id other next db {db'} own far there stored =
    let (_, is_db') = some_when-eq-some _ _ db' stored in
    subst (λ (d : Db). Stores id other next db.reservations d.reservations) is_db'
      (
        find-written id next db.reservations own there,
        find-unwritten id other next db.reservations own far,
        length-update_where (with_id id) (λ _. next) db.reservations,
      )

tell_requester-rows :
    (o : Option ℕ) (actor_id : ℕ) (db : Db)
    → (tell_requester o actor_id db).reservations ≡ db.reservations
unfolding notify
tell_requester-rows none actor_id db = refl
tell_requester-rows (some id) actor_id db =
    elim (Bool-cases (should_notify_requester (some id) actor_id)) [
      | inl told ↦ rw told refl
      | inr quiet ↦ rw quiet refl
    ]

owner_told-rows :
    (told : Bool) (owner user_id id : ℕ) (action : ActionType) (db : Db)
    → (notify_owner_if told owner (log user_id action id db)).reservations ≡ db.reservations
unfolding notify log
owner_told-rows true owner user_id id action db = refl
owner_told-rows false owner user_id id action db = refl

-- A reservation that was edited with success was confirmed and had not started; it keeps its
-- identifier, space, owner, requester, series and status, and lasts an hour or more. The table holds
-- it in the place of the old row, and any other reservation as before.
pub update-edits :
    (clock : Clock) (id other : ℕ) (actor : Actor) (input : UpdateReservationInput) (db : Db)
    {next : Reservation}
    → (update clock id actor input db).0 ≡ ok next
    → id == other ≡ false
    → (r : Reservation) × (find_reservation db id ≡ some r)
      × (is_confirmed r.status ≡ true)
      × (has_started clock r.date r.start_time ≡ false)
      × Keeps r next
      × LastsAnHour next
      × Stores id other next db.reservations (update clock id actor input db).1.reservations
unfolding update
update-edits clock id other actor input db {next} done far =
    elim (Result-cases (find_editable clock db id actor)) [
      | inr (e, refused) ↦ absurd (ok-ne-err (sym (rw refused at done)))
      | inl (r, editable) ↦
          elim (Result-cases (check_edit clock db actor r (edited clock input r))) [
            | inr (e, refused) ↦ absurd (ok-ne-err (sym (rw (editable, refused) at done)))
            | inl (_, checked) ↦
                elim (Option-cases (update_reservation id (edited clock input r) db)) [
                  | inl taken ↦ absurd (ok-ne-err (sym (rw (editable, checked, taken) at done)))
                  | inr (db', stored) ↦
                      let is_next = ok-inj (rw (editable, checked, stored) at done) in
                      let (known, standing, ahead) =
                        find_editable-eq-ok clock db actor id editable in
                      let (long, _, _) =
                        check_edit-eq-ok clock db actor r (edited clock input r) checked in
                      let mine : r.id == id ≡ true =
                        (find-All (λ x. x.id ≡ x.id) (λ x. x.id == id) db.reservations
                          (All-intro (λ x. x.id ≡ x.id) db.reservations (λ x. refl)) known).1 in
                      (
                        r,
                        known,
                        standing,
                        ahead,
                        subst (Keeps r) is_next (refl, refl, refl, refl, refl, standing),
                        subst LastsAnHour is_next
                            (meets_minimum-LastsAnHour (edited clock input r) long),
                        rw (editable, checked, stored, ← is_next)
                            (subst (Stores id other (edited clock input r) db.reservations)
                              (sym (
                                tell_requester-rows r.requester.requester_user_id actor.user_id _
                                ∙ owner_told-rows (not (r.user_id == actor.user_id)) r.user_id
                                    actor.user_id id update_reservation_action db'))
                              (update_reservation-Stores id other (edited clock input r) db mine far
                                known stored)),
                      )
                ]
          ]
    ]
