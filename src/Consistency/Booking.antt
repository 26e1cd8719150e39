-- ===== src/Consistency/Booking.antt =====
-- `create` and `createRecurring` keep the tables consistent.
use ufcim_backend_proto.Prelude.{
  ℕ, ◌≡◌, true, not, Option, none, some, List, [], ◌∷◌, arith, ◌==◌, Bool-cases, Option-cases, inl,
  inr, any, All-map_pred,
}
use ufcim_backend_proto.Errors.{
  ok, throw_if, conflict_error, space_not_reservable, >>=-eq-ok, Result-cases,
}
use ufcim_backend_proto.Schedule.Days.{Clock, generate_recurring_dates}
use ufcim_backend_proto.Schema.{Space, Requester, Reservation, Db}
use ufcim_backend_proto.Reservation.Guards.{
  found, find_space, assert_department_access, check_slot_availability, enforce_active_limit,
  resolve_requester,
}
use ufcim_backend_proto.Reservation.Tables.{insert_reservation}
use ufcim_backend_proto.Reservation.Create.{
  Actor, CreateReservationInput, admit_create, new_reservation, notify_requester, create,
}
use ufcim_backend_proto.Reservation.Recurring.{
  CreateRecurringInput, occurrence, Progress, book_date, book_dates, create_recurring,
  admit_recurring, start_series, notify_if_created,
}
use ufcim_backend_proto.Consistency.{IsConsistent}
use ufcim_backend_proto.Consistency.Rows.{
  IsConsistent-notify, IsConsistent-log, IsConsistent-insert, check-clear, clash_of_FreeOf,
  covers_of_OpenUnder,
}

-- A row whose slot passed the check may be inserted.
insert_checked :
    (clock : Clock) (db db' : Db) (space : Space) (row : Reservation)
    → IsConsistent db
    → check_slot_availability clock db space row.space_id row.date row.start_time row.end_time none
      ≡ ok tt
    → insert_reservation row db ≡ some db'
    → IsConsistent db'
insert_checked clock db db' space row c h e =
    let (free, unblocked) = check-clear clock db space _ _ _ _ none h in
    IsConsistent-insert row db db' c (All-map_pred db.reservations (clash_of_FreeOf row) free)
      (All-map_pred db.blockings (covers_of_OpenUnder row) unblocked) e

IsConsistent-notify_requester :
    (o : Option ℕ) (db : Db) → IsConsistent db → IsConsistent (notify_requester o db)
IsConsistent-notify_requester none db c = c
IsConsistent-notify_requester (some id) db c = IsConsistent-notify id _ db c

module _ (clock : Clock) (db : Db) (actor : Actor) (input : CreateReservationInput) where
  -- What an admitted request has passed.
  pub admit_create-checked :
      {requester : Option Requester}
      → admit_create clock db actor input ≡ ok requester
      → (space : Space) × (check_slot_availability clock db space input.space_id input.date
            input.start_time input.end_time none
          ≡ ok tt)
        × (enforce_active_limit clock db actor.user_id actor.role ≡ ok tt)
        × (space.reservable ≡ true)
  unfolding admit_create
  admit_create-checked h =
      let (_, _, h1) =
        >>=-eq-ok (resolve_requester db actor.user_id actor.role input.requester) _ h in
      let (space, _, h2) = >>=-eq-ok (found (find_space db input.space_id)) _ h1 in
      let (_, open_space, h3) =
        >>=-eq-ok (throw_if (not space.reservable) (conflict_error space_not_reservable)) _ h2 in
      let (_, _, h4) =
        >>=-eq-ok (assert_department_access actor.role actor.department space.department) _ h3 in
      let (_, free, h5) =
        >>=-eq-ok
          (check_slot_availability clock db space input.space_id input.date input.start_time
            input.end_time none)
          _ h4 in
      let (_, within, _) =
        >>=-eq-ok (enforce_active_limit clock db actor.user_id actor.role) _ h5 in
      (space, free, within, ground arith)

pub create-IsConsistent :
    (clock : Clock) (id : ℕ) (actor : Actor) (input : CreateReservationInput) (db : Db)
    → IsConsistent db
    → IsConsistent (create clock id actor input db).1
unfolding create
create-IsConsistent clock id actor input db c =
    elim (Result-cases (admit_create clock db actor input)) [
      | inr (e, refused) ↦ rw refused c
      | inl (requester, passed) ↦
          let row = new_reservation clock id actor input requester in
          let (space, free, _, _) = admit_create-checked clock db actor input passed in
          elim (Option-cases (insert_reservation row db)) [
            | inl taken ↦ rw (passed, taken) c
            | inr (db', inserted) ↦
                rw (passed, inserted)
                  (IsConsistent-notify_requester row.requester.requester_user_id _ (
                    IsConsistent-notify _ _ _ (
                      IsConsistent-log _ _ _ db'
                        (insert_checked clock db db' space row c free inserted))))
          ]
    ]

module _ (clock : Clock) (uuid : ℕ → ℕ) (actor : Actor) (input : CreateRecurringInput)
    (requester : Option Requester) (space : Space) where
  book_date-IsConsistent :
      (date : ℕ) (p : Progress)
      → IsConsistent p.db
      → IsConsistent (book_date clock uuid actor input requester space date p).db
  unfolding book_date
  book_date-IsConsistent date p c =
      elim (Result-cases (
        check_slot_availability clock p.db space input.space_id date input.start_time input.end_time
          none)) [
            | inr (e, refused) ↦ rw refused c
            | inl (_, free) ↦
                let row = occurrence clock (uuid p.drawn) (uuid 0) actor input requester date in
                elim (Option-cases (insert_reservation row p.db)) [
                  | inl taken ↦ rw (free, taken) c
                  | inr (db', inserted) ↦
                      rw (free, inserted) (insert_checked clock p.db db' space row c free inserted)
                ]
          ]

  book_dates-IsConsistent :
      (dates : List ℕ) (p : Progress)
      → IsConsistent p.db
      → IsConsistent (book_dates clock uuid actor input requester space dates p).db
  unfolding book_dates
  book_dates-IsConsistent [] p c = c
  book_dates-IsConsistent (d ∷ ds) p c = book_dates-IsConsistent ds _ (book_date-IsConsistent d p c)

IsConsistent-start_series :
    (clock : Clock) (id : ℕ) (actor : Actor) (input : CreateRecurringInput)
    (requester : Option Requester) (db : Db)
    → IsConsistent db
    → IsConsistent (start_series clock id actor input requester db)
IsConsistent-start_series clock id actor input requester db c = record {
  ids = c.ids;
  apart = c.apart;
  uncovered = c.uncovered;
  blockings_apart = c.blockings_apart;
}

IsConsistent-notify_if_created :
    (rows : List Reservation) (o : Option ℕ) (db : Db)
    → IsConsistent db
    → IsConsistent (notify_if_created rows o db)
IsConsistent-notify_if_created [] o db c = c
IsConsistent-notify_if_created (r ∷ rs) o db c = IsConsistent-notify_requester o db c

pub create_recurring-IsConsistent :
    (clock : Clock) (uuid : ℕ → ℕ) (actor : Actor) (input : CreateRecurringInput) (db : Db)
    → IsConsistent db
    → IsConsistent (create_recurring clock uuid actor input db).1
unfolding create_recurring
create_recurring-IsConsistent clock uuid actor input db c =
    elim (Result-cases (admit_recurring db actor input)) [
      | inr (e, refused) ↦ rw refused c
      | inl ((requester, space), passed) ↦
          elim (Bool-cases (any (λ r. r.id == uuid 0) db.recurrences)) [
            | inl used ↦ rw (passed, used) c
            | inr fresh ↦
                rw (passed, fresh)
                  (IsConsistent-notify_if_created _ _ _ (
                    IsConsistent-log _ _ _ _ (
                      book_dates-IsConsistent clock uuid actor input requester space
                        (generate_recurring_dates input.start_date input.end_date
                          input.days_of_week)
                        _ (IsConsistent-start_series clock (uuid 0) actor input requester db c))))
          ]
    ]
