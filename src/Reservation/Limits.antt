-- ===== src/Reservation/Limits.antt =====
-- services/reservation.service.ts: the limit of active reservations of a role.
use ufcim_backend_proto.Prelude.{
  ℕ, ◌+◌, ◌≤◌, ◌<◌, ◌≡◌, refl, ap, subst, sym, Bool, ◌&&◌, Option, none, some, Option-cases, inl,
  inr, List, [], ◌∷◌, ◌++◌, arith, ◌==◌, leb, select, length, some_when-eq-some,
}
use ufcim_backend_proto.Errors.{ok, Result-cases, ok-ne-err}
use ufcim_backend_proto.Schedule.Days.{Clock}
use ufcim_backend_proto.Schema.{UserRole, Reservation, is_confirmed, Db}
use ufcim_backend_proto.Reservation.Guards.{
  active_reservation_limit, active_count, enforce_active_limit,
}
use ufcim_backend_proto.Reservation.Tables.{notify, log, insert_reservation}
use ufcim_backend_proto.Reservation.Create.{
  Actor, CreateReservationInput, admit_create, create, new_reservation, commit_create,
  notify_requester,
}
use ufcim_backend_proto.Consistency.Booking.{admit_create-checked}

enforce_active_limit-lt :
    (clock : Clock) (db : Db) (user_id : ℕ) (role : UserRole) {limit : ℕ}
    → active_reservation_limit role ≡ some limit
    → enforce_active_limit clock db user_id role ≡ ok tt
    → active_count db user_id clock.campus_today < limit
unfolding enforce_active_limit
enforce_active_limit-lt clock db user_id role e h = ground arith

length-select-snoc {ℓ} :
    {A : Type ℓ} (p : A → Bool) (xs : List A) (a : A)
    → length (select p (xs ++ a ∷ [])) ≤ length (select p xs) + 1
length-select-snoc p [] a = ground arith
length-select-snoc p (x ∷ xs) a = ground (arith, length-select-snoc p xs a)

notify_requester-rows :
    (o : Option ℕ) (db : Db) → (notify_requester o db).reservations ≡ db.reservations
unfolding notify
notify_requester-rows none db = refl
notify_requester-rows (some id) db = refl

-- Notices and the audit log do not count.
active_count-notices :
    (actor : ℕ) (row : Reservation) (db : Db) (user_id today : ℕ)
    → active_count (commit_create actor row (some db) db).1 user_id today
      ≡ active_count db user_id today
unfolding notify log
active_count-notices actor row db user_id today =
    ap
      (λ (rs : List Reservation).
        length
          (select (λ r. r.user_id == user_id && (is_confirmed r.status && leb today r.date)) rs))
      (notify_requester-rows row.requester.requester_user_id _)

active_count-insert :
    (row : Reservation) (db db' : Db) (user_id today : ℕ)
    → insert_reservation row db ≡ some db'
    → active_count db' user_id today ≤ active_count db user_id today + 1
unfolding insert_reservation
active_count-insert row db db' user_id today e =
    let (_, same) = some_when-eq-some _ _ db' e in
    subst (λ (d : Db). active_count d user_id today ≤ active_count db user_id today + 1) same
      (length-select-snoc _ db.reservations row)

-- A user of a limited role who books successfully holds at most that many active reservations
-- (confirmed, today or later) afterwards.
pub create-within_limit :
    (clock : Clock) (id : ℕ) (actor : Actor) (input : CreateReservationInput) (db : Db) {limit : ℕ}
    {row : Reservation}
    → active_reservation_limit actor.role ≡ some limit
    → (create clock id actor input db).0 ≡ ok row
    → active_count (create clock id actor input db).1 actor.user_id clock.campus_today ≤ limit
unfolding create
create-within_limit clock id actor input db {limit} e done =
    elim (Result-cases (admit_create clock db actor input)) [
      | inr (x, refused) ↦ absurd (ok-ne-err (sym (rw refused at done)))
      | inl (requester, passed) ↦
          let row = new_reservation clock id actor input requester in
          let (_, _, within, _) = admit_create-checked clock db actor input passed in
          elim (Option-cases (insert_reservation row db)) [
            | inl taken ↦ absurd (ok-ne-err (sym (rw (passed, taken) at done)))
            | inr (db', inserted) ↦
                rw (passed, inserted)
                  (omega (
                    arith,
                    active_count-notices actor.user_id row db' actor.user_id clock.campus_today,
                    active_count-insert row db db' actor.user_id clock.campus_today inserted,
                    enforce_active_limit-lt clock db actor.user_id actor.role e within,
                  ))
          ]
    ]
