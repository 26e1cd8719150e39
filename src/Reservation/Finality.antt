-- ===== src/Reservation/Finality.antt =====
-- services/reservation.service.ts `cancelSeries`: a canceled series has nothing left to cancel.
use ufcim_backend_proto.Prelude.{
  ℕ, ◌≤◌, ◌≡◌, refl, sym, ◌∙◌, ap, true, false, ◌&&◌, Option, inl, inr, List, [], ◌∷◌, arith, leb,
  select, Bool-cases, All, update_where,
}
use ufcim_backend_proto.Errors.{
  ok, is_ok, Result-cases, >>=-eq-ok, throw_if-eq-ok, forbidden_error, maintenance_cannot_manage,
  app_error, already_canceled, series_already_canceled,
}
use ufcim_backend_proto.Schedule.Times.{Text}
use ufcim_backend_proto.Schedule.Days.{Clock}
use ufcim_backend_proto.Schema.{is_maintenance, Reservation, is_confirmed, Db}
use ufcim_backend_proto.Permissions.{cancel as cancel_action}
use ufcim_backend_proto.Reservation.Guards.{assert_can_manage}
use ufcim_backend_proto.Reservation.Create.{Actor}
use ufcim_backend_proto.Reservation.Cancel.{
  cancel_series, admit_cancel_series, in_series, in_series_from_today, set_canceled, upcoming,
  no_rows, first_row, recurrence_of, series_owner, series_requester,
}
use ufcim_backend_proto.Reservation.Cancellation.{cancel_series-rows}

module _ (clock : Clock) (id : ℕ) (reason : Option Text) where
  canceled-none_confirmed :
      (rows : List Reservation)
      → All
          (λ r. (in_series_from_today clock id r && is_confirmed r.status) ≡ false)
          (update_where (in_series_from_today clock id) (set_canceled clock reason) rows)
  canceled-none_confirmed [] = tt
  canceled-none_confirmed (r ∷ rs) = (
    elim (Bool-cases (in_series_from_today clock id r)) [
      | inl hit ↦ rw hit (ground arith)
      | inr miss ↦ rw (miss, miss) refl
    ],
    canceled-none_confirmed rs,
  )

  none_upcoming :
      (later : Clock) (rows : List Reservation)
      → clock.campus_today ≤ later.campus_today
      → All (λ r. (in_series_from_today clock id r && is_confirmed r.status) ≡ false) rows
      → select
          (λ r. is_confirmed r.status && leb later.campus_today r.date)
          (select (in_series id) rows)
        ≡ []
  none_upcoming later [] le h = refl
  none_upcoming later (r ∷ rs) le (c, h) = elim (Bool-cases (in_series id r)) [
    | inl s ↦
        let past : (is_confirmed r.status && leb later.campus_today r.date) ≡ false =
          ground arith in
        rw (s, past) (none_upcoming later rs le h)
    | inr n ↦ rw n (none_upcoming later rs le h)
  ]

true-ne-false : true ≡ false → ⊥
true-ne-false h = cc

admit_cancel_series-upcoming :
    (clock : Clock) (db : Db) (id : ℕ) (actor : Actor) {requester : Option ℕ}
    → admit_cancel_series clock db id actor ≡ ok requester
    → no_rows (upcoming clock id db) ≡ false
unfolding admit_cancel_series
admit_cancel_series-upcoming clock db id actor passed =
    let (_, rest) =
      throw_if-eq-ok (is_maintenance actor.role) (forbidden_error maintenance_cannot_manage) _
        passed in
    let (first, _, rest') = >>=-eq-ok (first_row (select (in_series id) db.reservations)) _ rest in
    let s = recurrence_of db first in
    let (_, _, rest'') =
      >>=-eq-ok
        (assert_can_manage actor.user_id actor.role (series_owner s first)
          (series_requester s first) cancel_action)
        _ rest' in
    (throw_if-eq-ok (no_rows (upcoming clock id db))
      (app_error 400 already_canceled series_already_canceled) _ rest'').0

upcoming-refuses :
    (clock : Clock) (db : Db) (id : ℕ) (actor : Actor) (reason : Option Text)
    → upcoming clock id db ≡ []
    → (is_ok (cancel_series clock id actor reason db).0 ≡ false)
      × ((cancel_series clock id actor reason db).1 ≡ db)
unfolding cancel_series
upcoming-refuses clock db id actor reason none_left =
    elim (Result-cases (admit_cancel_series clock db id actor)) [
      | inr (e, refused) ↦ rw refused (refl, refl)
      | inl (requester, passed) ↦ absurd (
          true-ne-false
            (ap no_rows (sym none_left) ∙ admit_cancel_series-upcoming clock db id actor passed))
    ]

-- After a granted cancellation of a series, any user's request to cancel it, that day or later, is
-- refused and changes nothing.
pub cancel_series-once :
    (clock later : Clock) (id : ℕ) (actor other : Actor) (reason reason' : Option Text) (db : Db)
    {rows : List Reservation}
    → (cancel_series clock id actor reason db).0 ≡ ok rows
    → clock.campus_today ≤ later.campus_today
    → let db' = (cancel_series clock id actor reason db).1 in
      (is_ok (cancel_series later id other reason' db').0 ≡ false)
      × ((cancel_series later id other reason' db').1 ≡ db')
cancel_series-once clock later id actor other reason reason' db done le =
    upcoming-refuses later (cancel_series clock id actor reason db).1 id other reason' (
      ap
        (λ (rs : List Reservation).
          select (λ r. is_confirmed r.status && leb later.campus_today r.date)
            (select (in_series id) rs))
        (cancel_series-rows clock id actor reason db done)
      ∙ none_upcoming clock id reason later _ le
          (canceled-none_confirmed clock id reason db.reservations))
