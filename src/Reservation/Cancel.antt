-- ===== src/Reservation/Cancel.antt =====
-- services/reservation.service.ts `cancel`, `cancelSeries`, `getSeriesImpact`
use ufcim_backend_proto.Prelude.{
  ℕ, Bool, true, false, not, ◌&&◌, Option, none, some, List, [], ◌∷◌, map, leb, ◌==◌, if◌then◌else◌,
  length, select, find, holds_id, or_else, first_some, option_map, update_where,
}
use ufcim_backend_proto.Errors.{
  Result, ok, err, app, ◌>>=◌, ◌>>◌, throw_if, not_found_error, forbidden_error, app_error,
  already_canceled, reservation_already_canceled, series_already_canceled,
  maintenance_cannot_manage,
}
use ufcim_backend_proto.Schedule.Times.{Text}
use ufcim_backend_proto.Schedule.Days.{Clock}
use ufcim_backend_proto.Permissions.{cancel as cancel_action}
use ufcim_backend_proto.Schema.{
  is_maintenance, Recurrence, Reservation, canceled, is_confirmed, is_canceled, Db, canceled_notice,
  cancel_reservation, cancel_recurring_reservation,
}
use ufcim_backend_proto.Reservation.Guards.{
  found, find_reservation, assert_can_manage, should_notify_requester,
}
use ufcim_backend_proto.Reservation.Tables.{notify, log, with_id}
use ufcim_backend_proto.Reservation.Create.{Actor}

-- `.set({ status: 'canceled', cancelReason, updatedAt })`
abbrev pub set_canceled : Clock → Option Text → Reservation → Reservation
set_canceled clock reason r = record r {
  status = canceled;
  cancel_reason = reason;
  updated_at = clock.now;
}

abbrev pub cancel_where : Clock → Option Text → (Reservation → Bool) → Db → Db
cancel_where clock reason p db = record db {
  reservations = update_where p (set_canceled clock reason) db.reservations;
}

abbrev pub notify_canceled_if : Bool → ℕ → Db → Db
notify_canceled_if told user_id db = if told then notify user_id canceled_notice db else db

abbrev pub tell_requester : Option ℕ → ℕ → Db → Db
tell_requester none actor_id db = db
tell_requester (some id) actor_id db =
    notify_canceled_if (should_notify_requester (some id) actor_id) id db

unfoldable pub admit_cancel : Db → ℕ → Actor → Result Reservation
admit_cancel db id actor = do
  r ← found (find_reservation db id)
  assert_can_manage actor.user_id actor.role r.user_id r.requester.requester_user_id cancel_action
  throw_if (is_canceled r.status) (app_error 400 already_canceled reservation_already_canceled)
  ok r

abbrev run_cancel :
    Clock → ℕ → Actor → Option Text → Db → Result Reservation → Result Reservation × Db
run_cancel clock id actor reason db (err e) = (err e, db)
run_cancel clock id actor reason db (ok r) = (
  ok (set_canceled clock reason r),
  tell_requester r.requester.requester_user_id actor.user_id (
      notify_canceled_if (not (r.user_id == actor.user_id)) r.user_id
        (log actor.user_id cancel_reservation id (cancel_where clock reason (with_id id) db))),
)

unfoldable pub cancel : Clock → ℕ → Actor → Option Text → Db → Result Reservation × Db
cancel clock id actor reason db = run_cancel clock id actor reason db (admit_cancel db id actor)

abbrev pub in_series : ℕ → Reservation → Bool
in_series recurrence_id r = holds_id r.recurrence_id recurrence_id

-- The occurrences that still stand: confirmed, today or later.
abbrev pub upcoming : Clock → ℕ → Db → List Reservation
upcoming clock recurrence_id db =
    select (λ r. is_confirmed r.status && leb clock.campus_today r.date)
      (select (in_series recurrence_id) db.reservations)

-- What the update writes to: today or later, of any status.
abbrev pub in_series_from_today : Clock → ℕ → Reservation → Bool
in_series_from_today clock recurrence_id r =
    in_series recurrence_id r && leb clock.campus_today r.date

abbrev pub first_row : List Reservation → Result Reservation
first_row [] = err (app not_found_error)
first_row (r ∷ rs) = ok r

abbrev pub no_rows : List Reservation → Bool
no_rows [] = true
no_rows (r ∷ rs) = false

abbrev pub recurrence_of : Db → Reservation → Option Recurrence
recurrence_of db r = elim r.recurrence_id [
  | none ↦ none
  | some id ↦ find (λ s. s.id == id) db.recurrences
]

abbrev pub series_owner : Option Recurrence → Reservation → ℕ
series_owner recurrence r = or_else (option_map (λ s. s.created_by) recurrence) r.user_id

abbrev of_recurrence : Option Recurrence → Option ℕ
of_recurrence none = none
of_recurrence (some s) = s.requester.requester_user_id

abbrev pub series_requester : Option Recurrence → Reservation → Option ℕ
series_requester recurrence r = first_some (of_recurrence recurrence) r.requester.requester_user_id

-- The requester whom a summary may go to.
unfoldable pub admit_cancel_series : Clock → Db → ℕ → Actor → Result (Option ℕ)
admit_cancel_series clock db recurrence_id actor = do
  throw_if (is_maintenance actor.role) (forbidden_error maintenance_cannot_manage)
  first ← first_row (select (in_series recurrence_id) db.reservations)
  let recurrence = recurrence_of db first
  assert_can_manage actor.user_id actor.role (series_owner recurrence first)
      (series_requester recurrence first) cancel_action
  throw_if (no_rows (upcoming clock recurrence_id db))
      (app_error 400 already_canceled series_already_canceled)
  ok (series_requester recurrence first)

unfoldable pub notify_owners : ℕ → List Reservation → Db → Db
notify_owners actor_id [] db = db
notify_owners actor_id (r ∷ rs) db =
    notify_owners actor_id rs (notify_canceled_if (not (r.user_id == actor_id)) r.user_id db)

abbrev run_cancel_series :
    Clock → ℕ → Actor → Option Text → Db → Result (Option ℕ) → Result (List Reservation) × Db
run_cancel_series clock id actor reason db (err e) = (err e, db)
run_cancel_series clock id actor reason db (ok requester) = (
  ok (map (set_canceled clock reason) (select (in_series_from_today clock id) db.reservations)),
  tell_requester requester actor.user_id (
      notify_owners actor.user_id (upcoming clock id db) (
        log actor.user_id cancel_recurring_reservation id
          (cancel_where clock reason (in_series_from_today clock id) db))),
)

unfoldable pub cancel_series : Clock → ℕ → Actor → Option Text → Db → Result (List Reservation) × Db
cancel_series clock id actor reason db =
    run_cancel_series clock id actor reason db (admit_cancel_series clock db id actor)

pub record SeriesImpact : Type 0 where
  pub future_count : ℕ
  pub first_date : Option ℕ

-- The first date after the sort: the least, the earlier row on a tie.
abbrev pub earliest : List Reservation → Option ℕ
earliest [] = none
earliest (r ∷ rs) = elim (earliest rs) [
  | none ↦ some r.date
  | some d ↦ some (if leb r.date d then r.date else d)
]

unfoldable pub get_series_impact : Clock → Db → ℕ → Result SeriesImpact
get_series_impact clock db recurrence_id = do
  throw_if (no_rows (select (in_series recurrence_id) db.reservations)) not_found_error
  ok (record {
    future_count = length (upcoming clock recurrence_id db);
    first_date = earliest (upcoming clock recurrence_id db);
  })
