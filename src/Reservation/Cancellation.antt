-- ===== src/Reservation/Cancellation.antt =====
-- services/reservation.service.ts `cancelSeries`: what a canceled series leaves.
use ufcim_backend_proto.Prelude.{
  ℕ, ◌≡◌, refl, sym, ◌∙◌, Bool, true, false, not, Option, none, some, inl, inr, List, [], ◌∷◌, ◌==◌,
  update_where,
}
use ufcim_backend_proto.Errors.{ok, Result-cases, ok-ne-err}
use ufcim_backend_proto.Schedule.Times.{Text}
use ufcim_backend_proto.Schedule.Days.{Clock}
use ufcim_backend_proto.Schema.{cancel_recurring_reservation, Reservation, Db}
use ufcim_backend_proto.Reservation.Tables.{notify, log}
use ufcim_backend_proto.Reservation.Create.{Actor}
use ufcim_backend_proto.Reservation.Cancel.{
  cancel_series, admit_cancel_series, in_series_from_today, set_canceled, notify_owners,
  notify_canceled_if, tell_requester, upcoming, cancel_where,
}

notify_canceled_if-rows :
    (told : Bool) (u : ℕ) (db : Db) → (notify_canceled_if told u db).reservations ≡ db.reservations
unfolding notify
notify_canceled_if-rows true u db = refl
notify_canceled_if-rows false u db = refl

tell_requester-rows :
    (o : Option ℕ) (u : ℕ) (db : Db) → (tell_requester o u db).reservations ≡ db.reservations
tell_requester-rows none u db = refl
tell_requester-rows (some id) u db = notify_canceled_if-rows (not (id == u)) id db

notify_owners-rows :
    (u : ℕ) (rows : List Reservation) (db : Db)
    → (notify_owners u rows db).reservations ≡ db.reservations
unfolding notify_owners
notify_owners-rows u [] db = refl
notify_owners-rows u (r ∷ rs) db =
    notify_owners-rows u rs _ ∙ notify_canceled_if-rows (not (r.user_id == u)) r.user_id db

-- The rows that a granted cancellation leaves.
pub cancel_series-rows :
    (clock : Clock) (id : ℕ) (actor : Actor) (reason : Option Text) (db : Db)
    {rows : List Reservation}
    → (cancel_series clock id actor reason db).0 ≡ ok rows
    → (cancel_series clock id actor reason db).1.reservations
      ≡ update_where (in_series_from_today clock id) (set_canceled clock reason) db.reservations
unfolding cancel_series log
cancel_series-rows clock id actor reason db done =
    elim (Result-cases (admit_cancel_series clock db id actor)) [
      | inr (e, refused) ↦ absurd (ok-ne-err (sym (rw refused at done)))
      | inl (requester, passed) ↦ rw passed (
          tell_requester-rows requester actor.user_id _
          ∙ notify_owners-rows actor.user_id (upcoming clock id db) (
              log actor.user_id cancel_recurring_reservation id
                (cancel_where clock reason (in_series_from_today clock id) db)))
    ]
