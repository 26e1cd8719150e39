-- ===== src/Consistency/Canceling.antt =====
-- `cancel` and `cancelSeries` keep the tables consistent.
use ufcim_backend_proto.Prelude.{
  ℕ, refl, Bool, true, false, not, Option, none, some, List, [], ◌∷◌, ◌==◌, inl, inr,
}
use ufcim_backend_proto.Errors.{Result-cases}
use ufcim_backend_proto.Schedule.Times.{Text}
use ufcim_backend_proto.Schedule.Days.{Clock}
use ufcim_backend_proto.Schema.{cancel_reservation, cancel_recurring_reservation, Reservation, Db}
use ufcim_backend_proto.Reservation.Tables.{with_id}
use ufcim_backend_proto.Reservation.Create.{Actor}
use ufcim_backend_proto.Reservation.Cancel
use ufcim_backend_proto.Reservation.Cancel.{
  set_canceled, cancel, cancel_series, admit_cancel, admit_cancel_series, notify_owners, upcoming,
  in_series_from_today, notify_canceled_if,
}
use ufcim_backend_proto.Consistency.{IsConsistent}
use ufcim_backend_proto.Consistency.Rows.{IsConsistent-notify, IsConsistent-log}
use ufcim_backend_proto.Consistency.Withdrawing.{IsConsistent-withdraw}

IsConsistent-notify_canceled_if :
    (told : Bool) (user_id : ℕ) (db : Db)
    → IsConsistent db
    → IsConsistent (notify_canceled_if told user_id db)
IsConsistent-notify_canceled_if true u db c = IsConsistent-notify u _ db c
IsConsistent-notify_canceled_if false u db c = c

IsConsistent-tell_requester :
    (o : Option ℕ) (actor_id : ℕ) (db : Db)
    → IsConsistent db
    → IsConsistent (Cancel.tell_requester o actor_id db)
IsConsistent-tell_requester none actor_id db c = c
IsConsistent-tell_requester (some id) actor_id db c =
    IsConsistent-notify_canceled_if (not (id == actor_id)) id db c

IsConsistent-notify_owners :
    (actor_id : ℕ) (rows : List Reservation) (db : Db)
    → IsConsistent db
    → IsConsistent (notify_owners actor_id rows db)
unfolding notify_owners
IsConsistent-notify_owners actor_id [] db c = c
IsConsistent-notify_owners actor_id (r ∷ rs) db c =
    IsConsistent-notify_owners actor_id rs _
      (IsConsistent-notify_canceled_if (not (r.user_id == actor_id)) r.user_id db c)

pub cancel-IsConsistent :
    (clock : Clock) (id : ℕ) (actor : Actor) (reason : Option Text) (db : Db)
    → IsConsistent db
    → IsConsistent (cancel clock id actor reason db).1
unfolding cancel
cancel-IsConsistent clock id actor reason db c = elim (Result-cases (admit_cancel db id actor)) [
  | inr (e, refused) ↦ rw refused c
  | inl (r, passed) ↦ rw passed (
      IsConsistent-tell_requester r.requester.requester_user_id actor.user_id _ (
        IsConsistent-notify_canceled_if (not (r.user_id == actor.user_id)) r.user_id _ (
          IsConsistent-log actor.user_id cancel_reservation id _ (
            IsConsistent-withdraw (with_id id) (set_canceled clock reason) (λ _. refl) (λ _. refl)
              db c))))
]

pub cancel_series-IsConsistent :
    (clock : Clock) (id : ℕ) (actor : Actor) (reason : Option Text) (db : Db)
    → IsConsistent db
    → IsConsistent (cancel_series clock id actor reason db).1
unfolding cancel_series
cancel_series-IsConsistent clock id actor reason db c =
    elim (Result-cases (admit_cancel_series clock db id actor)) [
      | inr (e, refused) ↦ rw refused c
      | inl (requester, passed) ↦ rw passed (
          IsConsistent-tell_requester requester actor.user_id _ (
            IsConsistent-notify_owners actor.user_id (upcoming clock id db) _ (
              IsConsistent-log actor.user_id cancel_recurring_reservation id _ (
                IsConsistent-withdraw (in_series_from_today clock id) (set_canceled clock reason)
                  (λ _. refl) (λ _. refl) db c))))
    ]
