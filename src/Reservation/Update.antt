-- ===== src/Reservation/Update.antt =====
-- services/reservation.service.ts `update`
use ufcim_backend_proto.Prelude.{
  ℕ, Bool, true, false, not, ◌||◌, Option, none, some, ◌==◌, if◌then◌else◌, or_else,
}
use ufcim_backend_proto.Errors.{
  Result, ok, err, app, ◌>>=◌, ◌>>◌, throw_if, conflict_error, app_error, validation_error,
  only_confirmed_editable, already_started, end_before_start, too_short, slot_taken,
}
use ufcim_backend_proto.Texts.{trimmed}
use ufcim_backend_proto.Schedule.Times.{
  Text, text_eq, time_to_minutes, num_le, meets_minimum_duration, derive_legacy_time_slot,
}
use ufcim_backend_proto.Schedule.Days.{Clock}
use ufcim_backend_proto.Permissions.{edit}
use ufcim_backend_proto.Schema.{
  Reservation, is_confirmed, Db, modified_notice, update_reservation as update_reservation_action,
}
use ufcim_backend_proto.Reservation.Guards.{
  found, find_space, find_reservation, assert_can_manage, assert_department_access,
  check_slot_availability, has_started, should_notify_requester,
}
use ufcim_backend_proto.Reservation.Tables.{notify, log, update_reservation}
use ufcim_backend_proto.Reservation.Create.{Actor}

pub record UpdateReservationInput : Type 0 where
  pub date : Option ℕ
  pub start_time : Option Text
  pub end_time : Option Text
  pub description : Option Text

abbrev edited_description : Option Text → Option Text → Option Text
edited_description none old = old
edited_description (some t) old = trimmed (some t)

-- The row after the edit.
abbrev pub edited : Clock → UpdateReservationInput → Reservation → Reservation
edited clock input r = record r {
  date = or_else input.date r.date;
  time_slot = derive_legacy_time_slot (or_else input.start_time r.start_time);
  start_time = or_else input.start_time r.start_time;
  end_time = or_else input.end_time r.end_time;
  description = edited_description input.description r.description;
  updated_at = clock.now;
}

abbrev pub schedule_changed : Reservation → Reservation → Bool
schedule_changed r next =
    not (next.date == r.date)
    || (not (text_eq next.start_time r.start_time) || not (text_eq next.end_time r.end_time))

abbrev pub check_if : Bool → Result (Unit {0}) → Result (Unit {0})
check_if true m = m
check_if false m = ok tt

-- The checks in their order: those of the row as it is,
unfoldable pub find_editable : Clock → Db → ℕ → Actor → Result Reservation
find_editable clock db id actor = do
  r ← found (find_reservation db id)
  assert_can_manage actor.user_id actor.role r.user_id r.requester.requester_user_id edit
  throw_if (not (is_confirmed r.status)) (conflict_error only_confirmed_editable)
  throw_if (has_started clock r.date r.start_time) (conflict_error already_started)
  ok r

-- and those of the row as it will be.
unfoldable pub check_edit : Clock → Db → Actor → Reservation → Reservation → Result (Unit {0})
check_edit clock db actor r next = do
  space ← found (find_space db r.space_id)
  assert_department_access actor.role actor.department space.department
  throw_if (num_le (time_to_minutes next.end_time) (time_to_minutes next.start_time))
      (app_error 400 validation_error end_before_start)
  throw_if (not (meets_minimum_duration next.start_time next.end_time))
      (app_error 400 validation_error too_short)
  check_if (schedule_changed r next) (
      check_slot_availability clock db space r.space_id next.date next.start_time next.end_time
        (some r.id))

-- Notices to the owner and the requester, if they are not the actor.
abbrev pub notify_owner_if : Bool → ℕ → Db → Db
notify_owner_if told user_id db = if told then notify user_id modified_notice db else db

abbrev pub tell_requester : Option ℕ → ℕ → Db → Db
tell_requester none actor_id db = db
tell_requester (some id) actor_id db =
    if should_notify_requester (some id) actor_id then notify id modified_notice db else db

abbrev commit_update :
    ℕ → Actor → Reservation → Reservation → Option Db → Db → Result Reservation × Db
commit_update id actor r next none before = (err (app (conflict_error slot_taken)), before)
commit_update id actor r next (some db) before = (
  ok next,
  tell_requester r.requester.requester_user_id actor.user_id (
      notify_owner_if (not (r.user_id == actor.user_id)) r.user_id
        (log actor.user_id update_reservation_action id db)),
)

abbrev run_update :
    ℕ → Actor → Db → Reservation → Reservation → Result (Unit {0}) → Result Reservation × Db
run_update id actor db r next (err e) = (err e, db)
run_update id actor db r next (ok _) =
    commit_update id actor r next (update_reservation id next db) db

abbrev edit_found :
    Clock → ℕ → Actor → UpdateReservationInput → Db → Result Reservation → Result Reservation × Db
edit_found clock id actor input db (err e) = (err e, db)
edit_found clock id actor input db (ok r) =
    let next = edited clock input r in
    run_update id actor db r next (check_edit clock db actor r next)

unfoldable pub update : Clock → ℕ → Actor → UpdateReservationInput → Db → Result Reservation × Db
update clock id actor input db =
    edit_found clock id actor input db (find_editable clock db id actor)
