-- ===== src/Reservation/Create.antt =====
-- services/reservation.service.ts `create`
use ufcim_backend_proto.Prelude.{ℕ, not, Option, none, some}
use ufcim_backend_proto.Errors.{
  Result, ok, err, app, ◌>>=◌, ◌>>◌, throw_if, conflict_error, space_not_reservable, slot_taken,
}
use ufcim_backend_proto.Texts.{trimmed}
use ufcim_backend_proto.Schedule.Times.{Text, derive_legacy_time_slot}
use ufcim_backend_proto.Schedule.Days.{Clock}
use ufcim_backend_proto.Schema.{
  UserRole, Requester, Reservation, confirmed, Db, confirmed_notice, create_reservation,
}
use ufcim_backend_proto.Reservation.Guards.{
  found, find_space, assert_department_access, check_slot_availability, enforce_active_limit,
  RequesterInput, resolve_requester, requester_columns,
}
use ufcim_backend_proto.Reservation.Tables.{notify, log, insert_reservation}

pub record CreateReservationInput : Type 0 where
  pub requester : RequesterInput
  pub space_id : ℕ
  pub date : ℕ
  pub start_time : Text
  pub end_time : Text
  pub purpose : Option Text
  pub description : Option Text

-- Who acts: the token's subject, role and department.
pub record Actor : Type 0 where
  pub user_id : ℕ
  pub role : UserRole
  pub department : ℕ

-- The checks in their order; the requester, if one was sent.
unfoldable pub admit_create :
    Clock → Db → Actor → CreateReservationInput → Result (Option Requester)
admit_create clock db actor input = do
  requester ← resolve_requester db actor.user_id actor.role input.requester
  space ← found (find_space db input.space_id)
  throw_if (not space.reservable) (conflict_error space_not_reservable)
  assert_department_access actor.role actor.department space.department
  check_slot_availability clock db space input.space_id input.date input.start_time input.end_time
      none
  enforce_active_limit clock db actor.user_id actor.role
  ok requester

abbrev pub new_reservation :
    Clock → ℕ → Actor → CreateReservationInput → Option Requester → Reservation
new_reservation clock id actor input requester = record {
  id = id;
  space_id = input.space_id;
  user_id = actor.user_id;
  created_by = actor.user_id;
  requester = requester_columns requester;
  date = input.date;
  time_slot = derive_legacy_time_slot input.start_time;
  start_time = input.start_time;
  end_time = input.end_time;
  status = confirmed;
  recurrence_id = none;
  change_origin = none;
  purpose = input.purpose;
  description = trimmed input.description;
  cancel_reason = none;
  created_at = clock.now;
  updated_at = clock.now;
}

-- `if (requester?.columns.requesterUserId)`
abbrev pub notify_requester : Option ℕ → Db → Db
notify_requester none db = db
notify_requester (some id) db = notify id confirmed_notice db

abbrev pub commit_create : ℕ → Reservation → Option Db → Db → Result Reservation × Db
commit_create user_id row none before = (err (app (conflict_error slot_taken)), before)
commit_create user_id row (some db) before = (
  ok row,
  notify_requester row.requester.requester_user_id
      (notify user_id confirmed_notice (log user_id create_reservation row.id db)),
)

abbrev run_create :
    Clock
    → ℕ
    → Actor
    → CreateReservationInput
    → Db
    → Result (Option Requester)
    → Result Reservation × Db
run_create clock id actor input db (err e) = (err e, db)
run_create clock id actor input db (ok requester) =
    let row = new_reservation clock id actor input requester in
    commit_create actor.user_id row (insert_reservation row db) db

-- `id` is what `crypto.randomUUID()` returns.
unfoldable pub create : Clock → ℕ → Actor → CreateReservationInput → Db → Result Reservation × Db
create clock id actor input db =
    run_create clock id actor input db (admit_create clock db actor input)
