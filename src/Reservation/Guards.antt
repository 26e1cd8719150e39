-- ===== src/Reservation/Guards.antt =====
-- services/reservation.service.ts, the private helpers: what is checked before a write.
use ufcim_backend_proto.Prelude.{
  ℕ, Bool, true, false, not, ◌&&◌, ◌||◌, Option, none, some, ltb, leb, ◌==◌, if◌then◌else◌, length,
  any, select, find, is_some, holds_id, or_else,
}
use ufcim_backend_proto.Errors.{
  Result, ok, err, app, ◌>>◌, throw_if, not_found_error, conflict_error, forbidden_error, app_error,
  invalid_requester, reservation_limit, slot_passed, slot_closed, slot_taken, slot_blocked,
  department_only, role_cannot_reserve, limit_reached, maintenance_cannot_manage,
  only_own_reservations, only_staff_on_behalf, requester_missing, requester_is_actor,
  requester_unavailable,
}
use ufcim_backend_proto.Schedule.Times.{
  Text, slot_minutes, time_to_minutes, num_le, plus, intervals_overlap,
}
use ufcim_backend_proto.Schedule.Closed.{overlaps_closed_hours}
use ufcim_backend_proto.Schedule.Days.{Clock}
use ufcim_backend_proto.Permissions.{ReservationAction, can_manage_reservation}
use ufcim_backend_proto.Schema.{
  UserRole, student, professor, staff, maintenance, is_staff, is_maintenance, User, Space,
  Requester, Reservation, Blocking, is_confirmed, is_active, Db,
}

-- `findFirst` by primary key, and the 404 where a handler needs the row.
abbrev pub found {ℓ} : {A : Type ℓ} → Option A → Result A
found none = err (app not_found_error)
found (some a) = ok a

abbrev pub find_space : Db → ℕ → Option Space
find_space db id = find (λ s. s.id == id) db.spaces

abbrev pub find_reservation : Db → ℕ → Option Reservation
find_reservation db id = find (λ r. r.id == id) db.reservations

-- ACTIVE_RESERVATION_LIMITS; `none` is no limit.
abbrev pub active_reservation_limit : UserRole → Option ℕ
active_reservation_limit student = some 5
active_reservation_limit professor = some 10
active_reservation_limit staff = none
active_reservation_limit maintenance = some 0

abbrev is_own_department_role : UserRole → Bool
is_own_department_role student = true
is_own_department_role professor = true
is_own_department_role _ = false

unfoldable pub assert_department_access : UserRole → ℕ → ℕ → Result (Unit {0})
assert_department_access role user_dept space_dept =
    throw_if (is_own_department_role role && not (space_dept == user_dept))
      (forbidden_error department_only)

unfoldable pub assert_can_manage :
    ℕ → UserRole → ℕ → Option ℕ → ReservationAction → Result (Unit {0})
unfolding can_manage_reservation
assert_can_manage user_id role owner_id requester_id action = do
  throw_if (is_maintenance role) (forbidden_error maintenance_cannot_manage)
  throw_if (not (can_manage_reservation user_id role owner_id requester_id action))
      (forbidden_error only_own_reservations)

-- A confirmed reservation of the space on that date, and so for an active blocking.
abbrev pub occupies : ℕ → ℕ → Reservation → Bool
occupies space_id date r = is_confirmed r.status && (r.space_id == space_id && r.date == date)

abbrev pub blocks : ℕ → ℕ → Blocking → Bool
blocks space_id date b = is_active b.status && (b.space_id == space_id && b.date == date)

-- A start whose slot has ended today.
abbrev pub is_past : Clock → ℕ → Text → Bool
is_past clock date start =
    date == clock.campus_today
    && num_le (plus (time_to_minutes start) slot_minutes) (some clock.campus_now_minutes)

-- `exclude` is the reservation that is being edited.
abbrev pub is_taken : Db → ℕ → ℕ → Text → Text → Option ℕ → Bool
is_taken db space_id date start end exclude =
    any (λ r. not (holds_id exclude r.id) && intervals_overlap start end r.start_time r.end_time)
      (select (occupies space_id date) db.reservations)

abbrev pub is_blocked : Db → ℕ → ℕ → Text → Text → Bool
is_blocked db space_id date start end =
    any (λ b. intervals_overlap start end b.start_time b.end_time)
      (select (blocks space_id date) db.blockings)

unfoldable pub check_slot_availability :
    Clock → Db → Space → ℕ → ℕ → Text → Text → Option ℕ → Result (Unit {0})
check_slot_availability clock db space space_id date start end exclude = do
  throw_if (is_past clock date start) (conflict_error slot_passed)
  throw_if (overlaps_closed_hours start end space.closed_from space.closed_to)
      (conflict_error slot_closed)
  throw_if (is_taken db space_id date start end exclude) (conflict_error slot_taken)
  throw_if (is_blocked db space_id date start end) (conflict_error slot_blocked)

abbrev pub active_count : Db → ℕ → ℕ → ℕ
active_count db user_id today = length (
    select (λ r. r.user_id == user_id && (is_confirmed r.status && leb today r.date))
      db.reservations)

abbrev enforce_limit : Option ℕ → ℕ → Result (Unit {0})
enforce_limit none total = ok tt
enforce_limit (some limit) total = do
  throw_if (limit == 0) (forbidden_error role_cannot_reserve)
  throw_if (leb limit total) (app_error 400 reservation_limit limit_reached)

unfoldable pub enforce_active_limit : Clock → Db → ℕ → UserRole → Result (Unit {0})
enforce_active_limit clock db user_id role =
    enforce_limit (active_reservation_limit role) (active_count db user_id clock.campus_today)

-- The requester fields of a request (`RequesterInput`).
pub record RequesterInput : Type 0 where
  pub user_id : Option ℕ
  pub name : Option ℕ
  pub contact : Option ℕ

abbrev pub no_requester : Requester
no_requester = record { requester_user_id = none; requester_name = none; requester_contact = none }

-- Unknown, disabled, deleted, or of the maintenance team.
abbrev pub is_unavailable : Option User → Bool
is_unavailable none = true
is_unavailable (some u) = is_some u.disabled_at || (is_some u.deleted_at || is_maintenance u.role)

abbrev resolve_user : Db → RequesterInput → Result (Option Requester)
resolve_user db input = elim input.user_id [
  | none ↦ ok (
      some (record {
        requester_user_id = none;
        requester_name = input.name;
        requester_contact = input.contact;
      }))
  | some id ↦ do
    throw_if (is_unavailable (find (λ u. u.id == id) db.users))
        (app_error 400 invalid_requester requester_unavailable)
    ok (
        some (record {
          requester_user_id = some id;
          requester_name = none;
          requester_contact = input.contact;
        }))
]

-- The columns to store, or `none` when no requester was sent.
unfoldable pub resolve_requester : Db → ℕ → UserRole → RequesterInput → Result (Option Requester)
resolve_requester db actor_id role input =
    if not (is_some input.user_id) && (not (is_some input.name) && not (is_some input.contact))
    then ok none
    else do
      throw_if (not (is_staff role)) (forbidden_error only_staff_on_behalf)
      throw_if (not (is_some input.user_id) && not (is_some input.name))
          (app_error 400 invalid_requester requester_missing)
      throw_if (holds_id input.user_id actor_id)
          (app_error 400 invalid_requester requester_is_actor)
      resolve_user db input

abbrev pub requester_columns : Option Requester → Requester
requester_columns r = or_else r no_requester

-- `requesterUserId && requesterUserId !== actorId`
abbrev pub should_notify_requester : Option ℕ → ℕ → Bool
should_notify_requester none actor_id = false
should_notify_requester (some id) actor_id = not (id == actor_id)

-- True once the start is at or before campus "now".
unfoldable pub has_started : Clock → ℕ → Text → Bool
has_started clock date start =
    if date == clock.campus_today
    then num_le (time_to_minutes start) (some clock.campus_now_minutes)
    else ltb date clock.campus_today
