-- ===== src/Reservation/Recurring.antt =====
-- services/reservation.service.ts `createRecurring`
use ufcim_backend_proto.Prelude.{
  ℕ, ◌+◌, Bool, true, false, not, Option, none, some, List, [], ◌∷◌, ◌++◌, ◌==◌, if◌then◌else◌, any,
  or_else,
}
use ufcim_backend_proto.Errors.{
  Result, ok, err, internal, ◌>>=◌, ◌>>◌, throw_if, forbidden_error, only_recurring_roles,
}
use ufcim_backend_proto.Schedule.Times.{Text, derive_legacy_time_slot}
use ufcim_backend_proto.Schedule.Days.{Clock, generate_recurring_dates}
use ufcim_backend_proto.Schema.{
  UserRole, professor, staff, Space, Requester, Reservation, confirmed, Db,
  create_recurring_reservation,
}
use ufcim_backend_proto.Reservation.Guards.{
  found, find_space, assert_department_access, check_slot_availability, RequesterInput,
  resolve_requester, requester_columns,
}
use ufcim_backend_proto.Reservation.Tables.{log, insert_reservation}
use ufcim_backend_proto.Reservation.Create.{Actor, notify_requester}

pub record CreateRecurringInput : Type 0 where
  pub requester : RequesterInput
  pub space_id : ℕ
  pub start_date : ℕ
  pub end_date : ℕ
  pub days_of_week : List ℕ
  pub start_time : Text
  pub end_time : Text
  pub purpose : Option Text
  pub description : Option Text

abbrev may_create_series : UserRole → Bool
may_create_series professor = true
may_create_series staff = true
may_create_series _ = false

unfoldable pub admit_recurring :
    Db → Actor → CreateRecurringInput → Result (Option Requester × Space)
admit_recurring db actor input = do
  throw_if (not (may_create_series actor.role)) (forbidden_error only_recurring_roles)
  requester ← resolve_requester db actor.user_id actor.role input.requester
  space ← found (find_space db input.space_id)
  assert_department_access actor.role actor.department space.department
  ok (requester, space)

abbrev pub occurrence :
    Clock → ℕ → ℕ → Actor → CreateRecurringInput → Option Requester → ℕ → Reservation
occurrence clock id recurrence_id actor input requester date = record {
  id = id;
  space_id = input.space_id;
  user_id = actor.user_id;
  created_by = actor.user_id;
  requester = requester_columns requester;
  date = date;
  time_slot = derive_legacy_time_slot input.start_time;
  start_time = input.start_time;
  end_time = input.end_time;
  status = confirmed;
  recurrence_id = some recurrence_id;
  change_origin = none;
  purpose = input.purpose;
  description = input.description;
  cancel_reason = none;
  created_at = clock.now;
  updated_at = clock.now;
}

-- The variables of the loop; `drawn` counts the identifiers taken from `crypto.randomUUID`.
pub record Progress : Type 0 where
  pub db : Db
  pub created : List Reservation
  pub skipped : List ℕ
  pub drawn : ℕ

module _ (clock : Clock) (uuid : ℕ → ℕ) (actor : Actor) (input : CreateRecurringInput)
    (requester : Option Requester) (space : Space) where
  abbrev keep_or_skip : Reservation → ℕ → Option Db → Progress → Progress
  keep_or_skip row date none p = record p { skipped = p.skipped ++ date ∷ []; drawn = p.drawn + 1 }
  keep_or_skip row date (some db) p = record p {
    db = db;
    created = p.created ++ row ∷ [];
    drawn = p.drawn + 1;
  }

  abbrev try_date : ℕ → Progress → Result (Unit {0}) → Progress
  try_date date p (err e) = record p { skipped = p.skipped ++ date ∷ [] }
  try_date date p (ok _) =
      let row = occurrence clock (uuid p.drawn) (uuid 0) actor input requester date in
      keep_or_skip row date (insert_reservation row p.db) p

  -- One round: any error puts the date among the skipped ones.
  unfoldable pub book_date : ℕ → Progress → Progress
  book_date date p = try_date date p (
      check_slot_availability clock p.db space input.space_id date input.start_time input.end_time
        none)

  unfoldable pub book_dates : List ℕ → Progress → Progress
  book_dates [] p = p
  book_dates (d ∷ ds) p = book_dates ds (book_date d p)

abbrev pub start_series : Clock → ℕ → Actor → CreateRecurringInput → Option Requester → Db → Db
start_series clock id actor input requester db = record db {
  recurrences =
      db.recurrences
      ++ record {
        id = id;
        description = or_else input.description [];
        created_by = actor.user_id;
        requester = requester_columns requester;
        created_at = clock.now;
      }
        ∷ [];
}

abbrev pub begin_series :
    Clock → ℕ → Actor → CreateRecurringInput → Option Requester → Db → Progress
begin_series clock id actor input requester db = record {
  db = start_series clock id actor input requester db;
  created = [];
  skipped = [];
  drawn = 1;
}

pub record SeriesResult : Type 0 where
  pub recurrence_id : ℕ
  pub created : List Reservation
  pub skipped : List ℕ

abbrev pub notify_if_created : List Reservation → Option ℕ → Db → Db
notify_if_created [] requester db = db
notify_if_created (r ∷ rs) requester db = notify_requester requester db

abbrev finish_series : ℕ → ℕ → Option Requester → Progress → Result SeriesResult × Db
finish_series id user_id requester p = (
  ok (record { recurrence_id = id; created = p.created; skipped = p.skipped }),
  notify_if_created p.created (requester_columns requester).requester_user_id
      (log user_id create_recurring_reservation id p.db),
)

abbrev run_recurring :
    Clock
    → (ℕ → ℕ)
    → Actor
    → CreateRecurringInput
    → Db
    → Result (Option Requester × Space)
    → Result SeriesResult × Db
run_recurring clock uuid actor input db (err e) = (err e, db)
run_recurring clock uuid actor input db (ok (requester, space)) =
    if any (λ r. r.id == uuid 0) db.recurrences
    then (err internal, db)
    else finish_series (uuid 0) actor.user_id requester (
        book_dates clock uuid actor input requester space
          (generate_recurring_dates input.start_date input.end_date input.days_of_week)
          (begin_series clock (uuid 0) actor input requester db))

-- `uuid n` is what the n-th call of `crypto.randomUUID()` returns; the series takes the first.
unfoldable pub create_recurring :
    Clock → (ℕ → ℕ) → Actor → CreateRecurringInput → Db → Result SeriesResult × Db
create_recurring clock uuid actor input db =
    run_recurring clock uuid actor input db (admit_recurring db actor input)
