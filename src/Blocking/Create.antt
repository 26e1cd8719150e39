-- ===== src/Blocking/Create.antt =====
-- services/blocking.service.ts `create`
use ufcim_backend_proto.Prelude.{
  ℕ, ◌+◌, Bool, true, false, ◌&&◌, some, List, [], ◌∷◌, ◌++◌, ◌==◌, if◌then◌else◌, length, any,
  select, update_where,
}
use ufcim_backend_proto.Errors.{
  Result, ok, err, internal, ◌>>=◌, throw_if, conflict_error, blocking_exists,
}
use ufcim_backend_proto.Schedule.Times.{Text, derive_legacy_time_slot, intervals_overlap}
use ufcim_backend_proto.Schedule.Days.{Clock, dates_between}
use ufcim_backend_proto.Schema.{
  UserRole, is_maintenance, Reservation, overridden, is_confirmed, blocking, BlockType,
  maintenance_block, Blocking, active, is_active, Db, overridden_notice, override_reservation,
  create_blocking,
}
use ufcim_backend_proto.Reservation.Guards.{found, find_space}
use ufcim_backend_proto.Reservation.Tables.{notify, log, with_id}
use ufcim_backend_proto.Reservation.Create.{Actor}

-- The request names one day, or a range of days (`dateFrom`, `dateTo`).
pub data BlockedDays : Type 0 where
  single : ℕ → BlockedDays
  range : ℕ → ℕ → BlockedDays

pub record CreateBlockingInput : Type 0 where
  pub space_id : ℕ
  pub days : BlockedDays
  pub start_time : Text
  pub end_time : Text
  pub reason : Text
  pub block_type : BlockType

abbrev pub blocked_dates : BlockedDays → List ℕ
blocked_dates (single date) = date ∷ []
blocked_dates (range from to) = dates_between from to

abbrev pub among : List ℕ → ℕ → Bool
among dates date = any (λ d. d == date) dates

-- An active blocking of the space on one of the dates that overlaps the requested hours.
abbrev pub already_blocks : CreateBlockingInput → List ℕ → Blocking → Bool
already_blocks input dates b =
    b.space_id == input.space_id
    && (among dates b.date
        && (is_active b.status
            && intervals_overlap input.start_time input.end_time b.start_time b.end_time))

unfoldable pub admit_blocking : Db → CreateBlockingInput → List ℕ → Result (Unit {0})
admit_blocking db input dates = do
  space ← found (find_space db input.space_id)
  throw_if (any (already_blocks input dates) db.blockings) (conflict_error blocking_exists)

-- The confirmed reservations of the space on those dates, read once, before the loop.
abbrev pub conflicting_reservations : Db → CreateBlockingInput → List ℕ → List Reservation
conflicting_reservations db input dates =
    select (λ r. r.space_id == input.space_id && (among dates r.date && is_confirmed r.status))
      db.reservations

abbrev pub set_overridden : Clock → Reservation → Reservation
set_overridden clock r = record r {
  status = overridden;
  change_origin = some blocking;
  updated_at = clock.now;
}

unfoldable pub override_all : Clock → ℕ → List Reservation → Db → Db
override_all clock user_id [] db = db
override_all clock user_id (r ∷ rs) db = override_all clock user_id rs (
    log user_id override_reservation r.id (
      notify r.user_id overridden_notice (record db {
        reservations = update_where (with_id r.id) (set_overridden clock) db.reservations;
      })))

-- The maintenance team creates only maintenance blockings.
abbrev pub effective_type : UserRole → BlockType → BlockType
effective_type role t = if is_maintenance role then maintenance_block else t

abbrev pub new_blocking : Clock → ℕ → ℕ → Actor → CreateBlockingInput → ℕ → Blocking
new_blocking clock id batch_id actor input date = record {
  id = id;
  space_id = input.space_id;
  created_by = actor.user_id;
  date = date;
  time_slot = derive_legacy_time_slot input.start_time;
  start_time = input.start_time;
  end_time = input.end_time;
  reason = input.reason;
  block_type = effective_type actor.role input.block_type;
  status = active;
  batch_id = some batch_id;
  created_at = clock.now;
  updated_at = clock.now;
}

-- The variables of the loop; `drawn` counts the identifiers taken from `crypto.randomUUID`, and
-- `failed` says that an insert has thrown, which ends the loop.
pub record Progress : Type 0 where
  pub db : Db
  pub created : List Blocking
  pub overridden : ℕ
  pub drawn : ℕ
  pub failed : Bool

-- The primary key.
abbrev pub is_used : ℕ → List Blocking → Bool
is_used id rows = any (λ b. b.id == id) rows

module _ (clock : Clock) (uuid : ℕ → ℕ) (actor : Actor) (input : CreateBlockingInput)
    (conflicting : List Reservation) where
  abbrev pub hit_on : ℕ → List Reservation
  hit_on date =
      select
        (λ r.
          r.date == date
          && intervals_overlap input.start_time input.end_time r.start_time r.end_time)
        conflicting

  -- A round whose insert does not fail.
  unfoldable pub write_date : ℕ → Progress → Progress
  unfolding override_all
  write_date date p =
      let row = new_blocking clock (uuid p.drawn) (uuid 0) actor input date in
      let inserted = record p.db { blockings = p.db.blockings ++ row ∷ [] } in
      record {
        db =
            log actor.user_id create_blocking row.id
              (override_all clock actor.user_id (hit_on date) inserted);
        created = p.created ++ row ∷ [];
        overridden = p.overridden + length (hit_on date);
        drawn = p.drawn + 1;
        failed = false;
      }

  unfoldable pub block_date : ℕ → Progress → Progress
  block_date date p =
      if p.failed
      then p
      else if is_used (uuid p.drawn) p.db.blockings
      then record p { failed = true }
      else write_date date p

  unfoldable pub block_dates : List ℕ → Progress → Progress
  block_dates [] p = p
  block_dates (d ∷ ds) p = block_dates ds (block_date d p)

pub record BlockingResult : Type 0 where
  pub blockings : List Blocking
  pub created : ℕ
  pub overridden_reservations : ℕ

abbrev blocking_result : Progress → Result BlockingResult
blocking_result p =
    if p.failed
    then err internal
    else ok (record {
      blockings = p.created;
      created = length p.created;
      overridden_reservations = p.overridden;
    })

-- What the days before a failed insert wrote stays.
abbrev finish_blocking : Progress → Result BlockingResult × Db
finish_blocking p = (blocking_result p, p.db)

abbrev run_create :
    Clock
    → (ℕ → ℕ)
    → Actor
    → CreateBlockingInput
    → Db
    → Result (Unit {0})
    → Result BlockingResult × Db
run_create clock uuid actor input db (err e) = (err e, db)
run_create clock uuid actor input db (ok _) =
    let dates = blocked_dates input.days in
    finish_blocking (
      block_dates clock uuid actor input (conflicting_reservations db input dates) dates
        (record { db = db; created = []; overridden = 0; drawn = 1; failed = false }))

-- `uuid 0` is the batch's identifier, `uuid (n + 1)` that of its n-th blocking.
unfoldable pub create :
    Clock → (ℕ → ℕ) → Actor → CreateBlockingInput → Db → Result BlockingResult × Db
create clock uuid actor input db =
    run_create clock uuid actor input db (admit_blocking db input (blocked_dates input.days))
