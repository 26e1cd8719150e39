-- ===== src/Tests/Booking.antt =====
-- Runs of reservations and blockings over small tables.
use ufcim_backend_proto.Prelude.{map, ℕ, ◌+◌, ◌≤◌, ◌≡◌, refl, true, none, some, List, [], ◌∷◌, ◌++◌}
use ufcim_backend_proto.Errors.{Result, ok, err}
use ufcim_backend_proto.Schedule.Times.{
  Text, intervals_overlap, time_to_minutes, is_hourly_time, is_boundary_time, text_eq,
}
use ufcim_backend_proto.Schedule.Days.{Clock, generate_recurring_dates}
use ufcim_backend_proto.Schema.{student, professor, maintenance_block, Space, Reservation, Db}
use ufcim_backend_proto.Reservation.Guards.{
  active_count, assert_department_access, check_slot_availability, enforce_active_limit,
  resolve_requester,
}
use ufcim_backend_proto.Reservation.Tables.{same_confirmed_slot, insert_reservation}
use ufcim_backend_proto.Reservation.Limits.{create-within_limit}
use ufcim_backend_proto.Texts.{trimmed}
use ufcim_backend_proto.Schedule.Closed.{
  overlaps_closed_hours, get_closed_intervals, normalize_closed_hours,
}
use ufcim_backend_proto.Reservation.Create
use ufcim_backend_proto.Reservation.Create.{Actor, admit_create, CreateReservationInput}
use ufcim_backend_proto.Reservation.Recurring.{
  SeriesResult, admit_recurring, CreateRecurringInput, create_recurring,
}
use ufcim_backend_proto.Reservation.Update.{UpdateReservationInput, update}
use ufcim_backend_proto.Reservation.Cancel.{cancel, cancel_series}
use ufcim_backend_proto.Reservation.Series.{
  create_recurring-accounts, Splits, IsFreeIn, Splits, IsFreeIn,
}
use ufcim_backend_proto.Reservation.Atomicity.{IsAtomic, handlers-IsAtomic}
use ufcim_backend_proto.Blocking.Create as BlockingCreate
use ufcim_backend_proto.Blocking.Create.{CreateBlockingInput, range}
use ufcim_backend_proto.Blocking.Remove.{remove}
use ufcim_backend_proto.Consistency.{IsConsistent}
use ufcim_backend_proto.Consistency.Reachable.{
  here, next, creates, creates_series, creates_blocking, Reach-IsConsistent,
}

-- 10:00 on day 100.
abbrev pub morning_clock : Clock
morning_clock = record { campus_today = 100; campus_now_minutes = 600; now = 5000 }

abbrev pub hour : ℕ → ℕ → Text
hour tens ones = tens ∷ ones ∷ b':' ∷ b'0' ∷ b'0' ∷ []

abbrev pub room : Space
room = record {
  id = 1;
  number = 12;
  department = 7;
  reservable = true;
  closed_from = hour b'2' b'2';
  closed_to = hour b'0' b'7';
}

abbrev pub empty_db : Db
empty_db = record {
  users = [];
  spaces = room ∷ [];
  recurrences = [];
  reservations = [];
  blockings = [];
  notifications = [];
  audit_logs = [];
}

abbrev pub ana : Actor
ana = record { user_id = 3; role = student; department = 7 }

abbrev pub afternoon_request : CreateReservationInput
afternoon_request = record {
  requester = record { user_id = none; name = none; contact = none };
  space_id = 1;
  date = 100;
  start_time = hour b'1' b'4';
  end_time = hour b'1' b'6';
  purpose = none;
  description = none;
}

abbrev pub bia : Actor
bia = record { user_id = 4; role = professor; department = 7 }

abbrev pub monday_series : CreateRecurringInput
monday_series = record {
  requester = record { user_id = none; name = none; contact = none };
  space_id = 1;
  start_date = 101;
  end_date = 110;
  days_of_week = 1 ∷ 3 ∷ [];
  start_time = hour b'1' b'4';
  end_time = hour b'1' b'6';
  purpose = none;
  description = none;
}

abbrev pub afternoon_block : CreateBlockingInput
afternoon_block = record {
  space_id = 1;
  days = range 100 102;
  start_time = hour b'1' b'5';
  end_time = hour b'1' b'7';
  reason = [];
  block_type = maintenance_block;
}

abbrev pub later : UpdateReservationInput
later = record { date = some 103; start_time = none; end_time = none; description = none }

abbrev pub numbered : ℕ → ℕ
numbered n = 70 + n

abbrev pub series_db : Db
series_db = (create_recurring morning_clock numbered bia monday_series empty_db).1

-- The value of a request that succeeds, or the default.
abbrev pub value_or {ℓ} : {A : Type ℓ} → A → Result A → A
value_or d (ok a) = a
value_or d (err e) = d

abbrev series_result : SeriesResult
series_result =
    value_or (record { recurrence_id = 0; created = []; skipped = [] })
      (create_recurring morning_clock numbered bia monday_series empty_db).0

abbrev pub canceled_db : Db
canceled_db = (cancel_series morning_clock 70 bia none series_db).1

abbrev pub canceled_rows : List Reservation
canceled_rows = value_or [] (cancel_series morning_clock 70 bia none series_db).0

IsConsistent-empty_db : IsConsistent empty_db
IsConsistent-empty_db = record { ids = tt; apart = tt; uncovered = tt; blockings_apart = tt }

abbrev pub booked : Db
booked = (Create.create morning_clock 50 ana afternoon_request empty_db).1

Reach-IsConsistent_example :
    IsConsistent
      (BlockingCreate.create morning_clock numbered bia afternoon_block
        (create_recurring morning_clock numbered bia monday_series booked).1).1
Reach-IsConsistent_example =
    Reach-IsConsistent
      (next
        (next (next here (creates morning_clock 50 ana afternoon_request))
          (creates_series morning_clock numbered bia monday_series))
        (creates_blocking morning_clock numbered bia afternoon_block))
      IsConsistent-empty_db

abbrev one_day_block : BlockingCreate.CreateBlockingInput
one_day_block = record afternoon_block { days = BlockingCreate.single 100 }

handlers-IsAtomic_example :
    IsAtomic booked (Create.create morning_clock 50 ana afternoon_request booked)
    × IsAtomic booked (create_recurring morning_clock numbered ana monday_series booked)
    × IsAtomic booked (update morning_clock 50 ana later booked)
    × IsAtomic booked (cancel morning_clock 50 ana none booked)
    × IsAtomic booked (cancel_series morning_clock 50 ana none booked)
    × IsAtomic booked (BlockingCreate.create morning_clock numbered ana one_day_block booked)
    × IsAtomic booked (remove morning_clock 50 ana booked)
handlers-IsAtomic_example =
    handlers-IsAtomic morning_clock 50 numbered ana none booked afternoon_request monday_series
      later one_day_block 100 refl

create-within_limit_example : active_count booked 3 100 ≤ 5
unfolding Create.create admit_create assert_department_access check_slot_availability
    enforce_active_limit resolve_requester same_confirmed_slot insert_reservation trimmed
    overlaps_closed_hours get_closed_intervals normalize_closed_hours intervals_overlap
    time_to_minutes is_hourly_time is_boundary_time text_eq
create-within_limit_example =
    create-within_limit morning_clock 50 ana afternoon_request empty_db refl refl

create_recurring-accounts_example :
    Splits
      (IsFreeIn empty_db monday_series)
      (generate_recurring_dates 101 110 (1 ∷ 3 ∷ []))
      (map (λ r. r.date) series_result.created)
      series_result.skipped
    × (series_db.reservations ≡ [] ++ series_result.created)
unfolding create_recurring admit_recurring assert_department_access check_slot_availability
    resolve_requester insert_reservation trimmed overlaps_closed_hours get_closed_intervals
    normalize_closed_hours intervals_overlap time_to_minutes is_hourly_time is_boundary_time
    generate_recurring_dates
create_recurring-accounts_example =
    create_recurring-accounts morning_clock numbered bia monday_series empty_db
      {result = series_result} refl
