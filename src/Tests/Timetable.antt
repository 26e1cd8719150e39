-- ===== src/Tests/Timetable.antt =====
-- The theorems on times, slots, availability and permissions at concrete inputs.
use ufcim_backend_proto.Prelude.{
  ℕ, ◌≤◌, ◌<◌, Pairs, ◌≡◌, refl, ◌↔◌, true, none, some, List, [], ◌∷◌, arith, length, filter_map,
}
use ufcim_backend_proto.Errors.{Result, ok, err}
use ufcim_backend_proto.Schema.{professor}
use ufcim_backend_proto.Permissions.{can_manage_reservation, cancel}
use ufcim_backend_proto.Permissions.Laws.{MayManage, can_manage_reservation_iff}
use ufcim_backend_proto.Schedule.Times.{
  Text, time_to_minutes, minutes_to_time, intervals_overlap, is_slot_start_time, is_slot_end_time,
  is_hourly_time, is_boundary_time,
}
use ufcim_backend_proto.Schedule.Days.{dates_between, generate_recurring_dates}
use ufcim_backend_proto.Schedule.Closed.{
  Interval, get_closed_intervals, normalize_closed_hours, overlaps_closed_hours,
}
use ufcim_backend_proto.Schedule.Availability.{
  Slot, SlotStatus, available, reserved, slot_status, slots_from, slot_at, normalize_interval,
  build_availability, hourly_occupancy,
}
use ufcim_backend_proto.Schedule.Overlap.{Holds, intervals_overlap_iff}
use ufcim_backend_proto.Schedule.RoundTrip.{time_to_minutes-minutes_to_time}
use ufcim_backend_proto.Schedule.DateRange.{
  listed, weekday, dates_between-exact, generate_recurring_dates-exact,
}
use ufcim_backend_proto.Schedule.Slots.{Tiles, build_availability-Tiles}
use ufcim_backend_proto.Schedule.Occupancy.{
  bucket, count_of, is_occupied_in, is_open_in, hourly_occupancy-counts,
}
use ufcim_backend_proto.Schedule.ClosedHours.{ClosedAt, overlaps_closed_hours_iff}
use ufcim_backend_proto.Reservation.Guards.{
  check_slot_availability, resolve_requester, assert_department_access, enforce_active_limit,
}
use ufcim_backend_proto.Reservation.Create
use ufcim_backend_proto.Reservation.Create.{admit_create}
use ufcim_backend_proto.Reservation.Tables.{insert_reservation, notify, log}
use ufcim_backend_proto.Space.{of_status, ViewSlot, get_availability}
use ufcim_backend_proto.Space.Agreement.{available_iff-check}
use ufcim_backend_proto.Tests.Booking.{hour, morning_clock, room, booked}

intervals_overlap_iff_example :
    (intervals_overlap (hour b'0' b'8') (hour b'1' b'0') (hour b'0' b'9') (hour b'1' b'1') ≡ true)
    ↔ ((m : ℕ) × Holds 480 600 m × Holds 540 660 m)
unfolding time_to_minutes
intervals_overlap_iff_example =
    intervals_overlap_iff (hour b'0' b'8') (hour b'1' b'0') (hour b'0' b'9') (hour b'1' b'1') 480
      600 540 660 refl refl refl refl (omega arith) (omega arith)

time_to_minutes-minutes_to_time_example : time_to_minutes (minutes_to_time 870) ≡ some 870
time_to_minutes-minutes_to_time_example = time_to_minutes-minutes_to_time 870 (omega arith)

dates_between-exact_example :
    ((d : ℕ) → (listed d (dates_between 100 103) ≡ true) ↔ ((100 ≤ d) × (d ≤ 103)))
    × (length (dates_between 100 103) ≡ 4)
dates_between-exact_example = dates_between-exact 100 103

generate_recurring_dates-exact_example :
    ((d : ℕ)
      → (listed d (generate_recurring_dates 100 110 (1 ∷ 3 ∷ [])) ≡ true)
        ↔ ((100 ≤ d) × (d ≤ 110) × (listed (weekday d) (1 ∷ 3 ∷ []) ≡ true)))
    × Pairs (λ a b. a < b) (generate_recurring_dates 100 110 (1 ∷ 3 ∷ []))
generate_recurring_dates-exact_example = generate_recurring_dates-exact 100 110 (1 ∷ 3 ∷ [])

abbrev lesson : Interval
lesson = record { start_time = hour b'1' b'0'; end_time = hour b'1' b'2' }

build_availability-Tiles_example :
    (slots : List Slot) × (build_availability (hour b'2' b'2') (hour b'0' b'7') (lesson ∷ []) [] 30
      ≡ some slots)
    × Tiles
        (normalize_closed_hours (some (hour b'2' b'2')) (some (hour b'0' b'7')))
        (filter_map normalize_interval (lesson ∷ []))
        (filter_map normalize_interval [])
        0
        slots
build_availability-Tiles_example =
    build_availability-Tiles (hour b'2' b'2') (hour b'0' b'7') (lesson ∷ []) [] 30 (omega arith)

abbrev slot_of : Text → Text → SlotStatus → Slot
slot_of start end status = record { start_time = start; end_time = end; status = status }

abbrev two_slots : List Slot
two_slots =
    slot_of (hour b'0' b'9') (hour b'1' b'0') available
    ∷ slot_of (hour b'1' b'0') (hour b'1' b'1') reserved
    ∷ []

hourly_occupancy-counts_example :
    bucket 9 (hourly_occupancy two_slots)
    ≡ some (record {
      occupied = count_of (is_occupied_in 9) two_slots;
      open_slots = count_of (is_open_in 9) two_slots;
    })
hourly_occupancy-counts_example = hourly_occupancy-counts two_slots 9 (omega arith)

overlaps_closed_hours_iff_example :
    (overlaps_closed_hours (hour b'2' b'1') (hour b'2' b'3') (hour b'2' b'2') (hour b'0' b'7')
      ≡ true)
    ↔ ((m : ℕ) × Holds 1260 1380 m × ClosedAt 1320 420 m)
unfolding time_to_minutes is_hourly_time is_boundary_time
overlaps_closed_hours_iff_example =
    overlaps_closed_hours_iff (hour b'2' b'1') (hour b'2' b'3') (hour b'2' b'2') (hour b'0' b'7')
      1260 1380 1320 420 refl refl refl refl refl refl (omega arith) (omega arith)

can_manage_reservation_iff_example :
    (can_manage_reservation 3 professor 4 (some 3) cancel ≡ true)
    ↔ MayManage 3 professor 4 (some 3) cancel
can_manage_reservation_iff_example = can_manage_reservation_iff 3 professor 4 (some 3) cancel

abbrev slots_of : Result (List ViewSlot) → List ViewSlot
slots_of (ok slots) = slots
slots_of (err e) = []

-- The slot from 20:00.
abbrev evening_slot : ViewSlot
evening_slot = record {
  start_time = hour b'2' b'0';
  end_time = b'2' ∷ b'0' ∷ b':' ∷ b'3' ∷ b'0' ∷ [];
  status = of_status available;
}

available_iff-check_example : (evening_slot.status ≡ of_status available) ↔ (
    (room.reservable ≡ true)
    × (check_slot_availability morning_clock booked room 1 100 evening_slot.start_time
          evening_slot.end_time none
        ≡ ok tt))
unfolding Create.create admit_create resolve_requester assert_department_access
    check_slot_availability time_to_minutes overlaps_closed_hours get_closed_intervals
    normalize_closed_hours is_hourly_time is_boundary_time intervals_overlap enforce_active_limit
    insert_reservation notify log normalize_interval is_slot_start_time is_slot_end_time
    get_availability build_availability slots_from slot_at slot_status minutes_to_time
available_iff-check_example =
    available_iff-check morning_clock booked room 1 100 40
      {slots = slots_of (get_availability booked 1 100)} {slot = evening_slot} refl refl refl refl
      (refl, tt) tt
