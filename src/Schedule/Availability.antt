-- ===== src/Schedule/Availability.antt =====
-- lib/schedule.ts: the day's availability in slots, and the occupancy of each hour.
use ufcim_backend_proto.Prelude.{
  ℕ, zero, suc, ◌+◌, ◌*◌, ◌/◌, min, Bool, true, false, ◌&&◌, Option, none, some, List, [], ◌∷◌, ltb,
  if◌then◌else◌, any, some_when, option_map, filter_map,
}
use ufcim_backend_proto.Schedule.Times.{
  Text, is_slot_start_time, is_slot_end_time, time_to_minutes, minutes_to_time, num_lt,
  intervals_overlap,
}
use ufcim_backend_proto.Schedule.Closed.{
  ClosedHours, Interval, normalize_closed_hours, overlaps_closed_hours,
}

-- `null` for a row whose times have no slot format or are out of order.
unfoldable pub normalize_interval : Interval → Option Interval
normalize_interval i =
    some_when
      (is_slot_start_time i.start_time
        && (is_slot_end_time i.end_time
            && num_lt (time_to_minutes i.start_time) (time_to_minutes i.end_time)))
      i

pub data SlotStatus : Type 0 where
  closed blocked reserved available : SlotStatus

pub record Slot : Type 0 where
  pub start_time : Text
  pub end_time : Text
  pub status : SlotStatus

abbrev pub hits_any : Text → Text → List Interval → Bool
hits_any start end = any (λ i. intervals_overlap start end i.start_time i.end_time)

-- Closed, then blocked, then reserved, then available.
unfoldable pub slot_status : ClosedHours → List Interval → List Interval → Text → Text → SlotStatus
slot_status hours reservations blockings start end =
    if overlaps_closed_hours start end hours.closed_from hours.closed_to
    then closed
    else if hits_any start end blockings
    then blocked
    else if hits_any start end reservations
    then reserved
    else available

abbrev pub day_minutes : ℕ
day_minutes = 24 * 60

unfoldable pub slot_at : ClosedHours → List Interval → List Interval → ℕ → ℕ → Slot
slot_at hours reservations blockings step minutes =
    let start = minutes_to_time minutes in
    let end = minutes_to_time (min (minutes + step) day_minutes) in
    record {
      start_time = start;
      end_time = end;
      status = slot_status hours reservations blockings start end;
    }

-- `for (minutes = 0; minutes < 24 * 60; minutes += stepMinutes)`; `none` if the fuel runs out.
unfoldable pub slots_from :
    ClosedHours → List Interval → List Interval → ℕ → ℕ → ℕ → Option (List Slot)
slots_from hours reservations blockings step zero minutes = none
slots_from hours reservations blockings step (suc fuel) minutes =
    let rest = slots_from hours reservations blockings step fuel (minutes + step) in
    let slots = option_map (λ s. slot_at hours reservations blockings step minutes ∷ s) rest in
    if ltb minutes day_minutes then slots else some []

unfoldable pub build_availability :
    Text → Text → List Interval → List Interval → ℕ → Option (List Slot)
build_availability from to reservations blockings step =
    slots_from (normalize_closed_hours (some from) (some to))
      (filter_map normalize_interval reservations) (filter_map normalize_interval blockings) step
      (day_minutes + 1) 0

-- One entry of the hourly roll-up; `hour` is the index.
pub record HourBucket : Type 0 where
  pub occupied : ℕ
  pub open_slots : ℕ

abbrev pub is_closed : SlotStatus → Bool
is_closed closed = true
is_closed _ = false

abbrev pub is_occupied : SlotStatus → Bool
is_occupied blocked = true
is_occupied reserved = true
is_occupied _ = false

abbrev pub count_slot : SlotStatus → HourBucket → HourBucket
count_slot s b = if is_closed s then b else record {
  occupied = if is_occupied s then b.occupied + 1 else b.occupied;
  open_slots = b.open_slots + 1;
}

-- `hours[i]`, changed; nothing happens out of range.
abbrev pub update_at : ℕ → (HourBucket → HourBucket) → List HourBucket → List HourBucket
update_at i f [] = []
update_at zero f (b ∷ bs) = f b ∷ bs
update_at (suc i) f (b ∷ bs) = b ∷ update_at i f bs

-- `hours[NaN]` is undefined.
abbrev pub into_bucket : Option ℕ → SlotStatus → List HourBucket → List HourBucket
into_bucket none s hours = hours
into_bucket (some m) s hours = update_at (m / 60) (count_slot s) hours

abbrev pub empty_hours : ℕ → List HourBucket
empty_hours zero = []
empty_hours (suc n) = record { occupied = 0; open_slots = 0 } ∷ empty_hours n

unfoldable pub count_slots : List Slot → List HourBucket → List HourBucket
count_slots [] hours = hours
count_slots (s ∷ ss) hours =
    count_slots ss (into_bucket (time_to_minutes s.start_time) s.status hours)

unfoldable pub hourly_occupancy : List Slot → List HourBucket
hourly_occupancy slots = count_slots slots (empty_hours 24)
