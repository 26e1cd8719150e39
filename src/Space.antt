-- ===== src/Space.antt =====
-- services/space.service.ts `getAvailability`: the grid of a space's day. Details adds what
-- `enrichSlots` attaches to a slot.
pub mod Agreement
pub mod Details
pub mod Discretion
use ufcim_backend_proto.Prelude.{
  ℕ, Bool, true, false, Option, none, some, List, [], ◌∷◌, map, if◌then◌else◌, select, option_map,
}
use ufcim_backend_proto.Errors.{Result, ok, err, internal, ◌>>=◌}
use ufcim_backend_proto.Schedule.Times.{Text, slot_minutes}
use ufcim_backend_proto.Schedule.Closed.{Interval}
use ufcim_backend_proto.Schedule.Availability.{SlotStatus, closed, Slot, build_availability}
use ufcim_backend_proto.Schema.{Space, Reservation, Blocking, Db}
use ufcim_backend_proto.Reservation.Guards.{found, find_space, occupies, blocks}

abbrev pub reservation_interval : Reservation → Interval
reservation_interval r = record { start_time = r.start_time; end_time = r.end_time }

abbrev pub blocking_interval : Blocking → Interval
blocking_interval b = record { start_time = b.start_time; end_time = b.end_time }

abbrev pub day_reservations : Db → ℕ → ℕ → List Interval
day_reservations db space_id date =
    map reservation_interval (select (occupies space_id date) db.reservations)

abbrev pub day_blockings : Db → ℕ → ℕ → List Interval
day_blockings db space_id date = map blocking_interval (select (blocks space_id date) db.blockings)

-- What the client sees of a slot: its status, or that the space cannot be reserved.
pub data ViewStatus : Type 0 where
  of_status : SlotStatus → ViewStatus
  not_reservable : ViewStatus

pub record ViewSlot : Type 0 where
  pub start_time : Text
  pub end_time : Text
  pub status : ViewStatus

abbrev pub view_status : Bool → SlotStatus → ViewStatus
view_status true s = of_status s
view_status false closed = of_status closed
view_status false s = not_reservable

abbrev pub view : Bool → Slot → ViewSlot
view reservable s = record {
  start_time = s.start_time;
  end_time = s.end_time;
  status = view_status reservable s.status;
}

abbrev of_slots : Bool → Option (List Slot) → Result (List ViewSlot)
of_slots reservable none = err internal
of_slots reservable (some slots) = ok (map (view reservable) slots)

-- The loop of `buildAvailability` never runs out of fuel, so the error stands for nothing.
unfoldable pub get_availability : Db → ℕ → ℕ → Result (List ViewSlot)
get_availability db space_id date = do
  space ← found (find_space db space_id)
  of_slots space.reservable (
      build_availability space.closed_from space.closed_to (day_reservations db space_id date)
        (day_blockings db space_id date) slot_minutes)
