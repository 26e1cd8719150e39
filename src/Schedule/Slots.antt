-- ===== src/Schedule/Slots.antt =====
-- lib/schedule.ts `buildAvailability`: the slots of a day, and that the loop ends.
use ufcim_backend_proto.Prelude.{
  ℕ, zero, suc, ◌+◌, ◌-◌, ◌≤◌, ◌<◌, ◌≡◌, refl, true, false, some, List, [], ◌∷◌, arith, ltb, min,
  Bool-cases, inl, inr, filter_map, All,
}
use ufcim_backend_proto.Schedule.Times.{Text, minutes_to_time, time_to_minutes}
use ufcim_backend_proto.Schedule.Closed.{
  ClosedHours, Interval, normalize_closed_hours, overlaps_closed_hours,
}
use ufcim_backend_proto.Schedule.Availability.{
  Slot, SlotStatus, closed, blocked, reserved, available, hits_any, slot_status, day_minutes,
  slot_at, slots_from, build_availability, normalize_interval,
}
use ufcim_backend_proto.Schedule.RoundTrip.{time_to_minutes-minutes_to_time}

start_reads : (m : ℕ) → m ≤ day_minutes → time_to_minutes (minutes_to_time m) ≡ some m
start_reads m h = time_to_minutes-minutes_to_time m (omega arith)

at_start : (m : ℕ) → m < day_minutes → min m day_minutes ≡ m
at_start m h = omega arith

module _ (hours : ClosedHours) (reservations blockings : List Interval) where
  -- The status of an interval of the day: closed if it overlaps the closed hours, else blocked if it
  -- overlaps a blocking, else reserved if it overlaps a reservation, else available.
  abbrev pub HasStatus : Text → Text → SlotStatus → Type 0
  HasStatus start end closed =
      overlaps_closed_hours start end hours.closed_from hours.closed_to ≡ true
  HasStatus start end blocked =
      (overlaps_closed_hours start end hours.closed_from hours.closed_to ≡ false)
      × (hits_any start end blockings ≡ true)
  HasStatus start end reserved =
      (overlaps_closed_hours start end hours.closed_from hours.closed_to ≡ false)
      × (hits_any start end blockings ≡ false)
      × (hits_any start end reservations ≡ true)
  HasStatus start end available =
      (overlaps_closed_hours start end hours.closed_from hours.closed_to ≡ false)
      × (hits_any start end blockings ≡ false)
      × (hits_any start end reservations ≡ false)

  slot_status-HasStatus :
      (start end : Text) → HasStatus start end (slot_status hours reservations blockings start end)
  unfolding slot_status
  slot_status-HasStatus start end =
      elim (Bool-cases (overlaps_closed_hours start end hours.closed_from hours.closed_to)) [
        | inl shut ↦ rw shut shut
        | inr open_then ↦ elim (Bool-cases (hits_any start end blockings)) [
          | inl hit ↦ rw (open_then, hit) (open_then, hit)
          | inr free ↦ elim (Bool-cases (hits_any start end reservations)) [
            | inl taken ↦ rw (open_then, free, taken) (open_then, free, taken)
            | inr left ↦ rw (open_then, free, left) (open_then, free, left)
          ]
        ]
      ]

  HasStatus-slot_status :
      (start end : Text) (s : SlotStatus)
      → HasStatus start end s
      → s ≡ slot_status hours reservations blockings start end
  unfolding slot_status
  HasStatus-slot_status start end closed h = rw h refl
  HasStatus-slot_status start end blocked (a, b) = rw (a, b) refl
  HasStatus-slot_status start end reserved (a, b, c) = rw (a, b, c) refl
  HasStatus-slot_status start end available (a, b, c) = rw (a, b, c) refl

  -- The slots tile the day from `m` on: each begins where the one before ends, none is empty, the
  -- last ends at 24:00, and each has the status of its interval.
  abbrev pub Tiles : ℕ → List Slot → Type 0
  Tiles m [] = day_minutes ≤ m
  Tiles m (s ∷ ss) =
      (e : ℕ) × (m < e)
      × (e ≤ day_minutes)
      × (time_to_minutes s.start_time ≡ some m)
      × (time_to_minutes s.end_time ≡ some e)
      × HasStatus s.start_time s.end_time s.status
      × Tiles e ss

  pub Tiles-status :
      (m : ℕ) (slots : List Slot)
      → Tiles m slots
      → All (λ s. s.status ≡ slot_status hours reservations blockings s.start_time s.end_time) slots
  Tiles-status m [] t = tt
  Tiles-status m (s ∷ ss) (e, _, _, _, _, status, rest) =
      (HasStatus-slot_status s.start_time s.end_time s.status status, Tiles-status e ss rest)

  module _ (step : ℕ) (positive : 0 < step) where
    slots_from-Tiles :
        (fuel m : ℕ)
        → day_minutes - m < fuel
        → (slots : List Slot) × (slots_from hours reservations blockings step fuel m ≡ some slots)
          × Tiles (min m day_minutes) slots
    unfolding slots_from slot_at
    slots_from-Tiles zero m h = absurd (omega arith)
    slots_from-Tiles (suc fuel) m h = elim (Bool-cases (ltb m day_minutes)) [
      | inr over ↦ ([], rw over, ground arith)
      | inl inside ↦
          let (slots, e, tiles) = slots_from-Tiles fuel (m + step) (ground arith) in
          (
            slot_at hours reservations blockings step m ∷ slots,
            rw (inside, e),
            rw (at_start m (ground arith)) (
              min (m + step) day_minutes,
              ground arith,
              ground arith,
              start_reads m (ground arith),
              start_reads (min (m + step) day_minutes) (ground arith),
              slot_status-HasStatus (minutes_to_time m)
                  (minutes_to_time (min (m + step) day_minutes)),
              tiles,
            ),
          )
    ]

-- For every positive step the loop ends, and its slots tile the day from 0:00 to 24:00. A slot is
-- closed if it overlaps the closed hours, else blocked if it overlaps a blocking, else reserved if it
-- overlaps a reservation, else available; rows without accepted times count for nothing.
pub build_availability-Tiles :
    (from to : Text) (reservations blockings : List Interval) (step : ℕ)
    → 0 < step
    → (slots : List Slot) × (build_availability from to reservations blockings step ≡ some slots)
      × Tiles
          (normalize_closed_hours (some from) (some to))
          (filter_map normalize_interval reservations)
          (filter_map normalize_interval blockings)
          0
          slots
unfolding build_availability
build_availability-Tiles from to reservations blockings step positive =
    slots_from-Tiles _ _ _ step positive (day_minutes + 1) 0 (omega arith)
