-- ===== src/Schedule/Occupancy.antt =====
-- lib/schedule.ts `hourlyOccupancy`: each hour counts the slots that start in it.
use ufcim_backend_proto.Prelude.{
  ℕ, zero, suc, ◌+◌, ◌*◌, ◌/◌, ◌<◌, leb, ltb, ◌&&◌, ◌==◌, ==_iff, true, false, Bool-cases,
  Option-cases, inl, inr, ◌≡◌, refl, ap, ◌∙◌, Bool, not, Option, none, some, List, [], ◌∷◌, arith,
  length, select,
}
use ufcim_backend_proto.Schedule.Times.{time_to_minutes}
use ufcim_backend_proto.Schedule.Availability.{
  Slot, HourBucket, count_slot, update_at, empty_hours, count_slots, hourly_occupancy, is_closed,
  is_occupied,
}

-- `hours[i]`.
abbrev pub bucket : ℕ → List HourBucket → Option HourBucket
bucket i [] = none
bucket zero (b ∷ bs) = some b
bucket (suc i) (b ∷ bs) = bucket i bs

abbrev pub count_of : (Slot → Bool) → List Slot → ℕ
count_of p slots = length (select p slots)

-- A slot that starts at a minute of that hour of the day.
abbrev pub minute_in : ℕ → Option ℕ → Bool
minute_in hour none = false
minute_in hour (some m) = leb (hour * 60) m && ltb m (hour * 60 + 60)

abbrev pub starts_in : ℕ → Slot → Bool
starts_in hour s = minute_in hour (time_to_minutes s.start_time)

abbrev pub is_open_in : ℕ → Slot → Bool
is_open_in hour s = starts_in hour s && not (is_closed s.status)

abbrev pub is_occupied_in : ℕ → Slot → Bool
is_occupied_in hour s = starts_in hour s && is_occupied s.status

bucket-update_at :
    (i : ℕ) (f : HourBucket → HourBucket) (bs : List HourBucket) {b : HourBucket}
    → bucket i bs ≡ some b
    → bucket i (update_at i f bs) ≡ some (f b)
bucket-update_at i f [] h = cc
bucket-update_at zero f (b ∷ bs) h = cc
bucket-update_at (suc i) f (b ∷ bs) h = bucket-update_at i f bs h

bucket-update_other :
    (i j : ℕ) (f : HourBucket → HourBucket) (bs : List HourBucket)
    → i == j ≡ false
    → bucket i (update_at j f bs) ≡ bucket i bs
bucket-update_other i j f [] h = refl
bucket-update_other zero zero f (b ∷ bs) h = cc
bucket-update_other zero (suc j) f (b ∷ bs) h = refl
bucket-update_other (suc i) zero f (b ∷ bs) h = refl
bucket-update_other (suc i) (suc j) f (b ∷ bs) h = bucket-update_other i j f bs (ground (arith, h))

hour_of : (hour m : ℕ) → minute_in hour (some m) ≡ (hour == m / 60)
hour_of hour m = ground arith

-- The bucket of an hour after some slots, from what it was before.
abbrev with_slots : ℕ → List Slot → HourBucket → HourBucket
with_slots hour slots b = record {
  occupied = b.occupied + count_of (is_occupied_in hour) slots;
  open_slots = b.open_slots + count_of (is_open_in hour) slots;
}

bucket_eq : (a b : HourBucket) → a.occupied ≡ b.occupied → a.open_slots ≡ b.open_slots → a ≡ b
bucket_eq a b p q = λ i. record { occupied = p i; open_slots = q i }

with_slots-cons :
    (hour : ℕ) (s : Slot) (ss : List Slot) (b : HourBucket)
    → starts_in hour s ≡ true
    → with_slots hour ss (count_slot s.status b) ≡ with_slots hour (s ∷ ss) b
with_slots-cons hour s ss b h =
    bucket_eq (with_slots hour ss (count_slot s.status b)) (with_slots hour (s ∷ ss) b)
      (rw h (ground arith)) (rw h (ground arith))

with_slots-skip :
    (hour : ℕ) (s : Slot) (ss : List Slot) (b : HourBucket)
    → starts_in hour s ≡ false
    → with_slots hour ss b ≡ with_slots hour (s ∷ ss) b
with_slots-skip hour s ss b h = rw h refl

count_slots-bucket :
    (hour : ℕ) (slots : List Slot) (hours : List HourBucket) {b : HourBucket}
    → bucket hour hours ≡ some b
    → bucket hour (count_slots slots hours) ≡ some (with_slots hour slots b)
unfolding count_slots
count_slots-bucket hour [] hours {b} h =
    h ∙ ap (λ c. some c) (bucket_eq b (with_slots hour [] b) (omega arith) (omega arith))
count_slots-bucket hour (s ∷ ss) hours {b} h = elim (Option-cases (time_to_minutes s.start_time)) [
  | inl unread ↦
      rw unread (count_slots-bucket hour ss hours h)
      ∙ ap (λ c. some c) (with_slots-skip hour s ss b (rw unread refl))
  | inr (m, read) ↦ elim (Bool-cases (hour == m / 60)) [
    | inl own ↦
        let here : hour ≡ m / 60 = (==_iff hour (m / 60)).0 own in
        rw (read, ← here)
          (count_slots-bucket hour ss (update_at hour (count_slot s.status) hours)
            (bucket-update_at hour (count_slot s.status) hours h))
        ∙ ap (λ c. some c) (with_slots-cons hour s ss b (rw read (hour_of hour m ∙ own)))
    | inr other ↦
        rw read (
          count_slots-bucket hour ss (update_at (m / 60) (count_slot s.status) hours)
            (bucket-update_other hour (m / 60) (count_slot s.status) hours other ∙ h))
        ∙ ap (λ c. some c) (with_slots-skip hour s ss b (rw read (hour_of hour m ∙ other)))
  ]
]

bucket-empty_hours :
    (n i : ℕ) → i < n → bucket i (empty_hours n) ≡ some (record { occupied = 0; open_slots = 0 })
bucket-empty_hours zero i h = absurd (omega (arith, h))
bucket-empty_hours (suc n) zero h = refl
bucket-empty_hours (suc n) (suc i) h = bucket-empty_hours n i (omega (arith, h))

-- Each of the 24 hours counts, of the slots that start in it, those that are not closed as open and
-- the reserved and the blocked ones as occupied.
pub hourly_occupancy-counts :
    (slots : List Slot) (hour : ℕ)
    → hour < 24
    → bucket hour (hourly_occupancy slots)
      ≡ some (record {
        occupied = count_of (is_occupied_in hour) slots;
        open_slots = count_of (is_open_in hour) slots;
      })
unfolding hourly_occupancy
hourly_occupancy-counts slots hour h =
    count_slots-bucket hour slots (empty_hours 24) (bucket-empty_hours 24 hour h)
    ∙ ap (λ c. some c)
        (bucket_eq (with_slots hour slots (record { occupied = 0; open_slots = 0 }))
          (record {
            occupied = count_of (is_occupied_in hour) slots;
            open_slots = count_of (is_open_in hour) slots;
          })
          (omega arith) (omega arith))
