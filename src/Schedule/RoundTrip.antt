-- ===== src/Schedule/RoundTrip.antt =====
-- lib/schedule.ts: `timeToMinutes` reads back what `minutesToTime` writes.
use ufcim_backend_proto.Prelude.{
  ℕ, zero, suc, ◌+◌, ◌-◌, ◌*◌, ◌%◌, ◌≤◌, ◌<◌, ◌≡◌, refl, ◌⊎◌, Bool, true, ◌&&◌, Option, some, [],
  ◌∷◌, arith, num_is, ◌==◌, ==_iff, Bool-cases, inl, inr,
}
use ufcim_backend_proto.Schedule.Times.{Text, time_to_minutes, minutes_to_time, is_slot_start_time}

reads_back : ℕ → Bool
reads_back n = num_is (time_to_minutes (minutes_to_time n)) n

-- The round trip, tried on each minute before `end`.
day_reads_back : ℕ → Bool
day_reads_back zero = true
day_reads_back (suc last) = reads_back last && day_reads_back last

day_reads_back-table : day_reads_back 1441 ≡ true
unfolding day_reads_back reads_back time_to_minutes minutes_to_time
day_reads_back-table = refl

reads_back_of_day :
    (end minute : ℕ) → minute < end → day_reads_back end ≡ true → reads_back minute ≡ true
unfolding day_reads_back
reads_back_of_day zero minute earlier tried = absurd (omega arith)
reads_back_of_day (suc last) minute earlier tried = elim (Bool-cases (minute == last)) [
  | inl same ↦ rw ((==_iff minute last).0 same) (ground arith)
  | inr other ↦ reads_back_of_day last minute (ground arith) (ground arith)
]

eq-some_of_num_is : (o : Option ℕ) (n : ℕ) → num_is o n ≡ true → o ≡ some n
eq-some_of_num_is o n h = ground arith

-- The text of each minute of the day, 24:00 included, reads back as that minute.
pub time_to_minutes-minutes_to_time :
    (n : ℕ) → n ≤ 1440 → time_to_minutes (minutes_to_time n) ≡ some n
unfolding reads_back
time_to_minutes-minutes_to_time n h =
    eq-some_of_num_is _ n (reads_back_of_day 1441 n (omega arith) day_reads_back-table)

-- The digits of an accepted start.
record IsSlotStart (a b c d e : ℕ) : Type 0 where
  colon : c ≡ 58
  tens : (48 ≤ a) × (a ≤ 50)
  ones : (48 ≤ b) × (b ≤ 57)
  below_24 : a * 10 + b < 552
  half : (d ≡ 48) ⊎ (d ≡ 51)
  last : e ≡ 48

IsSlotStart-intro :
    (a b c d e : ℕ) → is_slot_start_time (a ∷ b ∷ c ∷ d ∷ e ∷ []) ≡ true → IsSlotStart a b c d e
unfolding is_slot_start_time
IsSlotStart-intro a b c d e h = record {
  colon = ground arith;
  tens = ground arith;
  ones = ground arith;
  below_24 = ground arith;
  half = ground arith;
  last = ground arith;
}

read_time :
    (a b d e : ℕ)
    → 48 ≤ a
    → a ≤ 57
    → 48 ≤ b
    → b ≤ 57
    → 48 ≤ d
    → d ≤ 57
    → 48 ≤ e
    → e ≤ 57
    → time_to_minutes (a ∷ b ∷ 58 ∷ d ∷ e ∷ [])
      ≡ some (((a - 48) * 10 + (b - 48)) * 60 + ((d - 48) * 10 + (e - 48)))
unfolding time_to_minutes
read_time a b d e ha ha' hb hb' hd hd' he he' = ground arith

-- An accepted start reads as a minute of the day that is a multiple of 30.
is_slot_start_time-minutes :
    (t : Text)
    → is_slot_start_time t ≡ true
    → (n : ℕ) × (time_to_minutes t ≡ some n) × (n < 1440) × (n % 30 ≡ 0)
unfolding is_slot_start_time
is_slot_start_time-minutes (a ∷ b ∷ c ∷ d ∷ e ∷ []) h =
    let s = IsSlotStart-intro a b c d e h in
    (
      ((a - 48) * 10 + (b - 48)) * 60 + ((d - 48) * 10 + (e - 48)),
      rw s.colon (
          read_time a b d e (omega arith) (omega arith) (omega arith) (omega arith) (omega arith)
            (omega arith) (omega arith) (omega arith)),
      omega arith,
      omega arith,
    )
is_slot_start_time-minutes _ h = cc
