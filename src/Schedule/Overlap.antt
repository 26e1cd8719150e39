-- ===== src/Schedule/Overlap.antt =====
-- lib/schedule.ts `intervalsOverlap` against the minutes that the intervals hold.
use ufcim_backend_proto.Prelude.{ℕ, ◌≤◌, ◌<◌, ◌≡◌, ◌↔◌, true, some, arith, max}
use ufcim_backend_proto.Schedule.Times.{Text, time_to_minutes, intervals_overlap}

-- The half-open interval from `s` to `e` holds the minute `m`.
abbrev pub Holds : ℕ → ℕ → ℕ → Type 0
Holds s e m = (s ≤ m) × (m < e)

module _ (a b c d : Text) (s e s' e' : ℕ) where
  overlap-shared :
      time_to_minutes a ≡ some s
      → time_to_minutes b ≡ some e
      → time_to_minutes c ≡ some s'
      → time_to_minutes d ≡ some e'
      → s < e
      → s' < e'
      → intervals_overlap a b c d ≡ true
      → (m : ℕ) × Holds s e m × Holds s' e' m
  unfolding intervals_overlap
  overlap-shared p q p' q' h h' t =
      (max s s', (ground arith, ground arith), (ground arith, ground arith))

  shared-overlap :
      time_to_minutes a ≡ some s
      → time_to_minutes b ≡ some e
      → time_to_minutes c ≡ some s'
      → time_to_minutes d ≡ some e'
      → (m : ℕ) × Holds s e m × Holds s' e' m
      → intervals_overlap a b c d ≡ true
  unfolding intervals_overlap
  shared-overlap p q p' q' (m, x, y) = ground arith

-- Two non-empty intervals of readable times overlap exactly when they hold a common minute.
pub intervals_overlap_iff :
    (a b c d : Text) (s e s' e' : ℕ)
    → time_to_minutes a ≡ some s
    → time_to_minutes b ≡ some e
    → time_to_minutes c ≡ some s'
    → time_to_minutes d ≡ some e'
    → s < e
    → s' < e'
    → (intervals_overlap a b c d ≡ true) ↔ ((m : ℕ) × Holds s e m × Holds s' e' m)
intervals_overlap_iff a b c d s e s' e' p q p' q' h h' =
    (overlap-shared a b c d s e s' e' p q p' q' h h', shared-overlap a b c d s e s' e' p q p' q')
