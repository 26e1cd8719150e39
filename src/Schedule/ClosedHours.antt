-- ===== src/Schedule/ClosedHours.antt =====
-- lib/schedule.ts: which minutes a space's closed hours hold.
use ufcim_backend_proto.Prelude.{
  ℕ, ◌≤◌, ◌<◌, ◌≡◌, refl, max, ◌⊎◌, inl, inr, ◌↔◌, Bool, true, ◌&&◌, ◌||◌, some, arith, ltb, ◌==◌,
  if◌then◌else◌, Bool-cases,
}
use ufcim_backend_proto.Schedule.Times.{
  Text, midnight, end_of_day, time_to_minutes, intervals_overlap, is_hourly_time, is_boundary_time,
}
use ufcim_backend_proto.Schedule.Closed.{
  normalize_closed_hours, get_closed_intervals, overlaps_closed_hours,
}
use ufcim_backend_proto.Schedule.Overlap.{Holds}

-- Closed from `f` to `t`: past midnight if `t` is before `f`, and all day if they are equal.
abbrev pub ClosedAt : ℕ → ℕ → ℕ → Type 0
ClosedAt f t m = (f ≡ t) ⊎ (((f < t) × Holds f t m) ⊎ ((t < f) × ((m < t) ⊎ (f ≤ m))))

midnight-minutes : time_to_minutes midnight ≡ some 0
unfolding time_to_minutes
midnight-minutes = refl

end_of_day-minutes : time_to_minutes end_of_day ≡ some 1440
unfolding time_to_minutes
end_of_day-minutes = refl

-- The test on the numbers that the times stand for.
closed_test : ℕ → ℕ → ℕ → ℕ → Bool
closed_test s e f t =
    if f == t then true else if ltb f t then ltb s t && ltb f e else (ltb s t || ltb f e)

closed_test_sound :
    (s e f t : ℕ) → s < e → closed_test s e f t ≡ true → (m : ℕ) × Holds s e m × ClosedAt f t m
unfolding closed_test
closed_test_sound s e f t p h = elim (Bool-cases (f == t)) [
  | inl same ↦ (s, ground arith, inl (ground arith))
  | inr other ↦ elim (Bool-cases (ltb f t)) [
    | inl day ↦ (max s f, ground arith, inr (inl (ground arith, ground arith)))
    | inr night ↦ elim (Bool-cases (ltb s t)) [
      | inl early ↦ (s, ground arith, inr (inr (ground arith, inl (ground arith))))
      | inr late ↦ (max s f, ground arith, inr (inr (ground arith, inr (ground arith))))
    ]
  ]
]

closed_test_complete :
    (s e f t : ℕ) → s < e → (m : ℕ) × Holds s e m × ClosedAt f t m → closed_test s e f t ≡ true
unfolding closed_test
closed_test_complete s e f t p (m, x, y) = ground arith

module _ (start end from to : Text) (s e f t : ℕ) (s_is : time_to_minutes start ≡ some s)
    (e_is : time_to_minutes end ≡ some e) (f_is : time_to_minutes from ≡ some f)
    (t_is : time_to_minutes to ≡ some t) (f_ok : is_hourly_time from ≡ true)
    (t_ok : is_boundary_time to ≡ true) (proper : s < e) (in_day : e ≤ 1440) where
  accepted :
      normalize_closed_hours (some from) (some to) ≡ record { closed_from = from; closed_to = to }
  unfolding normalize_closed_hours
  accepted = rw (f_ok, t_ok)

  overlaps-value : overlaps_closed_hours start end from to ≡ closed_test s e f t
  unfolding overlaps_closed_hours get_closed_intervals intervals_overlap closed_test
  overlaps-value =
      rw (accepted, f_is, t_is)
        (elim (Bool-cases (f == t)) [
          | inl same ↦ rw same (ground (arith, midnight-minutes, end_of_day-minutes))
          | inr other ↦ elim (Bool-cases (ltb f t)) [
            | inl day ↦ rw (other, day) (ground (arith, midnight-minutes, end_of_day-minutes))
            | inr night ↦ rw (other, night) (ground (arith, midnight-minutes, end_of_day-minutes))
          ]
        ])

-- An interval of the day overlaps the closed hours exactly when one of its minutes is closed: the
-- bounds are accepted formats; equal bounds close the whole day, and hours that pass midnight wrap.
pub overlaps_closed_hours_iff :
    (start end from to : Text) (s e f t : ℕ)
    → time_to_minutes start ≡ some s
    → time_to_minutes end ≡ some e
    → time_to_minutes from ≡ some f
    → time_to_minutes to ≡ some t
    → is_hourly_time from ≡ true
    → is_boundary_time to ≡ true
    → s < e
    → e ≤ 1440
    → (overlaps_closed_hours start end from to ≡ true) ↔ ((m : ℕ) × Holds s e m × ClosedAt f t m)
overlaps_closed_hours_iff start end from to s e f t a b c d p q lt le =
    rw (overlaps-value start end from to s e f t a b c d p q lt le)
      (closed_test_sound s e f t lt, closed_test_complete s e f t lt)
