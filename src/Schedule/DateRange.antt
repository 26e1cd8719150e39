-- ===== src/Schedule/DateRange.antt =====
-- lib/schedule.ts `datesBetween` and services/reservation.service.ts `generateRecurringDates`:
-- which dates they list.
use ufcim_backend_proto.Prelude.{
  ℕ, zero, suc, ◌+◌, ◌-◌, ◌≤◌, ◌<◌, ◌≡◌, refl, sym, ap, ◌∙◌, ◌↔◌, Bool, true, false, ◌&&◌, [],
  ==_iff, Bool-cases, inl, inr, All, All-map_pred, Pairs, List, ◌∷◌, arith, ◌==◌, any, length,
  select, if◌then◌else◌,
}
use ufcim_backend_proto.Schedule.Days.{
  days_from, dates_between, utc_day, recurring_from, generate_recurring_dates,
}

abbrev pub listed : ℕ → List ℕ → Bool
listed d = any (λ x. x == d)

listed-days_from :
    (n cursor d : ℕ) → (listed d (days_from cursor n) ≡ true) ↔ ((cursor ≤ d) × (d < cursor + n))
listed-days_from zero cursor d = (λ h. cc, λ h. absurd (omega arith))
listed-days_from (suc n) cursor d =
    let ih = listed-days_from n (cursor + 1) d in
    (λ h. (ground (arith, ih), ground (arith, ih)), λ h. ground (arith, ih))

abbrev on_day : List ℕ → ℕ → Bool
on_day days date = any (λ w. w == utc_day date) days

recurring_from-select :
    (days : List ℕ) (n cursor : ℕ)
    → recurring_from days cursor n ≡ select (on_day days) (days_from cursor n)
recurring_from-select days zero cursor = refl
recurring_from-select days (suc n) cursor =
    ap (λ (r : List ℕ). if on_day days cursor then cursor ∷ r else r)
      (recurring_from-select days n (cursor + 1))

length-days_from : (n cursor : ℕ) → length (days_from cursor n) ≡ n
length-days_from zero cursor = refl
length-days_from (suc n) cursor = omega (arith, length-days_from n (cursor + 1))

-- `dates_between` lists exactly the dates from the first to the last, each once, and nothing if
-- they are in the wrong order.
pub dates_between-exact :
    (from to : ℕ)
    → ((d : ℕ) → (listed d (dates_between from to) ≡ true) ↔ ((from ≤ d) × (d ≤ to)))
      × (length (dates_between from to) ≡ to + 1 - from)
unfolding dates_between
dates_between-exact from to = (
  λ d.
      let ih = listed-days_from (to + 1 - from) from d in
      (λ h. (ground (arith, ih), ground (arith, ih)), λ h. ground (arith, ih)),
  length-days_from (to + 1 - from) from,
)

-- The day of the week, 0 for Sunday, counted on from 1970-01-01, a Thursday.
abbrev next_weekday : ℕ → ℕ
next_weekday w = if w == 6 then 0 else w + 1

abbrev pub weekday : ℕ → ℕ
weekday zero = 4
weekday (suc d) = next_weekday (weekday d)

both_true : {a b : Bool} → (a && b) ≡ true → (a ≡ true) × (b ≡ true)
both_true {a} {b} h = (ground (arith, h), ground (arith, h))

recurring_from-between :
    (days : List ℕ) (start end : ℕ)
    → recurring_from days start (end + 1 - start) ≡ select (on_day days) (dates_between start end)
unfolding dates_between
recurring_from-between days start end = recurring_from-select days (end + 1 - start) start

weekday-utc_day : (d : ℕ) → weekday d ≡ utc_day d
weekday-utc_day zero = refl
weekday-utc_day (suc d) = let before = weekday-utc_day d in ground (arith, before)

listed-select : (d : ℕ) (p : ℕ → Bool) (xs : List ℕ) → listed d (select p xs) ≡ (listed d xs && p d)
listed-select d p [] = refl
listed-select d p (x ∷ xs) = elim (Bool-cases (p x)) [
  | inl kept ↦ elim (Bool-cases (x == d)) [
    | inl own ↦ let same : x ≡ d = (==_iff x d).0 own in rw (kept, own, ← same, kept) refl
    | inr other ↦ rw (kept, other) (listed-select d p xs)
  ]
  | inr dropped ↦ elim (Bool-cases (x == d)) [
    | inl own ↦
        let same : x ≡ d = (==_iff x d).0 own in
        let passed : p d ≡ false = rw⁻¹ same dropped in
        rw (dropped, own, passed) (listed-select d p xs ∙ rw passed (ground arith))
    | inr other ↦ rw (dropped, other) (listed-select d p xs)
  ]
]

recurring_from-after :
    (days : List ℕ) (n cursor first : ℕ)
    → first ≤ cursor
    → All (λ d. first ≤ d) (recurring_from days cursor n)
recurring_from-after days zero cursor first h = tt
recurring_from-after days (suc n) cursor first h =
    let rest = recurring_from-after days n (cursor + 1) first (omega (arith, h)) in
    elim (Bool-cases (on_day days cursor)) [
      | inl chosen ↦ rw chosen (h, rest)
      | inr other ↦ rw other rest
    ]

recurring_from-ascends :
    (days : List ℕ) (n cursor : ℕ) → Pairs (λ a b. a < b) (recurring_from days cursor n)
recurring_from-ascends days zero cursor = tt
recurring_from-ascends days (suc n) cursor =
    let rest = recurring_from-ascends days n (cursor + 1) in
    elim (Bool-cases (on_day days cursor)) [
      | inl chosen ↦ rw chosen (
        All-map_pred (recurring_from days (cursor + 1) n) (λ d h. omega (arith, h))
            (recurring_from-after days n (cursor + 1) (cursor + 1) (omega arith)),
        rest,
      )
      | inr other ↦ rw other rest
    ]

on_day-weekday : (days : List ℕ) (d : ℕ) → on_day days d ≡ listed (weekday d) days
on_day-weekday days d = rw (weekday-utc_day d) refl

-- A series falls on exactly the dates from its first to its last whose day of the week was chosen,
-- each once and in ascending order; the days of the week run on from 1970-01-01, a Thursday.
pub generate_recurring_dates-exact :
    (start end : ℕ) (days : List ℕ)
    → ((d : ℕ)
        → (listed d (generate_recurring_dates start end days) ≡ true)
          ↔ ((start ≤ d) × (d ≤ end) × (listed (weekday d) days ≡ true)))
      × Pairs (λ a b. a < b) (generate_recurring_dates start end days)
unfolding generate_recurring_dates
generate_recurring_dates-exact start end days = (
  λ d.
      let count = end + 1 - start in
      let (to, from) = (dates_between-exact start end).0 d in
      let found : listed d (recurring_from days start count)
          ≡ (listed d (dates_between start end) && listed (weekday d) days) =
        ap (listed d) (recurring_from-between days start end)
        ∙ listed-select d (on_day days) (dates_between start end)
        ∙ ap (λ b. listed d (dates_between start end) && b) (on_day-weekday days d) in
      (
        λ h.
            let (among, chosen) = both_true (sym found ∙ h) in
            let (after, before) = to among in (after, before, chosen),
        λ h. found ∙ rw (from (h.0, h.1), h.2) refl,
      ),
  recurring_from-ascends days (end + 1 - start) start,
)
