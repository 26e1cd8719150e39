-- ===== src/Maintenance/Totals.antt =====
-- services/maintenance-report.service.ts `buildSeries`: the days of the series add up to the totals.
use ufcim_backend_proto.Prelude.{
  ℕ, zero, suc, ◌≡◌, refl, sym, ◌∙◌, ap, ◌+◌, ◌-◌, ◌*◌, ◌/◌, ◌≤◌, ◌<◌, Bool, true, false, ◌&&◌,
  List, [], ◌∷◌, arith, ltb, leb, ◌==◌, min, length, select, All, All-map_pred, if◌then◌else◌,
}
use ufcim_backend_proto.Errors.{ok}
use ufcim_backend_proto.Equipment.{Report}
use ufcim_backend_proto.Maintenance.{day_ms, ResolvedRange, Interval, campus_midnight_ms, in_range}
use ufcim_backend_proto.Maintenance.Range.{MaintenanceRangeInput, resolve_range}
use ufcim_backend_proto.Maintenance.Intervals.{overlap_one, overlap_ms}
use ufcim_backend_proto.Maintenance.Counts.{broken_ms}
use ufcim_backend_proto.Maintenance.Series.{
  SeriesPoint, campus_date, reports_on, day_broken_ms, points_from, build_series,
}
use ufcim_backend_proto.Maintenance.Bounds.{resolve_range-bounds}

module _ {ℓ} {A : Type ℓ} (f : A → ℕ) where
  abbrev pub sum_of : List A → ℕ
  sum_of [] = 0
  sum_of (x ∷ xs) = f x + sum_of xs

-- A window cut in two, each part up to now.
overlap_one-split :
    (i : Interval) (from mid to now_ms : ℕ)
    → from ≤ mid
    → mid ≤ to
    → overlap_one i from (min mid now_ms) + overlap_one i mid (min to now_ms)
      ≡ overlap_one i from (min to now_ms)
overlap_one-split i from mid to now_ms h k = ground (arith, h, k)

overlap_one-empty : (i : Interval) (at now_ms : ℕ) → overlap_one i at (min at now_ms) ≡ 0
overlap_one-empty i at now_ms = ground arith

swap_add : (a b c d : ℕ) → (a + b) + (c + d) ≡ (a + c) + (b + d)
swap_add a b c d = omega arith

overlap_ms-split :
    (is : List Interval) (from mid to now_ms : ℕ)
    → from ≤ mid
    → mid ≤ to
    → overlap_ms is from (min mid now_ms) + overlap_ms is mid (min to now_ms)
      ≡ overlap_ms is from (min to now_ms)
unfolding overlap_ms
overlap_ms-split [] from mid to now_ms h k = refl
overlap_ms-split (i ∷ is) from mid to now_ms h k =
    let one = overlap_one-split i from mid to now_ms h k in
    let rest = overlap_ms-split is from mid to now_ms h k in swap_add _ _ _ _ ∙ rw (one, rest) refl

overlap_ms-empty : (is : List Interval) (at now_ms : ℕ) → overlap_ms is at (min at now_ms) ≡ 0
unfolding overlap_ms
overlap_ms-empty [] at now_ms = refl
overlap_ms-empty (i ∷ is) at now_ms =
    rw (overlap_one-empty i at now_ms, overlap_ms-empty is at now_ms) refl

-- The overlaps of all the sets with a window.
abbrev sets_ms : List (List Interval) → ℕ → ℕ → ℕ
sets_ms sets from to = sum_of (λ is. overlap_ms is from to) sets

sets_ms-split :
    (sets : List (List Interval)) (from mid to now_ms : ℕ)
    → from ≤ mid
    → mid ≤ to
    → sets_ms sets from (min mid now_ms) + sets_ms sets mid (min to now_ms)
      ≡ sets_ms sets from (min to now_ms)
sets_ms-split [] from mid to now_ms h k = refl
sets_ms-split (is ∷ sets) from mid to now_ms h k =
    swap_add _ _ _ _
    ∙ rw (overlap_ms-split is from mid to now_ms h k, sets_ms-split sets from mid to now_ms h k)
        refl

sets_ms-empty : (sets : List (List Interval)) (at now_ms : ℕ) → sets_ms sets at (min at now_ms) ≡ 0
sets_ms-empty [] at now_ms = refl
sets_ms-empty (is ∷ sets) at now_ms =
    rw (overlap_ms-empty is at now_ms, sets_ms-empty sets at now_ms) refl

day_broken_ms-eq :
    (sets : List (List Interval)) (date now_ms : ℕ)
    → day_broken_ms sets date now_ms
      ≡ sets_ms sets (campus_midnight_ms date) (min (campus_midnight_ms (date + 1)) now_ms)
unfolding day_broken_ms
day_broken_ms-eq [] date now_ms = refl
day_broken_ms-eq (is ∷ sets) date now_ms =
    let next : campus_midnight_ms date + day_ms ≡ campus_midnight_ms (date + 1) = omega arith in
    rw (next, day_broken_ms-eq sets date now_ms) refl

-- Reports from one date to before another.
abbrev in_days : ℕ → ℕ → Report → Bool
in_days date days r =
    leb date (campus_date r.created_at) && ltb (campus_date r.created_at) (date + days)

none_between : (a c : ℕ) → (leb a c && ltb c (a + 0)) ≡ false
none_between a c = ground arith

days_none : (date : ℕ) (reports : List Report) → length (select (in_days date 0) reports) ≡ 0
days_none date [] = refl
days_none date (r ∷ rs) =
    let out : in_days date 0 r ≡ false = none_between date (campus_date r.created_at) in
    rw out (days_none date rs)

abbrev bit : Bool → ℕ
bit true = 1
bit false = 0

tick :
    (b : Bool) (r : Report) (rs : List Report)
    → length (if b then r ∷ rs else rs) ≡ bit b + length rs
tick true r rs = omega arith
tick false r rs = omega arith

bits :
    (c date days : ℕ)
    → bit (c == date) + bit (leb (date + 1) c && ltb c (date + 1 + days))
      ≡ bit (leb date c && ltb c (date + suc days))
bits c date days = ground arith

days_more :
    (date days : ℕ) (reports : List Report)
    → reports_on reports date + length (select (in_days (date + 1) days) reports)
      ≡ length (select (in_days date (suc days)) reports)
days_more date days [] = refl
days_more date days (r ∷ rs) =
    let c = campus_date r.created_at in
    let own = tick (c == date) r (select (λ r. campus_date r.created_at == date) rs) in
    let more = tick (in_days (date + 1) days r) r (select (in_days (date + 1) days) rs) in
    let all = tick (in_days date (suc days) r) r (select (in_days date (suc days)) rs) in
    omega (arith, own, more, all, bits c date days, days_more date days rs)

days_every :
    (date days : ℕ) (reports : List Report)
    → All (λ r. in_days date days r ≡ true) reports
    → length (select (in_days date days) reports) ≡ length reports
days_every date days [] h = refl
days_every date days (r ∷ rs) (t, h) = rw t (ap (λ n. suc n) (days_every date days rs h))

module _ (reports : List Report) (sets : List (List Interval)) (now_ms : ℕ) where
  points-broken :
      (date days : ℕ)
      → sum_of
          (λ (p : SeriesPoint). day_broken_ms sets p.date now_ms)
          (points_from reports sets now_ms date days)
        ≡ sets_ms sets (campus_midnight_ms date) (min (campus_midnight_ms (date + days)) now_ms)
  points-broken date zero =
      let same : date + 0 ≡ date = omega arith in
      rw same (sym (sets_ms-empty sets (campus_midnight_ms date) now_ms))
  points-broken date (suc days) =
      let rest = points-broken (date + 1) days in
      let same : date + 1 + days ≡ date + suc days = omega arith in
      ap (λ n. day_broken_ms sets date now_ms + n)
        (rest
          ∙ ap
              (λ d.
                sets_ms sets (campus_midnight_ms (date + 1)) (min (campus_midnight_ms d) now_ms))
              same)
      ∙ ap
          (λ n.
            n
            + sets_ms sets (campus_midnight_ms (date + 1))
                (min (campus_midnight_ms (date + suc days)) now_ms))
          (day_broken_ms-eq sets date now_ms)
      ∙ sets_ms-split sets (campus_midnight_ms date) (campus_midnight_ms (date + 1))
          (campus_midnight_ms (date + suc days)) now_ms (omega arith) (omega arith)

  points-reports :
      (date days : ℕ)
      → sum_of (λ (p : SeriesPoint). p.reports) (points_from reports sets now_ms date days)
        ≡ length (select (in_days date days) reports)
  points-reports date zero = sym (days_none date reports)
  points-reports date (suc days) =
      ap (λ n. reports_on reports date + n) (points-reports (date + 1) days)
      ∙ days_more date days reports

date_bounds :
    (a n c : ℕ)
    → a * 86400000 + 10800000 ≤ c
    → c < a * 86400000 + 10800000 + n * 86400000
    → (a ≤ (c - 10800000) / 86400000) × ((c - 10800000) / 86400000 < a + n)
date_bounds a n c h k = (omega (arith, h, k), omega (arith, h, k))

in_range-days :
    (range : ResolvedRange) (r : Report)
    → range.start_ms ≡ campus_midnight_ms range.from
    → range.end_ms ≡ range.start_ms + range.days * day_ms
    → in_range range r.created_at ≡ true
    → in_days range.from range.days r ≡ true
in_range-days range r s e t =
    let from_ms : campus_midnight_ms range.from ≤ r.created_at = ground (arith, s, t) in
    let to_ms : r.created_at < campus_midnight_ms range.from + range.days * day_ms =
      ground (arith, s, e, t) in
    let (low, high) = date_bounds range.from range.days r.created_at from_ms to_ms in
    ground (arith, low, high)

-- The series of a range that was resolved, over reports created in it and any sets of intervals: the
-- reports of its days add up to all of them, and the broken time of its days, before each is rounded,
-- adds up to the broken time of all the sets in the whole range, up to now.
pub build_series-adds_up :
    (input : MaintenanceRangeInput) (today : ℕ) (range : ResolvedRange) (reports : List Report)
    (sets : List (List Interval)) (now_ms : ℕ)
    → resolve_range input today ≡ ok range
    → All (λ r. in_range range r.created_at ≡ true) reports
    → (sum_of (λ (p : SeriesPoint). p.reports) (build_series range reports sets now_ms)
        ≡ length reports)
      × (sum_of
            (λ (p : SeriesPoint). day_broken_ms sets p.date now_ms)
            (build_series range reports sets now_ms)
          ≡ sum_of (λ intervals. broken_ms intervals range now_ms) sets)
unfolding build_series
build_series-adds_up input today range reports sets now_ms h inside =
    let (end, begin, days, ordered, few, starts, ends) = resolve_range-bounds input today h in
    let last : campus_midnight_ms (range.from + range.days) ≡ range.end_ms =
      omega (arith, starts, ends) in
    (
      points-reports reports sets now_ms range.from range.days
          ∙ days_every range.from range.days reports
              (All-map_pred reports (λ r t. in_range-days range r starts ends t) inside),
      points-broken reports sets now_ms range.from range.days ∙ rw (last, starts) refl,
    )
