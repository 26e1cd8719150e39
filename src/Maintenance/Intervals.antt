-- ===== src/Maintenance/Intervals.antt =====
-- services/maintenance-report.service.ts `brokenIntervals`, `overlapMs`, `sortHistory`
use ufcim_backend_proto.Prelude.{
  ℕ, ◌+◌, ◌-◌, Bool, Option, none, some, List, [], ◌∷◌, ltb, max, min, if◌then◌else◌,
}
use ufcim_backend_proto.Equipment.{HistoryRow}
use ufcim_backend_proto.Maintenance.{Interval, is_broken}

-- An interval that is open at the end lasts up to now.
abbrev pub close_open : Option ℕ → ℕ → List Interval
close_open none now_ms = []
close_open (some s) now_ms = if ltb s now_ms then record { start = s; end = now_ms } ∷ [] else []

-- The start after a row: kept, set, or cleared.
abbrev pub next_open : Option ℕ → HistoryRow → Option ℕ
next_open none row = if is_broken row.to_status then some row.changed_at else none
next_open (some s) row = if is_broken row.to_status then some s else none

-- What a row closes.
abbrev pub closed_by : Option ℕ → HistoryRow → List Interval → List Interval
closed_by none row rest = rest
closed_by (some s) row rest =
    if is_broken row.to_status then rest else record { start = s; end = row.changed_at } ∷ rest

unfoldable pub intervals_from : Option ℕ → List HistoryRow → ℕ → List Interval
intervals_from open_start [] now_ms = close_open open_start now_ms
intervals_from open_start (row ∷ rows) now_ms =
    closed_by open_start row (intervals_from (next_open open_start row) rows now_ms)

unfoldable pub broken_intervals : List HistoryRow → ℕ → List Interval
broken_intervals history now_ms = intervals_from none history now_ms

abbrev pub overlap_one : Interval → ℕ → ℕ → ℕ
overlap_one i from to =
    let s = max i.start from in let e = min i.end to in if ltb s e then e - s else 0

unfoldable pub overlap_ms : List Interval → ℕ → ℕ → ℕ
overlap_ms [] from to = 0
overlap_ms (i ∷ is) from to = overlap_one i from to + overlap_ms is from to

-- A stable sort, as the language's.
abbrev pub insert_by {ℓ} : {A : Type ℓ} → (A → A → Bool) → A → List A → List A
insert_by less x [] = x ∷ []
insert_by less x (y ∷ ys) = if less y x then y ∷ insert_by less x ys else x ∷ y ∷ ys

abbrev pub sort_by {ℓ} : {A : Type ℓ} → (A → A → Bool) → List A → List A
sort_by less [] = []
sort_by less (x ∷ xs) = insert_by less x (sort_by less xs)

unfoldable pub sort_history : List HistoryRow → List HistoryRow
sort_history rows = sort_by (λ a b. ltb a.changed_at b.changed_at) rows
