-- ===== src/Maintenance/Brokenness.antt =====
-- services/maintenance-report.service.ts `brokenIntervals` against the status at a moment.
use ufcim_backend_proto.Prelude.{
  ℕ, ◌≡◌, refl, ◌∙◌, ap, ◌≤◌, ◌<◌, Bool, true, false, ◌&&◌, ◌||◌, Option, none, some, List, [], ◌∷◌,
  arith, ltb, leb, any, All, All-map_pred, Pairs, Bool-cases, inl, inr, if◌then◌else◌,
}
use ufcim_backend_proto.Equipment.{HistoryRow}
use ufcim_backend_proto.Maintenance.{Interval, is_broken}
use ufcim_backend_proto.Maintenance.Intervals.{close_open, intervals_from, broken_intervals}

-- A moment is inside one of the intervals.
abbrev pub covers : List Interval → ℕ → Bool
covers intervals t = any (λ i. leb i.start t && ltb t i.end) intervals

-- Whether the last change up to `t` is a change to "broken"; `b` if there is none.
unfoldable pub broken_at : ℕ → Bool → List HistoryRow → Bool
broken_at t b [] = b
broken_at t b (row ∷ rows) =
    broken_at t (if leb row.changed_at t then is_broken row.to_status else b) rows

abbrev pub InOrder : List HistoryRow → Type 0
InOrder = Pairs (λ x y. x.changed_at ≤ y.changed_at)

abbrev started : ℕ → Option ℕ → Bool
started t none = false
started t (some s) = leb s t

abbrev From : Option ℕ → List HistoryRow → Type 0
From none rows = Unit
From (some s) rows = All (λ row. s ≤ row.changed_at) rows

-- Later changes say nothing of `t`.
broken_at-later :
    (t : ℕ) (b : Bool) (rows : List HistoryRow)
    → All (λ row. leb row.changed_at t ≡ false) rows
    → broken_at t b rows ≡ b
unfolding broken_at
broken_at-later t b [] later = refl
broken_at-later t b (row ∷ rows) (l, later) = rw l (broken_at-later t b rows later)

closes :
    (t now_ms : ℕ) (open_start : Option ℕ)
    → t < now_ms
    → covers (close_open open_start now_ms) t ≡ started t open_start
closes t now_ms none h = refl
closes t now_ms (some s) h = ground (arith, h)

kept : (a t : ℕ) → leb a t ≡ (if leb a t then true else false)
kept a t = ground arith

cleared : (b : Bool) → false ≡ (if b then false else false)
cleared b = ground arith

stays : (s a t : ℕ) → s ≤ a → leb s t ≡ (if leb a t then true else leb s t)
stays s a t h = ground (arith, h)

later_than :
    (t : ℕ) (row : HistoryRow) (rows : List HistoryRow)
    → leb row.changed_at t ≡ false
    → All (λ y. row.changed_at ≤ y.changed_at) rows
    → All (λ y. leb y.changed_at t ≡ false) rows
later_than t row rows after = All-map_pred rows (λ y le. ground (arith, after, le))

module _ (t now_ms : ℕ) (past : t < now_ms) where
  closed-covers :
      (s : ℕ) (row : HistoryRow) (rows : List HistoryRow)
      → All (λ y. row.changed_at ≤ y.changed_at) rows
      → covers (intervals_from none rows now_ms) t ≡ broken_at t false rows
      → (leb s t && ltb t row.changed_at || covers (intervals_from none rows now_ms) t)
        ≡ broken_at t (if leb row.changed_at t then false else leb s t) rows
  closed-covers s row rows first rest = elim (Bool-cases (leb row.changed_at t)) [
    | inl before ↦
        let over : ltb t row.changed_at ≡ false = ground (arith, before) in
        rw (before, over) (ground (arith, rest))
    | inr after ↦
        let under : ltb t row.changed_at ≡ true = ground (arith, after) in
        let later = later_than t row rows after first in
        let quiet = rest ∙ broken_at-later t false rows later in
        rw (after, under, quiet, broken_at-later t (leb s t) rows later) (ground arith)
  ]

  covers-From :
      (open_start : Option ℕ) (rows : List HistoryRow)
      → From open_start rows
      → InOrder rows
      → covers (intervals_from open_start rows now_ms) t ≡ broken_at t (started t open_start) rows
  unfolding intervals_from broken_at
  covers-From open_start [] f o = closes t now_ms open_start past
  covers-From none (row ∷ rows) f (first, o) = elim (Bool-cases (is_broken row.to_status)) [
    | inl b ↦ rw b (
        covers-From (some row.changed_at) rows first o
        ∙ ap (λ z. broken_at t z rows) (kept row.changed_at t))
    | inr w ↦
        rw w (
          covers-From none rows tt o
          ∙ ap (λ z. broken_at t z rows) (cleared (leb row.changed_at t)))
  ]
  covers-From (some s) (row ∷ rows) (le, f) (first, o) =
      elim (Bool-cases (is_broken row.to_status)) [
        | inl b ↦ rw b (
            covers-From (some s) rows f o
            ∙ ap (λ z. broken_at t z rows) (stays s row.changed_at t le))
        | inr w ↦ rw w (closed-covers s row rows first (covers-From none rows tt o))
      ]

-- For changes in the order of time and any moment `t` before now: `t` lies in one of the intervals
-- that the loop collects exactly when the last change up to `t` was a change to "broken".
pub broken_intervals-covers :
    (t now_ms : ℕ) (history : List HistoryRow)
    → t < now_ms
    → InOrder history
    → covers (broken_intervals history now_ms) t ≡ broken_at t false history
unfolding broken_intervals
broken_intervals-covers t now_ms history past o = covers-From t now_ms past none history tt o
