-- ===== src/Maintenance/Timelines.antt =====
-- services/maintenance-report.service.ts: the order of the timeline.
use ufcim_backend_proto.Prelude.{
  ℕ, suc, ◌<◌, ◌⊎◌, ap, not, length, select, Pairs-map_pred, ◌≡◌, refl, ◌∙◌, Bool, true, false,
  List, [], ◌∷◌, ◌++◌, arith, All, All-map_pred, Pairs, Bool-cases, inl, inr,
}
use ufcim_backend_proto.Equipment.{Report, HistoryRow}
use ufcim_backend_proto.Maintenance.{ResolvedRange}
use ufcim_backend_proto.Maintenance.Intervals.{insert_by, sort_by}
use ufcim_backend_proto.Maintenance.Timeline.{
  TimelineEvent, happens_before, Happening, reported, in_review, closed, changed, is_report,
  all_report_events, status_events, build_timeline,
}

-- A sort by a test that is one of a total order leaves no element before one that is less.
module _ {ℓ} {A : Type ℓ} (less : A → A → Bool) (P : A → Type 0) where
  All-insert : (x : A) (ys : List A) → P x → All P ys → All P (insert_by less x ys)
  All-insert x [] p h = (p, tt)
  All-insert x (y ∷ ys) p (q, h) = elim (Bool-cases (less y x)) [
    | inl before ↦ rw before (q, All-insert x ys p h)
    | inr after ↦ rw after (p, (q, h))
  ]

  pub All-sort : (xs : List A) → All P xs → All P (sort_by less xs)
  All-sort [] h = tt
  All-sort (x ∷ xs) (p, h) = All-insert x (sort_by less xs) p (All-sort xs h)

module _ {ℓ} {A : Type ℓ} (less : A → A → Bool)
    (trans : (x y z : A) → less y x ≡ false → less z y ≡ false → less z x ≡ false)
    (asym : (x y : A) → less x y ≡ true → less y x ≡ false) where
  abbrev Sorted : List A → Type 0
  Sorted = Pairs (λ x y. less y x ≡ false)

  insert-Sorted : (x : A) (ys : List A) → Sorted ys → Sorted (insert_by less x ys)
  insert-Sorted x [] s = (tt, tt)
  insert-Sorted x (y ∷ ys) (first, s) = elim (Bool-cases (less y x)) [
    | inl before ↦
        rw before (
          All-insert less (λ z. less z y ≡ false) x ys (asym y x before) first,
          insert-Sorted x ys s,
        )
    | inr after ↦ rw after ((after, All-map_pred ys (λ z h. trans x y z after h) first), (first, s))
  ]

  sort-Sorted : (xs : List A) → Sorted (sort_by less xs)
  sort-Sorted [] = tt
  sort-Sorted (x ∷ xs) = insert-Sorted x (sort_by less xs) (sort-Sorted xs)

-- How many elements pass a test.
abbrev pub count {ℓ} : {A : Type ℓ} → (A → Bool) → List A → ℕ
count p xs = length (select p xs)

module _ {ℓ} {A : Type ℓ} (less : A → A → Bool) (p : A → Bool) where
  count-insert : (x : A) (ys : List A) → count p (insert_by less x ys) ≡ count p (x ∷ ys)
  count-insert x [] = refl
  count-insert x (y ∷ ys) = elim (Bool-cases (less y x)) [
    | inr after ↦ rw after refl
    | inl before ↦
        let rest = count-insert x ys in
        elim (Bool-cases (p x)) [
          | inl mine ↦ elim (Bool-cases (p y)) [
            | inl counted ↦ rw (before, counted, mine) (ap suc (rest ∙ rw mine refl))
            | inr skipped ↦ rw (before, skipped, mine) (rest ∙ rw mine refl)
          ]
          | inr other ↦ elim (Bool-cases (p y)) [
            | inl counted ↦ rw (before, counted, other) (ap suc (rest ∙ rw other refl))
            | inr skipped ↦ rw (before, skipped, other) (rest ∙ rw other refl)
          ]
        ]
  ]

  count_cons :
      (x : A) (xs ys : List A) → count p xs ≡ count p ys → count p (x ∷ xs) ≡ count p (x ∷ ys)
  count_cons x xs ys h = elim (Bool-cases (p x)) [
    | inl mine ↦ rw mine (ap suc h)
    | inr other ↦ rw other h
  ]

  count-sort : (xs : List A) → count p (sort_by less xs) ≡ count p xs
  count-sort [] = refl
  count-sort (x ∷ xs) =
      count-insert x (sort_by less xs) ∙ count_cons x (sort_by less xs) xs (count-sort xs)

before_trans :
    (x y z : TimelineEvent)
    → happens_before y x ≡ false
    → happens_before z y ≡ false
    → happens_before z x ≡ false
before_trans x y z h k = ground (arith, h, k)

before_asym : (x y : TimelineEvent) → happens_before x y ≡ true → happens_before y x ≡ false
before_asym x y h = ground (arith, h)

-- A change of status; all other events are of a report.
abbrev pub is_change : Happening → Bool
is_change (changed from to source author) = true
is_change (reported severity author text) = false
is_change (in_review severity author) = false
is_change (closed severity status reason) = false

-- Earlier, or at the same moment and not a change of status before an event of a report.
abbrev pub Precedes : TimelineEvent → TimelineEvent → Type 0
Precedes x y =
    (x.at < y.at) ⊎ ((x.at ≡ y.at) × ((is_change x.what ≡ false) ⊎ (is_change y.what ≡ true)))

is_report-not : (w : Happening) → is_report w ≡ not (is_change w)
is_report-not (changed from to source author) = refl
is_report-not (reported severity author text) = refl
is_report-not (in_review severity author) = refl
is_report-not (closed severity status reason) = refl

not_before-Precedes : (x y : TimelineEvent) → happens_before y x ≡ false → Precedes x y
not_before-Precedes x y h = ground (arith, h, is_report-not x.what, is_report-not y.what)

-- Every event of the timeline comes before the later ones in time, or at one moment with no change of
-- status before an event of a report. Whatever is asked of an event, the timeline holds as many events
-- of that sort as were collected from the reports and the history.
pub build_timeline-ordered :
    (reports : List Report) (history : List HistoryRow) (range : ResolvedRange)
    (sort : TimelineEvent → Bool)
    → Pairs Precedes (build_timeline reports history range)
      × (count sort (build_timeline reports history range)
          ≡ count sort (all_report_events range reports ++ status_events range history))
unfolding build_timeline
build_timeline-ordered reports history range sort = (
  Pairs-map_pred (λ x y. happens_before y x ≡ false) Precedes (build_timeline reports history range)
      not_before-Precedes
      (sort-Sorted happens_before before_trans before_asym
        (all_report_events range reports ++ status_events range history)),
  count-sort happens_before sort (all_report_events range reports ++ status_events range history),
)
