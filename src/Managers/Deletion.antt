-- ===== src/Managers/Deletion.antt =====
-- services/space-manager.service.ts `remove`: what is left after a row is deleted.
use ufcim_backend_proto.Prelude.{
  ℕ, ◌≡◌, refl, sym, ◌∙◌, ap, Bool, true, false, not, some, List, [], ◌∷◌, ◌==◌, ==_refl, arith,
  any, any-false_of_All, find, find-All, select, is_some, All, All-map_pred, All-select, Pairs,
  Bool-cases, inl, inr,
}
use mathlib.Core.Bool.{false≢true}
use ufcim_backend_proto.Managers.{SpaceManager, manages}

-- Distinct identifiers, and distinct pairs of space and user.
abbrev pub Differ : SpaceManager → SpaceManager → Type 0
Differ x y = (x.id == y.id ≡ false) × (manages y.user_id y.space_id x ≡ false)

pub is_some-find {ℓ} : {A : Type ℓ} (p : A → Bool) (xs : List A) → is_some (find p xs) ≡ any p xs
is_some-find p [] = refl
is_some-find p (x ∷ xs) = elim (Bool-cases (p x)) [
  | inl t ↦ rw t refl
  | inr n ↦ rw n (is_some-find p xs)
]

apart : (u s : ℕ) (x y : SpaceManager) → manages u s x ≡ true → Differ x y → manages u s y ≡ false
apart u s x y h (_, far) = ground (arith, h, far)

other_id : (x y m : SpaceManager) → x ≡ m → x.id == y.id ≡ false → y.id == m.id ≡ true → ⊥
other_id x y m is_m far own =
    let same : x.id ≡ m.id = ap (λ (z : SpaceManager). z.id) is_m in ground (arith, same, far, own)

module _ (u s : ℕ) where
  pub any-deleted :
      (rows : List SpaceManager) {m : SpaceManager}
      → Pairs Differ rows
      → find (manages u s) rows ≡ some m
      → any (manages u s) (select (λ n. not (n.id == m.id)) rows) ≡ false
  any-deleted [] d h = refl
  any-deleted (x ∷ xs) {m} (far, d) h = elim (Bool-cases (manages u s x)) [
    | inl hit ↦
        let same : some x ≡ some m = rw hit at h in
        let is_m : x ≡ m = cc in
        let gone : not (x.id == m.id) ≡ false =
          ap (λ (z : SpaceManager). not (x.id == z.id)) (sym is_m) ∙ rw (==_refl x.id) refl in
        rw gone (
          any-false_of_All (manages u s) (select (λ n. not (n.id == m.id)) xs) (
            All-select (λ y. manages u s y ≡ false) (λ n. not (n.id == m.id)) xs
              (All-map_pred xs (λ y f. apart u s x y hit f) far)))
    | inr miss ↦
        let rest = any-deleted xs d (rw miss at h) in
        elim (Bool-cases (not (x.id == m.id))) [
          | inl kept ↦ rw (kept, miss) rest
          | inr gone ↦ rw gone rest
        ]
  ]

  -- Only the row that was found has its identifier.
  pub only :
      (q : SpaceManager → Bool) (rows : List SpaceManager) {m : SpaceManager}
      → Pairs Differ rows
      → find (manages u s) rows ≡ some m
      → q m ≡ false
      → All (λ x. x.id == m.id ≡ true → q x ≡ false) rows
  only q [] d h n = tt
  only q (x ∷ xs) {m} (far, d) h n = elim (Bool-cases (manages u s x)) [
    | inl hit ↦
        let same : some x ≡ some m = rw hit at h in
        let is_m : x ≡ m = cc in
        ((λ t. ap q is_m ∙ n), All-map_pred xs (λ y (f, _) t. absurd (other_id x y m is_m f t)) far)
    | inr miss ↦
        let in_tail = rw miss at h in
        let (away, _) = (find-All (Differ x) (manages u s) xs far in_tail).0 in
        ((λ t. absurd (false≢true (sym away ∙ t))), only q xs d in_tail n)
  ]

pub any-kept :
    (q : SpaceManager → Bool) (id : ℕ) (rows : List SpaceManager)
    → All (λ x. x.id == id ≡ true → q x ≡ false) rows
    → any q (select (λ n. not (n.id == id)) rows) ≡ any q rows
any-kept q id [] h = refl
any-kept q id (x ∷ xs) (f, h) = elim (Bool-cases (x.id == id)) [
  | inl own ↦ rw (own, f own) (any-kept q id xs h)
  | inr other ↦ rw (other, any-kept q id xs h) refl
]
