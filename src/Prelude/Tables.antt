-- ===== src/Prelude/Tables.antt =====
-- A database table is the list of its rows: `update … where`, and conditions on every two rows.
use mathlib.Core.Path.{◌≡◌, refl, sym, ap, ◌∙◌}
use mathlib.Core.Logic.{inl, inr}
use mathlib.Core.Bool.{Bool, true, false, false≢true}
use mathlib.Core.Option.{some, none}
use mathlib.Core.List.{List, [], ◌∷◌, ◌++◌}
use Prim.Native.Nat.{ℕ}
use native.Mathlib.Omega.{arith}
use ufcim_backend_proto.Prelude.Tests.{if◌then◌else◌, Bool-cases, ◌==◌, ==_iff}
use ufcim_backend_proto.Prelude.Lists.{length, find, find-All, All, All-intro, All-map_pred}

module _ {ℓ} {A : Type ℓ} where
  -- `update(table).set(f).where(p)`
  abbrev pub update_where : (A → Bool) → (A → A) → List A → List A
  update_where p f [] = []
  update_where p f (x ∷ xs) = (if p x then f x else x) ∷ update_where p f xs

  pub length-update_where :
      (p : A → Bool) (f : A → A) (xs : List A) → length (update_where p f xs) ≡ length xs
  length-update_where p f [] = refl
  length-update_where p f (x ∷ xs) = omega (arith, length-update_where p f xs)

-- A row that the update writes is found as it is written, if the search reads no written column.
module _ {ℓ} {A : Type ℓ} (q p : A → Bool) (f : A → A) (keeps : (x : A) → q (f x) ≡ q x) where
  pub find-update_where :
      (xs : List A) {a : A}
      → find q xs ≡ some a
      → p a ≡ true
      → find q (update_where p f xs) ≡ some (f a)
  find-update_where [] h e = cc
  find-update_where (x ∷ xs) {a} h e = elim (Bool-cases (q x)) [
    | inl y ↦
        let same : some x ≡ some a = rw y at h in
        let is_a : x ≡ a = cc in
        let own : p x ≡ true = ap p is_a ∙ e in
        rw (own, keeps x, y) (ap (λ (z : A). some (f z)) is_a)
    | inr n ↦ elim (Bool-cases (p x)) [
      | inl own ↦ rw (own, keeps x, n) (find-update_where xs (rw n at h) e)
      | inr other ↦ rw (other, n) (find-update_where xs (rw n at h) e)
    ]
  ]

module _ {ℓ κ} {A : Type ℓ} (R : A → A → Type κ) where
  -- `R` between each row and every later one
  abbrev pub Pairs : List A → Type κ
  Pairs [] = Unit
  Pairs (x ∷ xs) = All (R x) xs × Pairs xs

pub All-snoc {ℓ κ} :
    {A : Type ℓ} (P : A → Type κ) (xs : List A) {a : A} → All P xs → P a → All P (xs ++ a ∷ [])
All-snoc P [] h p = (p, tt)
All-snoc P (x ∷ xs) (q, h) p = (q, All-snoc P xs h p)

-- An inserted row has to fit every row that is there.
module _ {ℓ κ} {A : Type ℓ} (R : A → A → Type κ) where
  pub Pairs-snoc : (xs : List A) (a : A) → Pairs R xs → All (λ x. R x a) xs → Pairs R (xs ++ a ∷ [])
  Pairs-snoc [] a h k = (tt, tt)
  Pairs-snoc (x ∷ xs) a (h, hs) (k, ks) = (All-snoc (R x) xs h k, Pairs-snoc xs a hs ks)

  pub Pairs-intro : (xs : List A) → ((x y : A) → R x y) → Pairs R xs
  Pairs-intro [] h = tt
  Pairs-intro (x ∷ xs) h = (All-intro (R x) xs (h x), Pairs-intro xs h)

pub All-update_where {ℓ κ} :
    {A : Type ℓ} (P : A → Type κ) (p : A → Bool) (f : A → A) (xs : List A)
    → All P xs
    → ((x : A) → p x ≡ true → P x → P (f x))
    → All P (update_where p f xs)
All-update_where P p f [] h keep = tt
All-update_where P p f (x ∷ xs) (q, h) keep = elim (Bool-cases (p x)) [
  | inl t ↦ rw t (keep x t q, All-update_where P p f xs h keep)
  | inr n ↦ rw n (q, All-update_where P p f xs h keep)
]

-- What a row becomes under `update … where`.
abbrev pub written {ℓ} : {A : Type ℓ} → (A → Bool) → (A → A) → A → A
written p f x = if p x then f x else x

-- A write that never breaks `R` between two rows, whichever of them it touches.
module _ {ℓ κ} {A : Type ℓ} (R : A → A → Type κ) (p : A → Bool) (f : A → A)
    (keep : (x y : A) → R x y → R (written p f x) (written p f y)) where
  All-written : (x : A) (xs : List A) → All (R x) xs → All (R (written p f x)) (update_where p f xs)
  All-written x [] h = tt
  All-written x (y ∷ ys) (r, h) = (keep x y r, All-written x ys h)

  pub Pairs-update_where : (xs : List A) → Pairs R xs → Pairs R (update_where p f xs)
  Pairs-update_where [] h = tt
  Pairs-update_where (x ∷ xs) (h, hs) = (All-written x xs h, Pairs-update_where xs hs)

-- The same, for a write that needs `P` of the rows.
module _ {ℓ κ μ} {A : Type ℓ} (R : A → A → Type κ) (P : A → Type μ) (p : A → Bool) (f : A → A)
    (keep : (x y : A) → P x → P y → R x y → R (written p f x) (written p f y)) where
  All-written_if :
      (x : A) (xs : List A)
      → P x
      → All P xs
      → All (R x) xs
      → All (R (written p f x)) (update_where p f xs)
  All-written_if x [] q h k = tt
  All-written_if x (y ∷ ys) q (e, h) (r, k) = (keep x y q e r, All-written_if x ys q h k)

  pub Pairs-update_where_if : (xs : List A) → All P xs → Pairs R xs → Pairs R (update_where p f xs)
  Pairs-update_where_if [] q h = tt
  Pairs-update_where_if (x ∷ xs) (e, q) (h, hs) =
      (All-written_if x xs e q h, Pairs-update_where_if xs q hs)

-- A write to the one row that `p` selects, which becomes `b`.
module _ {ℓ κ} {A : Type ℓ} (R : A → A → Type κ) (symm : (x y : A) → R x y → R y x) (p : A → Bool)
    (b : A) where
  abbrev pub Fits : A → Type κ
  Fits x = p x ≡ false → R x b

  All-write_other :
      (x : A) (xs : List A) → R x b → All (R x) xs → All (R x) (update_where p (λ _. b) xs)
  All-write_other x [] fits h = tt
  All-write_other x (y ∷ ys) fits (r, h) = elim (Bool-cases (p y)) [
    | inl t ↦ rw t (fits, All-write_other x ys fits h)
    | inr m ↦ rw m (r, All-write_other x ys fits h)
  ]

  All-write_only :
      (xs : List A)
      → All (λ y. p y ≡ false) xs
      → All Fits xs
      → All (R b) (update_where p (λ _. b) xs)
  All-write_only [] n h = tt
  All-write_only (y ∷ ys) (m, n) (k, h) = rw m (symm y b (k m), All-write_only ys n h)

  -- At most one row is selected, so the later rows are not.
  pub Pairs-write_one :
      (xs : List A)
      → Pairs (λ x y. p x ≡ true → p y ≡ false) xs
      → All Fits xs
      → Pairs R xs
      → Pairs R (update_where p (λ _. b) xs)
  Pairs-write_one [] one fits h = tt
  Pairs-write_one (x ∷ xs) (u, one) (k, fits) (r, h) = elim (Bool-cases (p x)) [
    | inl t ↦
        rw t
          (All-write_only xs (All-map_pred xs (λ y f. f t) u) fits, Pairs-write_one xs one fits h)
    | inr n ↦ rw n (All-write_other x xs (k n) r, Pairs-write_one xs one fits h)
  ]

  -- The first row that `p` selects stands in `R` to every row that `p` does not select.
  pub find-Fits : (xs : List A) → Pairs R xs → find p xs ≡ some b → All Fits xs
  find-Fits [] h e = tt
  find-Fits (x ∷ xs) (r, h) e = elim (Bool-cases (p x)) [
    | inl t ↦
        let same : some x ≡ some b = rw t at e in
        let eq : x ≡ b = cc in
        (λ n. absurd (false≢true (sym n ∙ t)), All-map_pred xs (λ y q _. rw eq at (symm x y q)) r)
    | inr n ↦ (λ _. (find-All (R x) p xs r (rw n at e)).0, find-Fits xs h (rw n at e))
  ]

pub Pairs-map_pred {ℓ κ μ} :
    {A : Type ℓ} (R : A → A → Type κ) (S : A → A → Type μ) (xs : List A)
    → ((x y : A) → R x y → S x y)
    → Pairs R xs
    → Pairs S xs
Pairs-map_pred R S [] f h = tt
Pairs-map_pred R S (x ∷ xs) f (r, h) = (All-map_pred xs (f x) r, Pairs-map_pred R S xs f h)

pub find-append {ℓ} :
    {A : Type ℓ} (p : A → Bool) (xs ys : List A) {a : A}
    → find p xs ≡ some a
    → find p (xs ++ ys) ≡ some a
find-append p [] ys h = cc
find-append p (x ∷ xs) ys h = elim (Bool-cases (p x)) [
  | inl t ↦ rw t (rw t at h)
  | inr n ↦ rw n (find-append p xs ys (rw n at h))
]

pub find-append_none {ℓ} :
    {A : Type ℓ} (p : A → Bool) (xs ys : List A) → find p xs ≡ none → find p (xs ++ ys) ≡ find p ys
find-append_none p [] ys h = refl
find-append_none p (x ∷ xs) ys h = elim (Bool-cases (p x)) [
  | inl t ↦ let gone : some x ≡ none = rw t at h in cc
  | inr n ↦ rw n (find-append_none p xs ys (rw n at h))
]

pub find-snoc_other {ℓ} :
    {A : Type ℓ} (p : A → Bool) (xs : List A) (y : A)
    → p y ≡ false
    → find p (xs ++ y ∷ []) ≡ find p xs
find-snoc_other p [] y n = rw n refl
find-snoc_other p (x ∷ xs) y n = elim (Bool-cases (p x)) [
  | inl t ↦ rw t refl
  | inr m ↦ rw m (find-snoc_other p xs y n)
]

-- A write by key, where the write keeps the key.
module _ {ℓ} {A : Type ℓ} (key : A → ℕ) (f : A → A) (keeps : (x : A) → key (f x) ≡ key x) where
  pub find-update_other :
      (id w : ℕ) (xs : List A)
      → w == id ≡ false
      → find (λ x. key x == id) (update_where (λ x. key x == w) f xs) ≡ find (λ x. key x == id) xs
  find-update_other id w [] far = refl
  find-update_other id w (x ∷ xs) far = elim (Bool-cases (key x == w)) [
    | inl own ↦
        let other : key x == id ≡ false = ground (arith, own, far) in
        rw (own, keeps x, other) (find-update_other id w xs far)
    | inr not_own ↦ elim (Bool-cases (key x == id)) [
      | inl sought ↦ rw (not_own, sought) refl
      | inr other ↦ rw (not_own, other) (find-update_other id w xs far)
    ]
  ]

  -- The row that the write finds is of another kind than the one sought, which therefore stays.
  pub find-update_kind :
      (kind : A → Bool) (id w : ℕ) (xs : List A) {a b : A}
      → find (λ x. key x == id) xs ≡ some a
      → kind a ≡ true
      → find (λ x. key x == w) xs ≡ some b
      → kind b ≡ false
      → find (λ x. key x == id) (update_where (λ x. key x == w) f xs) ≡ some a
  find-update_kind kind id w xs {a} {b} h t k n = elim (Bool-cases (w == id)) [
    | inr far ↦ find-update_other id w xs far ∙ h
    | inl own ↦
        let same : w ≡ id = (==_iff w id).0 own in
        let twice : some a ≡ some b = sym h ∙ (rw same at k) in
        let eq : a ≡ b = cc in absurd (false≢true (sym n ∙ ap kind (sym eq) ∙ t))
  ]
