-- ===== src/Users/Paging.antt =====
-- services/user.service.ts `listForAdmin`: the pages cut the whole list.
use ufcim_backend_proto.Prelude.{
  ℕ, zero, suc, ◌+◌, ◌-◌, ◌*◌, ◌/◌, ◌%◌, ◌<◌, ◌≤◌, max, ◌≡◌, refl, sym, ◌∙◌, ap, Bool, List, [],
  ◌∷◌, ◌++◌, length, arith,
}
use native.Mathlib.Omega.{div_any}
use native.Mathlib.Nat.{mod-lt, mul-le-mul_right}
use ufcim_backend_proto.Users.{
  take, drop, Member, Engine, all_for_admin, page_count, list_for_admin,
}

module _ {ℓ} {A : Type ℓ} where
  take-none : (n : ℕ) → take {A = A} n [] ≡ []
  take-none zero = refl
  take-none (suc n) = refl

  take-next : (n m : ℕ) (xs : List A) → take n xs ++ take m (drop n xs) ≡ take (n + m) xs
  take-next zero m xs = ap (λ k. take k xs) (omega arith)
  take-next (suc n) zero [] = sym (take-none (suc n + 0))
  take-next (suc n) (suc m) [] = sym (take-none (suc n + suc m))
  take-next (suc n) m (x ∷ xs) =
      let split : suc n + m ≡ suc (n + m) = omega arith in
      ap (λ ys. x ∷ ys) (take-next n m xs) ∙ ap (λ k. take k (x ∷ xs)) (sym split)

  take-all : (n : ℕ) (xs : List A) → length xs ≤ n → take n xs ≡ xs
  take-all zero [] h = refl
  take-all zero (x ∷ xs) h = absurd (omega (arith, h))
  take-all (suc n) [] h = refl
  take-all (suc n) (x ∷ xs) h = ap (λ ys. x ∷ ys) (take-all n xs (omega (arith, h)))

  length-take : (n : ℕ) (xs : List A) → length (take n xs) ≤ n
  length-take zero xs = omega arith
  length-take (suc n) [] = omega arith
  length-take (suc n) (x ∷ xs) = let h = length-take n xs in omega (arith, h)

page_count-le : (total limit : ℕ) → 1 ≤ limit → total ≤ page_count total limit * limit
page_count-le total limit h =
    let q : ℕ = (total + (limit - 1)) / limit in
    let whole : limit * q + (total + (limit - 1)) % limit ≡ total + (limit - 1) =
      div_any (total + (limit - 1)) limit in
    let rest : (total + (limit - 1)) % limit < limit = mod-lt (total + (limit - 1)) h in
    let enough : q * limit ≤ max 1 q * limit = mul-le-mul_right limit (omega arith) in
    omega (arith, whole, rest, enough, h)

module _ (e : Engine) (include_deleted : Bool) (users : List Member) (limit : ℕ) where
  -- The rows of the pages 1 to `count`, one after another.
  abbrev pub pages : ℕ → List Member
  pages zero = []
  pages (suc count) =
      pages count ++ (list_for_admin e (suc count) limit include_deleted users).data_rows

  pages-take :
      (count : ℕ) → pages count ≡ take (count * limit) (all_for_admin e include_deleted users)
  unfolding list_for_admin
  pages-take zero = ap (λ k. take k (all_for_admin e include_deleted users)) {x = 0} (omega arith)
  pages-take (suc count) =
      let all : List Member = all_for_admin e include_deleted users in
      let more : suc count * limit ≡ count * limit + limit = omega arith in
      ap (λ (ys : List Member). ys ++ take limit (drop (count * limit) all)) (pages-take count)
      ∙ take-next (count * limit) limit all
      ∙ ap (λ k. take k all) (sym more)

  length-page :
      (page : ℕ) → length (list_for_admin e page limit include_deleted users).data_rows ≤ limit
  unfolding list_for_admin
  length-page zero = omega arith
  length-page (suc before) =
      length-take limit (drop (before * limit) (all_for_admin e include_deleted users))

  -- For a limit of at least 1, no page of `listForAdmin` has more rows than the limit, and its pages 1
  -- to `totalPages`, one after another, are the whole list of the query.
  pub list_for_admin-pages :
      (page : ℕ)
      → 1 ≤ limit
      → (length (list_for_admin e page limit include_deleted users).data_rows ≤ limit)
        × (pages (list_for_admin e page limit include_deleted users).total_pages
            ≡ all_for_admin e include_deleted users)
  unfolding list_for_admin
  list_for_admin-pages page h =
      let all : List Member = all_for_admin e include_deleted users in
      (
        length-page page,
        pages-take (page_count (length all) limit)
            ∙ take-all (page_count (length all) limit * limit) all
                (page_count-le (length all) limit h),
      )
