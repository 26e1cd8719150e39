-- ===== src/Managers/AsSet.antt =====
-- services/space-manager.service.ts: the table is the set of pairs that were assigned and not removed.
use ufcim_backend_proto.Prelude.{
  ℕ, ◌≡◌, refl, sym, ◌∙◌, ap, subst, Bool, true, false, not, ◌&&◌, ◌||◌, some, List, [], ◌∷◌, ◌++◌,
  ◌==◌, arith, any, any-eq-false, find, select, is_some, All-map_pred, All-select, Pairs,
  Pairs-snoc, Bool-cases, Option-cases, inl, inr, if◌then◌else◌,
}
use ufcim_backend_proto.Errors.{is_ok, Result-cases}
use ufcim_backend_proto.Managers.{
  SpaceManager, ManagerDb, AssignManagerInput, manages, find_manager, admit_assign, insert_manager,
  new_manager, assign_manager, remove_manager, is_manager,
}
use ufcim_backend_proto.Managers.Deletion.{Differ, is_some-find, any-deleted, only, any-kept}

pub data Request : Type 0 where
  assigns : ℕ → ℕ → ℕ → AssignManagerInput → Request
  removes : ℕ → ℕ → ℕ → Request

-- The tables after a request, and whether it was granted.
abbrev pub serve : Request → ManagerDb → Bool × ManagerDb
serve (assigns now id actor input) db =
    let r = assign_manager now id actor input db in (is_ok r.0, r.1)
serve (removes actor space_id user_id) db =
    let r = remove_manager actor space_id user_id db in (is_ok r.0, r.1)

abbrev pub serve_all : List Request → ManagerDb → ManagerDb
serve_all [] db = db
serve_all (q ∷ qs) db = serve_all qs (serve q db).1

abbrev pub Members : Type 0
Members = ℕ → ℕ → Bool

abbrev pub same_pair : ℕ → ℕ → ℕ → ℕ → Bool
same_pair u s u' s' = s == s' && u == u'

-- What a granted request does to the set of pairs of a user and a space.
abbrev pub effect : Request → Members → Members
effect (assigns now id actor input) members u s =
    members u s || same_pair input.user_id input.space_id u s
effect (removes actor space_id user_id) members u s =
    members u s && not (same_pair user_id space_id u s)

abbrev pub effects : List Request → ManagerDb → Members → Members
effects [] db members = members
effects (q ∷ qs) db members =
    let r = serve q db in effects qs r.1 (if r.0 then effect q members else members)

-- Rows have distinct identifiers and distinct pairs.
abbrev pub IsKeyed : ManagerDb → Type 0
IsKeyed db = Pairs Differ db.space_managers

abbrev Holds : Members → ManagerDb → Type 0
Holds members db = (u s : ℕ) → any (manages u s) db.space_managers ≡ members u s

any-snoc {ℓ} :
    {A : Type ℓ} (p : A → Bool) (xs : List A) (y : A) → any p (xs ++ y ∷ []) ≡ (any p xs || p y)
any-snoc p [] y = ground arith
any-snoc p (x ∷ xs) y = elim (Bool-cases (p x)) [
  | inl t ↦ rw t refl
  | inr n ↦ rw n (any-snoc p xs y)
]

abbrev Served : Request → Members → Bool × ManagerDb → Type 0
Served q members (granted, db') =
    IsKeyed db' × Holds (if granted then effect q members else members) db'

differs :
    (x m : SpaceManager) → (x.id == m.id || manages m.user_id m.space_id x) ≡ false → Differ x m
differs x m h = (ground (arith, h), ground (arith, h))

assign-Served :
    (now id actor : ℕ) (input : AssignManagerInput) (members : Members) (db : ManagerDb)
    → IsKeyed db
    → Holds members db
    → Served (assigns now id actor input) members (serve (assigns now id actor input) db)
unfolding assign_manager insert_manager
assign-Served now id actor input members db k h = elim (Result-cases (admit_assign input db)) [
  | inr (e, bad) ↦ rw bad (k, h)
  | inl (admitted, good) ↦
      let m : SpaceManager = new_manager now id actor input in
      elim (Bool-cases
        (any (λ n. n.id == m.id || manages m.user_id m.space_id n) db.space_managers)) [
          | inl taken ↦ rw (good, taken) (k, h)
          | inr new ↦
              rw (good, new)
                (
                  Pairs-snoc Differ db.space_managers m k (
                      All-map_pred db.space_managers (λ x f. differs x m f)
                        (any-eq-false (λ n. n.id == m.id || manages m.user_id m.space_id n)
                          db.space_managers new)),
                  λ u s.
                      any-snoc (manages u s) db.space_managers m
                      ∙ ap (λ b. b || manages u s m) (h u s),
                )
        ]
]

Pairs-select :
    (p : SpaceManager → Bool) (xs : List SpaceManager)
    → Pairs Differ xs
    → Pairs Differ (select p xs)
Pairs-select p [] d = tt
Pairs-select p (x ∷ xs) (far, d) = elim (Bool-cases (p x)) [
  | inl t ↦ rw t (All-select (Differ x) p xs far, Pairs-select p xs d)
  | inr n ↦ rw n (Pairs-select p xs d)
]

found_pair :
    (u s : ℕ) (xs : List SpaceManager) {m : SpaceManager}
    → find (manages u s) xs ≡ some m
    → manages u s m ≡ true
found_pair u s [] h = cc
found_pair u s (x ∷ xs) {m} h = elim (Bool-cases (manages u s x)) [
  | inl hit ↦
      let same : some x ≡ some m = rw hit at h in
      let is_m : x ≡ m = cc in ap (manages u s) (sym is_m) ∙ hit
  | inr miss ↦ found_pair u s xs (rw miss at h)
]

-- Another pair is not the one of the row.
other_pair :
    (u s u' s' : ℕ) (m : SpaceManager)
    → manages u s m ≡ true
    → same_pair u s u' s' ≡ false
    → manages u' s' m ≡ false
other_pair u s u' s' m own far = ground (arith, own, far)

same_pair_iff : (u s u' s' : ℕ) → same_pair u s u' s' ≡ true → (u ≡ u') × (s ≡ s')
same_pair_iff u s u' s' h = (ground (arith, h), ground (arith, h))

and_false : (b : Bool) → false ≡ (b && false)
and_false b = ground arith

and_not-false : (b : Bool) → b ≡ (b && not false)
and_not-false b = ground arith

remove-Served :
    (actor space_id user_id : ℕ) (members : Members) (db : ManagerDb)
    → IsKeyed db
    → Holds members db
    → Served (removes actor space_id user_id) members (serve (removes actor space_id user_id) db)
unfolding remove_manager
remove-Served actor space_id user_id members db k h =
    elim (Option-cases (find_manager user_id space_id db)) [
      | inl absent ↦ rw absent (k, h)
      | inr (m, there) ↦ rw there (
        Pairs-select (λ n. not (n.id == m.id)) db.space_managers k,
        λ u s. elim (Bool-cases (same_pair user_id space_id u s)) [
          | inl own ↦
              let (is_user, is_space) = same_pair_iff user_id space_id u s own in
              let none_left : any (manages u s) (select (λ n. not (n.id == m.id)) db.space_managers)
                  ≡ false =
                subst
                  (λ (p : ℕ × ℕ).
                    any (manages p.0 p.1) (select (λ n. not (n.id == m.id)) db.space_managers)
                    ≡ false)
                  (λ i. (is_user i, is_space i))
                  (any-deleted user_id space_id db.space_managers k there) in
              rw own (none_left ∙ and_false (members u s))
          | inr far ↦ rw far (
              any-kept (manages u s) m.id db.space_managers (
                only user_id space_id (manages u s) db.space_managers k there (
                  other_pair user_id space_id u s m
                    (found_pair user_id space_id db.space_managers there) far))
              ∙ h u s
              ∙ and_not-false (members u s))
        ],
      )
    ]

serve-Served :
    (q : Request) (members : Members) (db : ManagerDb)
    → IsKeyed db
    → Holds members db
    → Served q members (serve q db)
serve-Served (assigns now id actor input) members db k h =
    assign-Served now id actor input members db k h
serve-Served (removes actor space_id user_id) members db k h =
    remove-Served actor space_id user_id members db k h

serve_all-Holds :
    (qs : List Request) (members : Members) (db : ManagerDb)
    → IsKeyed db
    → Holds members db
    → Holds (effects qs db members) (serve_all qs db)
serve_all-Holds [] members db k h = h
serve_all-Holds (q ∷ qs) members db k h =
    let r = serve q db in
    let (k', h') = serve-Served q members db k h in
    serve_all-Holds qs (if r.0 then effect q members else members) r.1 k' h'

-- From tables whose rows have distinct identifiers and distinct pairs of a space and a user, after any
-- sequence of assignments and removals `is_manager` answers as the set of pairs does: the set that
-- `is_manager` reads at the start, to which each granted assignment adds its pair and from which each
-- granted removal takes its pair; a refused request leaves it.
pub serve-refines :
    (qs : List Request) (db : ManagerDb) (u s : ℕ)
    → IsKeyed db
    → is_manager u s (serve_all qs db) ≡ effects qs db (λ u' s'. is_manager u' s' db) u s
unfolding is_manager
serve-refines qs db u s k =
    is_some-find (manages u s) (serve_all qs db).space_managers
    ∙ serve_all-Holds qs (λ u' s'. is_some (find_manager u' s' db)) db k
        (λ u' s'. sym (is_some-find (manages u' s') db.space_managers)) u s
