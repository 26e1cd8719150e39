-- ===== src/Equipment/Merging.antt =====
-- services/equipment-report.service.ts `mergeOpenStatus`: the map of open tickets does not depend on
-- the order of the rows.
use ufcim_backend_proto.Prelude.{
  ℕ, ◌≡◌, refl, ◌∙◌, ap, Bool, true, false, not, ◌&&◌, ◌||◌, Option, none, some, List, [], ◌∷◌,
  arith, ◌==◌, ==_iff, ==_comm, ==_refl, any, any-select, select, is_some, holds_id, if◌then◌else◌,
  Bool-cases, Option-cases, inl, inr,
}
use ufcim_backend_proto.Equipment.{
  ReportStatus, pending, acknowledged, resolved, dismissed, is_open_status, MaintenanceCategory,
  category_code, Report,
}
use ufcim_backend_proto.Equipment.OpenStatus.{
  lookup, has, put, merge_open_status, merge_rows, number_code, among_ids,
  get_open_status_by_equipment_ids, is_room_ticket, get_open_room_status_by_category,
}

abbrev pub is_acknowledged : ReportStatus → Bool
is_acknowledged acknowledged = true
is_acknowledged _ = false

-- `acknowledged` if a row is, else `pending` if a row is open, else nothing.
abbrev pub verdict : Bool → Bool → Option ReportStatus
verdict ack opened = if ack then some acknowledged else if opened then some pending else none

-- What a map holds under a key is such a verdict.
abbrev held_ack : Option ReportStatus → Bool
held_ack none = false
held_ack (some s) = is_acknowledged s

abbrev IsVerdict : Option ReportStatus → Type 0
IsVerdict o = o ≡ verdict (held_ack o) (is_some o)

verdict-IsVerdict : (a b : Bool) → IsVerdict (verdict a b)
verdict-IsVerdict true b = refl
verdict-IsVerdict false true = refl
verdict-IsVerdict false false = refl

-- The rest of the rows joins what one row gave.
verdict-join :
    (x y a b : Bool)
    → verdict (x || held_ack (verdict a b)) (y || is_some (verdict a b)) ≡ verdict (a || x) (b || y)
verdict-join x y true b = ground arith
verdict-join x y false true = ground arith
verdict-join x y false false = ground arith

verdict_regroup :
    (s h x t o y : Bool)
    → verdict ((s || h) || x) ((t || o) || y) ≡ verdict (s || x || h) (t || y || o)
verdict_regroup true h x t o y = refl
verdict_regroup false true x t o y = ground arith
verdict_regroup false false x t o y = ground arith

module _ {K : Type 0} (code : K → ℕ) where
  lookup-put :
      (m : List (K × ReportStatus)) (key k : K) (s : ReportStatus)
      → lookup code (put code key s m) k ≡ (if code key == code k then some s else lookup code m k)
  lookup-put [] key k s = refl
  lookup-put ((j, w) ∷ m) key k s = ground (arith, lookup-put m key k s)

  abbrev pub matches_key : Option K → K → Bool
  matches_key none k = false
  matches_key (some j) k = code j == code k

  lookup_same :
      (m : List (K × ReportStatus)) (j k : K) → code j ≡ code k → lookup code m j ≡ lookup code m k
  lookup_same [] j k e = refl
  lookup_same ((i, w) ∷ m) j k e = rw (e, lookup_same m j k e)

  lookup-put_same :
      (m : List (K × ReportStatus)) (j k : K) (s : ReportStatus)
      → code j ≡ code k
      → lookup code (put code j s m) k ≡ some s
  lookup-put_same m j k s e = lookup-put m j k s ∙ ground arith

  merge-other :
      (m : List (K × ReportStatus)) (j k : K) (s : ReportStatus)
      → (code j == code k) ≡ false
      → lookup code (merge_open_status code m j s) k ≡ lookup code m k
  unfolding merge_open_status
  merge-other m j k acknowledged e = lookup-put m j k acknowledged ∙ rw e refl
  merge-other m j k pending e = elim (Bool-cases (has code m j)) [
    | inl held ↦ rw held refl
    | inr new ↦ rw new (lookup-put m j k pending ∙ rw e refl)
  ]
  merge-other m j k resolved e = refl
  merge-other m j k dismissed e = refl

  merge-same :
      (m : List (K × ReportStatus)) (j k : K) (s : ReportStatus)
      → code j ≡ code k
      → IsVerdict (lookup code m k)
      → lookup code (merge_open_status code m j s) k
        ≡ verdict
            (is_acknowledged s || held_ack (lookup code m k))
            (is_open_status s || is_some (lookup code m k))
  unfolding merge_open_status
  merge-same m j k acknowledged e h = lookup-put_same m j k acknowledged e
  merge-same m j k pending e h = elim (Option-cases (lookup code m k)) [
    | inl free ↦ rw (lookup_same m j k e, free) (lookup-put_same m j k pending e)
    | inr (s, held) ↦
        let full : is_some (lookup code m k) ≡ true = rw held refl in
        rw (lookup_same m j k e, full) (rw full at h)
  ]
  merge-same m j k resolved e h = h
  merge-same m j k dismissed e h = h

  module _ (key_of : Report → Option K) (k : K) where
    abbrev ack_in : List Report → Bool
    ack_in = any (λ r. matches_key (key_of r) k && is_acknowledged r.status)

    abbrev open_in : List Report → Bool
    open_in = any (λ r. matches_key (key_of r) k && is_open_status r.status)

    lookup-merge_rows :
        (rows : List Report) (m : List (K × ReportStatus))
        → IsVerdict (lookup code m k)
        → lookup code (merge_rows code key_of rows m) k
          ≡ verdict
              (ack_in rows || held_ack (lookup code m k))
              (open_in rows || is_some (lookup code m k))
    unfolding merge_rows
    lookup-merge_rows [] m h = h
    lookup-merge_rows (r ∷ rs) m h = elim (Option-cases (key_of r)) [
      | inl none_there ↦ rw none_there (lookup-merge_rows rs m h)
      | inr (j, keyed) ↦ elim (Bool-cases (code j == code k)) [
        | inr other ↦
            let same = merge-other m j k r.status other in
            rw (keyed, other)
              (lookup-merge_rows rs (merge_open_status code m j r.status) (rw same h)
                ∙ rw same refl)
        | inl own ↦
            let now = merge-same m j k r.status ((==_iff (code j) (code k)).0 own) h in
            rw (keyed, own)
              (lookup-merge_rows rs (merge_open_status code m j r.status) (
                  rw now (
                    verdict-IsVerdict (is_acknowledged r.status || held_ack (lookup code m k))
                      (is_open_status r.status || is_some (lookup code m k))))
                ∙ rw now (
                    verdict-join (ack_in rs) (open_in rs)
                      (is_acknowledged r.status || held_ack (lookup code m k))
                      (is_open_status r.status || is_some (lookup code m k))
                    ∙ verdict_regroup (is_acknowledged r.status) (held_ack (lookup code m k))
                        (ack_in rs) (is_open_status r.status) (is_some (lookup code m k))
                        (open_in rs)))
      ]
    ]

any-ext {ℓ} :
    {A : Type ℓ} (p q : A → Bool) (xs : List A) → ((x : A) → p x ≡ q x) → any p xs ≡ any q xs
any-ext p q [] h = refl
any-ext p q (x ∷ xs) h = rw (h x, any-ext p q xs h)

abbrev pub is_ticket_of : ℕ → Report → Bool
is_ticket_of id r = holds_id r.equipment_id id

abbrev IsOpenTest : (ReportStatus → Bool) → Type 0
IsOpenTest t = (s : ReportStatus) → (is_open_status s && t s) ≡ t s

is_acknowledged-IsOpenTest : IsOpenTest is_acknowledged
is_acknowledged-IsOpenTest pending = refl
is_acknowledged-IsOpenTest acknowledged = refl
is_acknowledged-IsOpenTest resolved = refl
is_acknowledged-IsOpenTest dismissed = refl

is_open_status-IsOpenTest : IsOpenTest is_open_status
is_open_status-IsOpenTest pending = refl
is_open_status-IsOpenTest acknowledged = refl
is_open_status-IsOpenTest resolved = refl
is_open_status-IsOpenTest dismissed = refl

-- The rows of the query that concern `id`, when `id` is asked for.
asked :
    (ids : List ℕ) (id : ℕ)
    → any (λ j. j == id) ids ≡ true
    → (o : Option ℕ) → (among_ids ids o && matches_key number_code o id) ≡ holds_id o id
asked ids id h none = ground arith
asked ids id h (some j) = elim (Bool-cases (j == id)) [
  | inr other ↦ rw other (ground arith)
  | inl own ↦
      let same : j ≡ id = (==_iff j id).0 own in
      rw (same, any-ext (λ i. id == i) (λ i. i == id) ids (==_comm id), h) (ground arith)
]

verdict_ext : {a b c d : Bool} → a ≡ c → b ≡ d → verdict (a || false) (b || false) ≡ verdict c d
verdict_ext {a} {b} {c} {d} e f = rw (e, f) (ground arith)

swap_and : (a b c d : Bool) → ((a && b) && (c && d)) ≡ ((a && c) && (b && d))
swap_and a b c d = ground arith

module _ (ids : List ℕ) (id : ℕ) (h : any (λ j. j == id) ids ≡ true) where
  -- Among the rows of the query, a test of the status finds what it finds among all rows.
  any-asked :
      (t : ReportStatus → Bool) (reports : List Report)
      → IsOpenTest t
      → any
          (λ r. matches_key number_code r.equipment_id id && t r.status)
          (select (λ r. among_ids ids r.equipment_id && is_open_status r.status) reports)
        ≡ any (λ r. is_ticket_of id r && t r.status) reports
  any-asked t reports opens =
      any-select (λ r. matches_key number_code r.equipment_id id && t r.status)
        (λ r. among_ids ids r.equipment_id && is_open_status r.status) reports
      ∙ any-ext
          (λ r.
            (among_ids ids r.equipment_id && is_open_status r.status)
            && (matches_key number_code r.equipment_id id && t r.status))
          (λ r. is_ticket_of id r && t r.status) reports
          (λ r.
            let own = asked ids id h r.equipment_id in
            let opened = opens r.status in
            swap_and (among_ids ids r.equipment_id) (is_open_status r.status)
              (matches_key number_code r.equipment_id id) (t r.status)
            ∙ rw (own, opened) refl)

-- The map of open tickets gives, for each equipment that is asked for, "acknowledged" when one of its
-- tickets is acknowledged, "pending" when it has an open ticket and none is acknowledged, and no
-- entry when it has no open ticket: in whatever order the rows come.
pub lookup-get_open_status :
    (ids : List ℕ) (reports : List Report) (id : ℕ)
    → any (λ j. j == id) ids ≡ true
    → lookup number_code (get_open_status_by_equipment_ids ids reports) id
      ≡ verdict
          (any (λ r. is_ticket_of id r && is_acknowledged r.status) reports)
          (any (λ r. is_ticket_of id r && is_open_status r.status) reports)
unfolding get_open_status_by_equipment_ids
lookup-get_open_status ids reports id h =
    lookup-merge_rows number_code (λ r. r.equipment_id) id
      (select (λ r. among_ids ids r.equipment_id && is_open_status r.status) reports) [] refl
    ∙ verdict_ext (any-asked ids id h is_acknowledged reports is_acknowledged-IsOpenTest)
        (any-asked ids id h is_open_status reports is_open_status-IsOpenTest)

is_some-verdict : (a b : Bool) → (a ≡ true → b ≡ true) → is_some (verdict a b) ≡ b
is_some-verdict true b h = rw (h refl) refl
is_some-verdict false true h = refl
is_some-verdict false false h = refl

any_mono {ℓ} :
    {A : Type ℓ} (p q : A → Bool) (xs : List A)
    → ((x : A) → p x ≡ true → q x ≡ true)
    → any p xs ≡ true
    → any q xs ≡ true
any_mono p q [] h e = cc
any_mono p q (x ∷ xs) h e = elim (Bool-cases (p x)) [
  | inl t ↦ rw (h x t) refl
  | inr n ↦ ground (arith, any_mono p q xs h (rw n at e))
]

ack_opens :
    (b : Bool) (s : ReportStatus) → (b && is_acknowledged s) ≡ true → (b && is_open_status s) ≡ true
ack_opens b pending h = ground arith
ack_opens b acknowledged h = h
ack_opens b resolved h = ground arith
ack_opens b dismissed h = ground arith

-- The guard of a new ticket on an equipment: it has an open one.
pub has-get_open_status :
    (reports : List Report) (id : ℕ)
    → has number_code (get_open_status_by_equipment_ids (id ∷ []) reports) id
      ≡ any (λ r. is_ticket_of id r && is_open_status r.status) reports
has-get_open_status reports id =
    ap (λ (o : Option ReportStatus). is_some o)
      (lookup-get_open_status (id ∷ []) reports id (rw (==_refl id) refl))
    ∙ is_some-verdict (any (λ r. is_ticket_of id r && is_acknowledged r.status) reports)
        (any (λ r. is_ticket_of id r && is_open_status r.status) reports)
        (any_mono (λ r. is_ticket_of id r && is_acknowledged r.status)
          (λ r. is_ticket_of id r && is_open_status r.status) reports
          (λ r. ack_opens (is_ticket_of id r) r.status))

abbrev pub is_ticket_in : ℕ → MaintenanceCategory → Report → Bool
is_ticket_in space_id c r = is_room_ticket space_id r && matches_key category_code r.category c

drop_open : (a b o m : Bool) → ((a && (b && o)) && (m && o)) ≡ ((a && (b && o)) && m)
drop_open a b o m = ground arith

-- The guard of a new ticket on a room.
pub has-get_open_room_status :
    (space_id : ℕ) (reports : List Report) (c : MaintenanceCategory)
    → has category_code (get_open_room_status_by_category space_id reports) c
      ≡ any (is_ticket_in space_id c) reports
unfolding get_open_room_status_by_category
has-get_open_room_status space_id reports c =
    ap (λ (o : Option ReportStatus). is_some o)
      (lookup-merge_rows category_code (λ r. r.category) c
          (select (is_room_ticket space_id) reports) [] refl
        ∙ verdict_ext refl refl)
    ∙ is_some-verdict
        (any (λ r. matches_key category_code r.category c && is_acknowledged r.status)
          (select (is_room_ticket space_id) reports))
        (any (λ r. matches_key category_code r.category c && is_open_status r.status)
          (select (is_room_ticket space_id) reports))
        (any_mono (λ r. matches_key category_code r.category c && is_acknowledged r.status)
          (λ r. matches_key category_code r.category c && is_open_status r.status)
          (select (is_room_ticket space_id) reports)
          (λ r. ack_opens (matches_key category_code r.category c) r.status))
    ∙ any-select (λ r. matches_key category_code r.category c && is_open_status r.status)
        (is_room_ticket space_id) reports
    ∙ any-ext
        (λ r.
          is_room_ticket space_id r
          && (matches_key category_code r.category c && is_open_status r.status))
        (is_ticket_in space_id c) reports
        (λ r.
          drop_open (r.space_id == space_id) (not (is_some r.equipment_id))
            (is_open_status r.status) (matches_key category_code r.category c))
