-- ===== src/Equipment/Replay.antt =====
-- services/equipment.service.ts, services/equipment-report.service.ts: what the history rows of an
-- equipment say of its status.
use ufcim_backend_proto.Prelude.{
  ℕ, ◌≡◌, refl, sym, ◌∙◌, ap, Bool, true, false, Option, none, some, List, [], ◌∷◌, ◌++◌, arith,
  ◌==◌, ==_iff, find-update_other, subst, ==_refl, ==_comm, any, All, All-map_pred, All-snoc, find,
  Pairs, Pairs-update_where, written, if◌then◌else◌, Bool-cases, inl, inr,
}
use ufcim_backend_proto.Equipment.{
  EquipmentStatus, working, broken, under_repair, replacement_scheduled, status_code, same_status,
  Equipment, HistoryRow, EquipmentDb,
}
use ufcim_backend_proto.Equipment.Items.{rewrite}

-- The status after the rows about one equipment, if each starts from the status that the one before
-- it left.
unfoldable pub replay : ℕ → EquipmentStatus → List HistoryRow → Option EquipmentStatus
replay id s [] = some s
replay id s (h ∷ hs) =
    if h.equipment_id == id
    then (if same_status h.from_status s then replay id h.to_status hs else none)
    else replay id s hs

-- The history of an equipment leads to its status.
abbrev pub Explains : List HistoryRow → Equipment → Type 0
Explains history e = (s : EquipmentStatus) × (replay e.id s history ≡ some e.status)

abbrev pub refers : List Equipment → HistoryRow → Bool
refers items h = any (λ e. e.id == h.equipment_id) items

abbrev pub Distinct : Equipment → Equipment → Type 0
Distinct x y = x.id == y.id ≡ false

-- One equipment, from a fixed first status: its history leads from there to its status.
abbrev pub IsTrackedFrom : ℕ → EquipmentStatus → EquipmentDb → Type 0
IsTrackedFrom mine first db =
    (e : Equipment) × (find (λ x. x.id == mine) db.equipment ≡ some e)
    × (replay mine first db.history ≡ some e.status)

-- Equipment keeps distinct identifiers, history rows are about equipment there is (the foreign key),
-- the history of each equipment leads from some status to its status, and that of `mine` from
-- `first`.
abbrev pub IsTracked : ℕ → EquipmentStatus → EquipmentDb → Type 0
IsTracked mine first db =
    Pairs Distinct db.equipment
    × All (λ h. refers db.equipment h ≡ true) db.history
    × All (Explains db.history) db.equipment
    × IsTrackedFrom mine first db

pub same_status_eq : (a b : EquipmentStatus) → same_status a b ≡ true → a ≡ b
same_status_eq working working h = refl
same_status_eq broken broken h = refl
same_status_eq under_repair under_repair h = refl
same_status_eq replacement_scheduled replacement_scheduled h = refl
same_status_eq working broken h = cc
same_status_eq working under_repair h = cc
same_status_eq working replacement_scheduled h = cc
same_status_eq broken working h = cc
same_status_eq broken under_repair h = cc
same_status_eq broken replacement_scheduled h = cc
same_status_eq under_repair working h = cc
same_status_eq under_repair broken h = cc
same_status_eq under_repair replacement_scheduled h = cc
same_status_eq replacement_scheduled working h = cc
same_status_eq replacement_scheduled broken h = cc
same_status_eq replacement_scheduled under_repair h = cc

pub same_status_refl : (a : EquipmentStatus) → same_status a a ≡ true
same_status_refl a = ==_refl (status_code a)

-- One more row: about another equipment, or from the status that was reached.
replay-other :
    (id : ℕ) (s : EquipmentStatus) (hs : List HistoryRow) (h : HistoryRow)
    → h.equipment_id == id ≡ false
    → replay id s (hs ++ h ∷ []) ≡ replay id s hs
unfolding replay
replay-other id s [] h far = rw far refl
replay-other id s (g ∷ hs) h far = elim (Bool-cases (g.equipment_id == id)) [
  | inr other ↦ rw other (replay-other id s hs h far)
  | inl own ↦ elim (Bool-cases (same_status g.from_status s)) [
    | inr broken_off ↦ rw (own, broken_off) refl
    | inl on ↦ rw (own, on) (replay-other id g.to_status hs h far)
  ]
]

replay-own :
    (id : ℕ) (s : EquipmentStatus) (hs : List HistoryRow) (h : HistoryRow)
    → h.equipment_id == id ≡ true
    → replay id s hs ≡ some h.from_status
    → replay id s (hs ++ h ∷ []) ≡ some h.to_status
unfolding replay
replay-own id s [] h own e =
    let same : s ≡ h.from_status = cc in rw (own, same, same_status_refl h.from_status) refl
replay-own id s (g ∷ hs) h own e = elim (Bool-cases (g.equipment_id == id)) [
  | inr other ↦ rw other (replay-own id s hs h own (rw other at e))
  | inl about ↦ elim (Bool-cases (same_status g.from_status s)) [
    | inr broken_off ↦ let gone : none ≡ some h.from_status = rw (about, broken_off) at e in cc
    | inl on ↦ rw (about, on) (replay-own id g.to_status hs h own (rw (about, on) at e))
  ]
]

-- Equipment without rows: any status is the first.
pub replay-unseen :
    (id : ℕ) (s : EquipmentStatus) (hs : List HistoryRow)
    → All (λ h. h.equipment_id == id ≡ false) hs
    → replay id s hs ≡ some s
unfolding replay
replay-unseen id s [] u = refl
replay-unseen id s (h ∷ hs) (far, u) = rw far (replay-unseen id s hs u)

-- The one row that a search by identifier finds.
find_unique :
    (id : ℕ) (xs : List Equipment) {a : Equipment}
    → Pairs Distinct xs
    → find (λ e. e.id == id) xs ≡ some a
    → All (λ e. e.id == id ≡ true → e.status ≡ a.status) xs
find_unique id [] d h = tt
find_unique id (x ∷ xs) {a} (far, d) h = elim (Bool-cases (x.id == id)) [
  | inr other ↦ (λ own. cc, find_unique id xs d (rw other at h))
  | inl own ↦
      let same : some x ≡ some a = rw own at h in
      let is_a : x ≡ a = cc in
      (
        λ t. ap (λ (e : Equipment). e.status) is_a,
        All-map_pred xs (λ y n t. absurd (ground arith)) far,
      )
]

find-any :
    (id : ℕ) (xs : List Equipment) {a : Equipment}
    → find (λ e. e.id == id) xs ≡ some a
    → any (λ e. e.id == id) xs ≡ true
find-any id [] h = cc
find-any id (x ∷ xs) h = elim (Bool-cases (x.id == id)) [
  | inl own ↦ rw own refl
  | inr other ↦ rw other (find-any id xs (rw other at h))
]

module _ {P Q S : Equipment → Type 0} (id : ℕ) (f : Equipment → Equipment)
    (hit : (e : Equipment) → e.id == id ≡ true → P e → Q e → S (f e))
    (miss : (e : Equipment) → e.id == id ≡ false → P e → S e) where
  All-rewrite : (xs : List Equipment) → All P xs → All Q xs → All S (rewrite id f xs)
  All-rewrite [] p q = tt
  All-rewrite (x ∷ xs) (p, ps) (q, qs) = elim (Bool-cases (x.id == id)) [
    | inl own ↦ rw own (hit x own p q, All-rewrite xs ps qs)
    | inr other ↦ rw other (miss x other p, All-rewrite xs ps qs)
  ]

-- What a write to one equipment and a row about it, or none, leave.
module _ (id : ℕ) (f : Equipment → Equipment) (keeps_id : (e : Equipment) → (f e).id ≡ e.id) where
  written-id : (e : Equipment) → (written (λ e. e.id == id) f e).id ≡ e.id
  written-id e = elim (Bool-cases (e.id == id)) [
    | inl own ↦ rw own (keeps_id e)
    | inr other ↦ rw other refl
  ]

  rewrite-Distinct : (xs : List Equipment) → Pairs Distinct xs → Pairs Distinct (rewrite id f xs)
  rewrite-Distinct =
      Pairs-update_where Distinct (λ e. e.id == id) f (λ x y d. rw (written-id x, written-id y) d)

  refers-rewrite : (h : HistoryRow) (xs : List Equipment) → refers (rewrite id f xs) h ≡ refers xs h
  refers-rewrite h [] = refl
  refers-rewrite h (x ∷ xs) = elim (Bool-cases (x.id == id)) [
    | inl own ↦ rw (own, keeps_id x, refers-rewrite h xs) refl
    | inr other ↦ rw (other, refers-rewrite h xs) refl
  ]

  find-rewrite_own :
      (xs : List Equipment) {a : Equipment}
      → find (λ x. x.id == id) xs ≡ some a
      → find (λ x. x.id == id) (rewrite id f xs) ≡ some (f a)
  find-rewrite_own [] h = cc
  find-rewrite_own (x ∷ xs) {a} h = elim (Bool-cases (x.id == id)) [
    | inl hit ↦
        let same : some x ≡ some a = rw hit at h in
        let is_a : x ≡ a = cc in
        let kept : (f x).id == id ≡ true = ap (λ k. k == id) (keeps_id x) ∙ hit in
        rw (hit, kept) (ap (λ y. some (f y)) is_a)
    | inr miss ↦ rw (miss, miss) (find-rewrite_own xs (rw miss at h))
  ]

  module _ (mine : ℕ) (first : EquipmentStatus) (db : EquipmentDb) (item : Equipment)
      (there : find (λ e. e.id == id) db.equipment ≡ some item) where
    -- Whether the write is to `mine` or to another.
    From-rewrite :
        (history : List HistoryRow)
        → ((e : Equipment)
            → id == mine ≡ true
            → e.status ≡ item.status
            → replay mine first db.history ≡ some e.status
            → replay mine first history ≡ some (f item).status)
        → (id == mine ≡ false → replay mine first history ≡ replay mine first db.history)
        → IsTrackedFrom mine first db
        → IsTrackedFrom mine first
            (record db { equipment = rewrite id f db.equipment; history = history })
    From-rewrite history own far (e, found, led) = elim (Bool-cases (id == mine)) [
      | inr other ↦ (
        e,
        find-update_other (λ x. x.id) f keeps_id mine id db.equipment other ∙ found,
        far other ∙ led,
      )
      | inl hit ↦
          let same : id ≡ mine = (==_iff id mine).0 hit in
          let found_id : find (λ x. x.id == id) db.equipment ≡ some e =
            subst (λ k. find (λ (x : Equipment). x.id == k) db.equipment ≡ some e) (sym same)
              found in
          let again : some item ≡ some e = sym there ∙ found_id in
          let is_e : item ≡ e = cc in
          (
            f item,
            subst
                (λ k.
                  find (λ (x : Equipment). x.id == k) (rewrite id f db.equipment) ≡ some (f item))
                same (find-rewrite_own db.equipment there),
            own e hit (ap (λ (x : Equipment). x.status) (sym is_e)) led,
          )
    ]

    -- Nothing about the status.
    pub same-IsTracked :
        ((e : Equipment) → (f e).status ≡ item.status)
        → IsTracked mine first db
        → IsTracked mine first (record db { equipment = rewrite id f db.equipment })
    same-IsTracked keeps (d, r, x, from) = (
      rewrite-Distinct db.equipment d,
      All-map_pred db.history (λ h k. refers-rewrite h db.equipment ∙ k) r,
      All-rewrite {P = Explains db.history} {Q = λ e. e.id == id ≡ true → e.status ≡ item.status}
          {S = Explains db.history} id f
          (λ e own (s, done) agrees.
            (s, rw (keeps_id e) (done ∙ ap (λ t. some t) (agrees own ∙ sym (keeps e)))))
          (λ e other p. p) db.equipment x (find_unique id db.equipment d there),
      From-rewrite db.history (λ e hit same led. led ∙ ap (λ t. some t) (same ∙ sym (keeps item)))
          (λ other. refl) from,
    )

    -- A change of status with its row.
    pub change-IsTracked :
        (h : HistoryRow)
        → h.equipment_id ≡ id
        → h.from_status ≡ item.status
        → ((e : Equipment) → (f e).status ≡ h.to_status)
        → IsTracked mine first db
        → IsTracked mine first
            (record db { equipment = rewrite id f db.equipment; history = db.history ++ h ∷ [] })
    change-IsTracked h about from to (d, r, x, tracked) = (
      rewrite-Distinct db.equipment d,
      All-map_pred (db.history ++ h ∷ []) (λ g k. refers-rewrite g db.equipment ∙ k)
          (All-snoc (λ g. refers db.equipment g ≡ true) db.history r
            (rw about (find-any id db.equipment there))),
      All-rewrite {P = Explains db.history} {Q = λ e. e.id == id ≡ true → e.status ≡ item.status}
          {S = Explains (db.history ++ h ∷ [])} id f
          (λ e own (s, done) agrees. (
            s,
            rw (keeps_id e, to e)
                (replay-own e.id s db.history h (rw about (==_comm id e.id ∙ own))
                  (done ∙ ap (λ t. some t) (agrees own ∙ sym from))),
          ))
          (λ e other (s, done).
            (s, replay-other e.id s db.history h (rw about (==_comm id e.id ∙ other)) ∙ done))
          db.equipment x (find_unique id db.equipment d there),
      From-rewrite (db.history ++ h ∷ [])
          (λ e hit same led.
            replay-own mine first db.history h (rw about hit)
              (led ∙ ap (λ t. some t) (same ∙ sym from))
            ∙ ap (λ t. some t) (sym (to item)))
          (λ other. replay-other mine first db.history h (rw about other)) tracked,
    )
