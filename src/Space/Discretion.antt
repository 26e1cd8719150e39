-- ===== src/Space/Discretion.antt =====
-- services/space.service.ts `enrichSlots`: what a student learns of other people.
use ufcim_backend_proto.Prelude.{
  ℕ, ◌≡◌, refl, ◌⊎◌, inl, inr, Bool, true, false, Option, none, some, List, [], ◌∷◌, any, ap, ◌∙◌,
  find, ◌&&◌, ◌||◌, ==_refl, arith, find-All, All, Bool-cases, Option-cases, holds_id, ◌==◌,
}
use ufcim_backend_proto.Schedule.Times.{intervals_overlap}
use ufcim_backend_proto.Schedule.Availability.{closed, blocked, reserved, available}
use ufcim_backend_proto.Schema.{student}
use ufcim_backend_proto.Space.{ViewStatus, of_status, not_reservable, ViewSlot}
use ufcim_backend_proto.Privacy.{
  AuthorInput, PersonRef, Viewer, reservation_author_input, role_label, format_reservation_author,
}
use ufcim_backend_proto.Space.Details.{
  LoadedReservation, LoadedBlocking, Detail, plain, of_reservation, of_blocking, author_input,
  describe_reservation, describe_blocking, describe, reservation_of, blocking_of, enrich_slots,
}

-- A reservation that the viewer made, or that was made for the viewer.
abbrev pub is_own : Viewer → LoadedReservation → Bool
is_own viewer r =
    r.row.user_id == viewer.user_id || holds_id r.row.requester.requester_user_id viewer.user_id

-- No contact, and no name but that of the viewer's own reservation, among those of the day.
abbrev pub IsDiscreet : Viewer → List LoadedReservation → Detail → Type 0
IsDiscreet viewer rs plain = Unit {0}
IsDiscreet viewer rs (of_reservation d) =
    (d.requester_contact ≡ none)
    × ((any (λ r. r.row.id == d.id && is_own viewer r) rs ≡ true)
        ⊎ (d.display_name ≡ role_label d.role))
IsDiscreet viewer rs (of_blocking d) = d.display_name ≡ role_label d.role

abbrev is_owner : ℕ → Option AuthorInput → Bool
is_owner id none = false
is_owner id (some a) = holds_id a.owner_id id

owner-own :
    (id user_id : ℕ) (user : Option PersonRef) (requester_id : Option ℕ)
    (requester : Option PersonRef) (name : Option ℕ)
    → is_owner id (
        reservation_author_input (record {
          user_id = user_id;
          user = user;
          requester_user_id = requester_id;
          requester = requester;
          requester_name = name;
        }))
      ≡ true
    → (user_id == id || holds_id requester_id id) ≡ true
unfolding reservation_author_input
owner-own id user_id user (some r) (some p) name h = ground (arith, h)
owner-own id user_id (some u) (some r) none (some n) h = cc
owner-own id user_id (some u) (some r) none none h = ground (arith, h)
owner-own id user_id none (some r) none (some n) h = cc
owner-own id user_id none (some r) none none h = cc
owner-own id user_id (some u) none requester (some n) h = cc
owner-own id user_id (some u) none requester none h = ground (arith, h)
owner-own id user_id none none requester (some n) h = cc
owner-own id user_id none none requester none h = cc

found-any {ℓ} :
    {A : Type ℓ} (p q : A → Bool) (xs : List A) {x : A}
    → find p xs ≡ some x
    → q x ≡ true
    → any q xs ≡ true
found-any p q [] h t = cc
found-any p q (y ∷ ys) {x} h t = elim (Bool-cases (p y)) [
  | inl hit ↦
      let same : some y ≡ some x = rw hit at h in let is_x : y ≡ x = cc in rw (ap q is_x ∙ t) refl
  | inr miss ↦
      let rest = found-any p q ys (rw miss at h) t in
      elim (Bool-cases (q y)) [ inl held ↦ rw held refl | inr other ↦ rw other rest ]
]

abbrev is_creator : ℕ → Option PersonRef → Bool
is_creator id none = false
is_creator id (some p) = p.id == id

-- A blocking that someone else than the viewer made.
abbrev pub IsForeign : Viewer → LoadedBlocking → Type 0
IsForeign viewer b = is_creator viewer.user_id b.creator ≡ false

module _ (viewer : Viewer) (is_student : viewer.role ≡ student) where
  label-of_other :
      (a : AuthorInput)
      → holds_id a.owner_id viewer.user_id ≡ false
      → (format_reservation_author a viewer false).display_name
        ≡ role_label (format_reservation_author a viewer false).role
  unfolding format_reservation_author
  label-of_other a other = rw (other, is_student) refl

  reservation-IsDiscreet :
      (s : ViewSlot) (rs : List LoadedReservation)
      → IsDiscreet viewer rs (describe_reservation viewer false (reservation_of s rs))
  reservation-IsDiscreet s rs = elim (Option-cases (reservation_of s rs)) [
    | inl free ↦ rw free tt
    | inr (r, found) ↦ elim (Option-cases (author_input r)) [
      | inl nobody ↦ rw (found, nobody) tt
      | inr (a, known) ↦
          rw (found, known)
            (
              rw is_student refl,
              elim (Bool-cases (holds_id a.owner_id viewer.user_id)) [
                | inr other ↦ inr (label-of_other a other)
                | inl self ↦ inl (
                    found-any
                      (λ x.
                        intervals_overlap s.start_time s.end_time x.row.start_time x.row.end_time)
                      (λ x. x.row.id == r.row.id && is_own viewer x) rs found
                      (rw
                        (
                          ==_refl r.row.id,
                          owner-own viewer.user_id r.row.user_id r.user
                              r.row.requester.requester_user_id r.requester
                              r.row.requester.requester_name (rw known self),
                        )
                        refl))
              ],
            )
    ]
  ]

  creator-IsDiscreet :
      (rs : List LoadedReservation) (b : LoadedBlocking)
      → IsForeign viewer b
      → IsDiscreet viewer rs (describe_blocking viewer false (some b))
  unfolding format_reservation_author
  creator-IsDiscreet rs b foreign = elim (Option-cases b.creator) [
    | inl nobody ↦ rw nobody tt
    | inr (p, known) ↦
        let other : (p.id == viewer.user_id) ≡ false = rw known at foreign in
        rw known (rw (other, is_student) refl)
  ]

  blocking-IsDiscreet :
      (s : ViewSlot) (rs : List LoadedReservation) (bs : List LoadedBlocking)
      → All (IsForeign viewer) bs
      → IsDiscreet viewer rs (describe_blocking viewer false (blocking_of s bs))
  blocking-IsDiscreet s rs bs foreign = elim (Option-cases (blocking_of s bs)) [
    | inl free ↦ rw free tt
    | inr (b, found) ↦ rw found (
        creator-IsDiscreet rs b
          (find-All (IsForeign viewer)
            (λ x. intervals_overlap s.start_time s.end_time x.row.start_time x.row.end_time) bs
            foreign found).0)
  ]

  describe-IsDiscreet :
      (rs : List LoadedReservation) (bs : List LoadedBlocking) (s : ViewSlot) (status : ViewStatus)
      → All (IsForeign viewer) bs
      → IsDiscreet viewer rs (describe viewer false rs bs s status)
  describe-IsDiscreet rs bs s (of_status reserved) h = reservation-IsDiscreet s rs
  describe-IsDiscreet rs bs s (of_status blocked) h = blocking-IsDiscreet s rs bs h
  describe-IsDiscreet rs bs s (of_status closed) h = tt
  describe-IsDiscreet rs bs s (of_status available) h = tt
  describe-IsDiscreet rs bs s not_reservable h = tt

-- In the day's grid of a space that a student does not manage, and where no blocking is the
-- student's own, no slot shows a requester's contact, and each author is shown by the label of the
-- role alone, but for a reservation that the student made or that was made for the student.
pub enrich_slots-IsDiscreet :
    (viewer : Viewer) (slots : List ViewSlot) (rs : List LoadedReservation)
    (bs : List LoadedBlocking)
    → viewer.role ≡ student
    → All (IsForeign viewer) bs
    → All (λ s. IsDiscreet viewer rs s.detail) (enrich_slots slots rs bs (some viewer) false)
unfolding enrich_slots
enrich_slots-IsDiscreet viewer [] rs bs is_student foreign = tt
enrich_slots-IsDiscreet viewer (s ∷ ss) rs bs is_student foreign = (
  describe-IsDiscreet viewer is_student rs bs s s.status foreign,
  enrich_slots-IsDiscreet viewer ss rs bs is_student foreign,
)
