-- ===== src/Privacy/Laws.antt =====
-- lib/reservation-privacy.ts: the name is disclosed exactly to those who may see it.
use ufcim_backend_proto.Prelude.{
  ℕ, ◌≡◌, refl, ◌≢◌, ◌↔◌, inl, inr, Bool, true, false, ◌||◌, Option, some, arith, holds_id,
  Bool-cases,
}
use ufcim_backend_proto.Schema.{UserRole, student, professor, staff, maintenance}
use ufcim_backend_proto.Privacy.{
  AuthorInput, Viewer, full_name, role_label, is_privileged, format_reservation_author,
}

-- The person themselves, any role but student, or a manager of the space.
pub data MaySeeName (owner : AuthorInput) (viewer : Viewer) (is_manager : Bool) : Type 0 where
  own : owner.owner_id ≡ some viewer.user_id → MaySeeName owner viewer is_manager
  by_role : viewer.role ≢ student → MaySeeName owner viewer is_manager
  by_manager : is_manager ≡ true → MaySeeName owner viewer is_manager

is_privileged-student : (r : UserRole) → is_privileged r ≡ true → r ≢ student
is_privileged-student student h = cc
is_privileged-student professor h = λ e. cc
is_privileged-student staff h = λ e. cc
is_privileged-student maintenance h = λ e. cc

privileged_of : (r : UserRole) → r ≢ student → is_privileged r ≡ true
privileged_of student h = absurd (h refl)
privileged_of professor h = refl
privileged_of staff h = refl
privileged_of maintenance h = refl

holds_id-eq : (o : Option ℕ) (n : ℕ) → holds_id o n ≡ true → o ≡ some n
holds_id-eq o n h = ground arith

label-ne-name : {r : UserRole} {n : ℕ} → role_label r ≡ full_name n → ⊥
label-ne-name h = cc

module _ (owner : AuthorInput) (viewer : Viewer) (is_manager : Bool) where
  discloses-MaySeeName :
      (format_reservation_author owner viewer is_manager).display_name ≡ full_name owner.owner_name
      → MaySeeName owner viewer is_manager
  unfolding format_reservation_author
  discloses-MaySeeName h = elim (Bool-cases (holds_id owner.owner_id viewer.user_id)) [
    | inl self ↦ own (holds_id-eq owner.owner_id viewer.user_id self)
    | inr other ↦ elim (Bool-cases (is_privileged viewer.role)) [
      | inl role ↦ by_role (is_privileged-student viewer.role role)
      | inr plain ↦ elim (Bool-cases is_manager) [
        | inl manager ↦ by_manager manager
        | inr outsider ↦ absurd (label-ne-name (rw (other, plain, outsider) at h))
      ]
    ]
  ]

  discloses-privileged :
      (is_privileged viewer.role || is_manager) ≡ true
      → (format_reservation_author owner viewer is_manager).display_name
        ≡ full_name owner.owner_name
  unfolding format_reservation_author
  discloses-privileged h = elim (Bool-cases (holds_id owner.owner_id viewer.user_id)) [
    | inl self ↦ rw self refl
    | inr other ↦ rw (other, h) refl
  ]

  MaySeeName-discloses :
      MaySeeName owner viewer is_manager
      → (format_reservation_author owner viewer is_manager).display_name
        ≡ full_name owner.owner_name
  unfolding format_reservation_author
  MaySeeName-discloses (own e) = ground arith
  MaySeeName-discloses (by_role n) = discloses-privileged (rw (privileged_of viewer.role n) refl)
  MaySeeName-discloses (by_manager m) = discloses-privileged (ground arith)

-- The author of a reservation is shown by name exactly to the author, to a viewer of any role but
-- student, and to a manager of the space.
pub format_reservation_author_iff :
    (owner : AuthorInput) (viewer : Viewer) (is_manager : Bool)
    → ((format_reservation_author owner viewer is_manager).display_name
        ≡ full_name owner.owner_name)
      ↔ MaySeeName owner viewer is_manager
format_reservation_author_iff owner viewer is_manager =
    (discloses-MaySeeName owner viewer is_manager, MaySeeName-discloses owner viewer is_manager)

-- A student who is not a manager of the space gets the same answer for any two other people of one
-- role: nothing of who they are shows.
pub format_reservation_author-hides :
    (a b : AuthorInput) (viewer : Viewer)
    → viewer.role ≡ student
    → holds_id a.owner_id viewer.user_id ≡ false
    → holds_id b.owner_id viewer.user_id ≡ false
    → a.owner_role ≡ b.owner_role
    → format_reservation_author a viewer false ≡ format_reservation_author b viewer false
unfolding format_reservation_author
format_reservation_author-hides a b viewer is_student not_a not_b same =
    rw (not_a, not_b, is_student, same) refl
