-- ===== src/Permissions/Laws.antt =====
-- lib/reservation-permissions.ts against the rules that its comment gives.
use ufcim_backend_proto.Prelude.{
  ℕ, ◌≡◌, refl, ◌≢◌, ◌↔◌, ◌⊎◌, inl, inr, true, Option, some, arith, ◌==◌, Bool-cases,
}
use ufcim_backend_proto.Schema.{UserRole, student, professor, staff, maintenance}
use ufcim_backend_proto.Permissions.{ReservationAction, edit, cancel, can_manage_reservation}

-- Who may manage: staff; any other role but maintenance for a reservation that it owns; and for
-- cancelling only, also its registered requester.
pub data MayManage (actor : ℕ) (role : UserRole) (owner : ℕ) (requester : Option ℕ)
    : ReservationAction → Type 0 where
  by_staff :
      {action : ReservationAction} → role ≡ staff → MayManage actor role owner requester action
  by_owner :
      {action : ReservationAction}
      → role ≢ maintenance
      → owner ≡ actor
      → MayManage actor role owner requester action
  by_requester :
      role ≢ maintenance → requester ≡ some actor → MayManage actor role owner requester cancel

UserRole-cases : (r : UserRole) → (r ≡ staff) ⊎ (r ≢ staff)
UserRole-cases staff = inl refl
UserRole-cases student = inr (λ e. cc)
UserRole-cases professor = inr (λ e. cc)
UserRole-cases maintenance = inr (λ e. cc)

module _ (actor : ℕ) (role : UserRole) (owner : ℕ) (requester : Option ℕ) where
  can_manage_sound :
      (action : ReservationAction)
      → can_manage_reservation actor role owner requester action ≡ true
      → MayManage actor role owner requester action
  unfolding can_manage_reservation
  can_manage_sound edit h = elim (UserRole-cases role) [
    | inl e ↦ by_staff e
    | inr n ↦ by_owner (ground arith) (ground arith)
  ]
  can_manage_sound cancel h = elim (UserRole-cases role) [
    | inl e ↦ by_staff e
    | inr n ↦ elim (Bool-cases (owner == actor)) [
      | inl own ↦ by_owner (ground arith) (ground arith)
      | inr other ↦ by_requester (ground arith) (ground arith)
    ]
  ]

  can_manage_complete :
      (action : ReservationAction)
      → MayManage actor role owner requester action
      → can_manage_reservation actor role owner requester action ≡ true
  unfolding can_manage_reservation
  can_manage_complete action (by_staff e) = ground arith
  can_manage_complete action (by_owner n e) = ground arith
  can_manage_complete action (by_requester n e) = ground arith

-- The check accepts exactly staff, the owner in any role but maintenance, and, for cancelling only,
-- the registered requester in any role but maintenance.
pub can_manage_reservation_iff :
    (actor : ℕ) (role : UserRole) (owner : ℕ) (requester : Option ℕ) (action : ReservationAction)
    → (can_manage_reservation actor role owner requester action ≡ true)
      ↔ MayManage actor role owner requester action
can_manage_reservation_iff actor role owner requester action = (
  can_manage_sound actor role owner requester action,
  can_manage_complete actor role owner requester action,
)
