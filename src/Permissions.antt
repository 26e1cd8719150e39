-- ===== src/Permissions.antt =====
-- lib/reservation-permissions.ts: who may edit or cancel a reservation or a series.
pub mod Laws
use ufcim_backend_proto.Prelude.{
  ℕ, Bool, true, false, ◌&&◌, ◌||◌, Option, ◌==◌, if◌then◌else◌, holds_id,
}
use ufcim_backend_proto.Schema.{UserRole, is_staff, is_maintenance}

pub data ReservationAction : Type 0 where
  edit cancel : ReservationAction

abbrev pub is_cancel : ReservationAction → Bool
is_cancel edit = false
is_cancel cancel = true

unfoldable pub can_manage_reservation : ℕ → UserRole → ℕ → Option ℕ → ReservationAction → Bool
can_manage_reservation actor_id role owner_id requester_id action =
    if is_maintenance role
    then false
    else if is_staff role
    then true
    else if owner_id == actor_id
    then true
    else is_cancel action && holds_id requester_id actor_id
