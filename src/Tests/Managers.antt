-- ===== src/Tests/Managers.antt =====
-- A run of assignments and removals.
use ufcim_backend_proto.Prelude.{◌≡◌, refl, true, false, List, [], ◌∷◌, none}
use ufcim_backend_proto.Schema.{staff, User}
use ufcim_backend_proto.Managers.{
  SpaceManager, coordinator, maintainer, ManagerDb, AssignManagerInput, is_manager, admit_assign,
  insert_manager, assign_manager, remove_manager, is_manager_with_role,
}
use ufcim_backend_proto.Managers.AsSet.{
  Request, assigns, removes, serve_all, effects, serve-refines,
}
use ufcim_backend_proto.Tests.Booking.{room}

abbrev keeper : User
keeper = record {
  id = 9;
  name = 90;
  role = staff;
  is_master_admin = false;
  disabled_at = none;
  deleted_at = none;
}

abbrev assigned : AssignManagerInput
assigned = record { space_id = 1; user_id = 9; role = maintainer }

abbrev other_row : SpaceManager
other_row = record {
  id = 70;
  space_id = 1;
  user_id = 8;
  role = coordinator;
  assigned_by = 3;
  created_at = 5;
}

abbrev tables : ManagerDb
tables = record {
  users = keeper ∷ [];
  spaces = room ∷ [];
  space_managers = other_row ∷ [];
  audit_logs = [];
}

abbrev requests : List Request
requests = assigns 10 71 3 assigned ∷ assigns 11 72 3 assigned ∷ removes 3 1 8 ∷ removes 3 1 8 ∷ []

after_requests :
    (is_manager 9 1 (serve_all requests tables) ≡ true)
    × (is_manager 8 1 (serve_all requests tables) ≡ false)
    × (is_manager_with_role 9 1 maintainer (serve_all requests tables) ≡ true)
unfolding admit_assign insert_manager assign_manager remove_manager is_manager is_manager_with_role
after_requests = (refl, refl, refl)

serve-refines_example :
    is_manager 9 1 (serve_all requests tables)
    ≡ effects requests tables (λ u s. is_manager u s tables) 9 1
serve-refines_example = serve-refines requests tables 9 1 (tt, tt)
