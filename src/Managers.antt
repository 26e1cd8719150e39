-- ===== src/Managers.antt =====
-- services/space-manager.service.ts: who manages which space.

pub mod Deletion
pub mod AsSet
use ufcim_backend_proto.Prelude.{
  ℕ, Bool, true, false, not, ◌&&◌, ◌||◌, Option, none, some, List, [], ◌∷◌, ◌++◌, ◌==◌, any, find,
  select, is_some, some_when,
}
use ufcim_backend_proto.Errors.{
  Result, ok, err, internal, ◌>>=◌, ◌>>◌, throw_if, conflict_error, already_manager,
}
use ufcim_backend_proto.Reservation.Guards.{found}
use ufcim_backend_proto.Schema.{User, Space}

pub data ManagerRole : Type 0 where
  coordinator maintainer : ManagerRole

pub record SpaceManager : Type 0 where
  pub id : ℕ
  pub space_id : ℕ
  pub user_id : ℕ
  pub role : ManagerRole
  pub assigned_by : ℕ
  pub created_at : ℕ

pub data ManagerEvent : Type 0 where
  assign_space_manager remove_space_manager : ℕ → ℕ → ManagerEvent

pub record ManagerDb : Type 0 where
  pub users : List User
  pub spaces : List Space
  pub space_managers : List SpaceManager
  pub audit_logs : List ManagerEvent

pub record AssignManagerInput : Type 0 where
  pub space_id : ℕ
  pub user_id : ℕ
  pub role : ManagerRole

abbrev pub manages : ℕ → ℕ → SpaceManager → Bool
manages user_id space_id m = m.space_id == space_id && m.user_id == user_id

abbrev pub find_manager : ℕ → ℕ → ManagerDb → Option SpaceManager
find_manager user_id space_id db = find (manages user_id space_id) db.space_managers

unfoldable pub admit_assign : AssignManagerInput → ManagerDb → Result (Unit {0})
admit_assign input db = do
  space ← found (find (λ s. s.id == input.space_id) db.spaces)
  user ← found (find (λ u. u.id == input.user_id) db.users)
  throw_if (is_some (find_manager input.user_id input.space_id db)) (conflict_error already_manager)

abbrev pub log_manager : ManagerEvent → ManagerDb → ManagerDb
log_manager e db = record db { audit_logs = db.audit_logs ++ e ∷ [] }

abbrev pub new_manager : ℕ → ℕ → ℕ → AssignManagerInput → SpaceManager
new_manager now id actor input = record {
  id = id;
  space_id = input.space_id;
  user_id = input.user_id;
  role = input.role;
  assigned_by = actor;
  created_at = now;
}

-- The primary key and the unique index of space and user.
unfoldable pub insert_manager : SpaceManager → ManagerDb → Option ManagerDb
insert_manager m db =
    some_when (not (any (λ n. n.id == m.id || manages m.user_id m.space_id n) db.space_managers))
      (record db { space_managers = db.space_managers ++ m ∷ [] })

abbrev pub finish_assign :
    ℕ → SpaceManager → ManagerDb → Option ManagerDb → Result SpaceManager × ManagerDb
finish_assign actor m db none = (err internal, db)
finish_assign actor m db (some db') = (ok m, log_manager (assign_space_manager actor m.id) db')

abbrev pub run_assign :
    ℕ → ℕ → ℕ → AssignManagerInput → ManagerDb → Result (Unit {0}) → Result SpaceManager × ManagerDb
run_assign now id actor input db (err e) = (err e, db)
run_assign now id actor input db (ok admitted) =
    let m = new_manager now id actor input in finish_assign actor m db (insert_manager m db)

unfoldable pub assign_manager :
    ℕ → ℕ → ℕ → AssignManagerInput → ManagerDb → Result SpaceManager × ManagerDb
assign_manager now id actor input db = run_assign now id actor input db (admit_assign input db)

abbrev pub delete_manager : ℕ → ManagerDb → ManagerDb
delete_manager id db = record db {
  space_managers = select (λ m. not (m.id == id)) db.space_managers;
}

abbrev pub remove_found : ℕ → ManagerDb → Result SpaceManager → Result (Unit {0}) × ManagerDb
remove_found actor db (err e) = (err e, db)
remove_found actor db (ok m) =
    (ok tt, log_manager (remove_space_manager actor m.id) (delete_manager m.id db))

unfoldable pub remove_manager : ℕ → ℕ → ℕ → ManagerDb → Result (Unit {0}) × ManagerDb
remove_manager actor space_id user_id db =
    remove_found actor db (found (find_manager user_id space_id db))

unfoldable pub is_manager : ℕ → ℕ → ManagerDb → Bool
is_manager user_id space_id db = is_some (find_manager user_id space_id db)

abbrev role_of : ManagerRole → ManagerRole → Bool
role_of coordinator coordinator = true
role_of maintainer maintainer = true
role_of _ _ = false

unfoldable pub is_manager_with_role : ℕ → ℕ → ManagerRole → ManagerDb → Bool
is_manager_with_role user_id space_id role db =
    is_some (find (λ m. manages user_id space_id m && role_of m.role role) db.space_managers)
