-- ===== src/Limits/Roles.antt =====
-- middleware/rbac.ts `extractRole`, `isMasterAdmin`, `rbac`, `requireMasterAdmin`
use ufcim_backend_proto.Prelude.{
  ℕ, Bool, true, false, Option, none, some, List, ◌==◌, any, first_some, some_when,
}
use ufcim_backend_proto.Schema.{UserRole, student, professor, staff, maintenance}

-- The roles of the token that the program knows; any other is named by a number.
pub data RealmRole : Type 0 where
  ufcim_student ufcim_professor ufcim_staff ufcim_maintenance ufcim_master_admin : RealmRole
  other_role : ℕ → RealmRole

abbrev app_role : RealmRole → Option UserRole
app_role ufcim_student = some student
app_role ufcim_professor = some professor
app_role ufcim_staff = some staff
app_role ufcim_maintenance = some maintenance
app_role _ = none

abbrev role_code : UserRole → ℕ
role_code student = 0
role_code professor = 1
role_code staff = 2
role_code maintenance = 3

abbrev pub same_role : UserRole → UserRole → Bool
same_role a b = role_code a == role_code b

abbrev names : UserRole → RealmRole → Bool
names r k = elim (app_role k) [ none ↦ false | some s ↦ same_role s r ]

-- `roles.includes(keycloakRole)`, for the realm role of an application role.
abbrev pub has_realm_role : UserRole → List RealmRole → Bool
has_realm_role r roles = any (names r) roles

-- In the order of the map.
unfoldable pub extract_role : List RealmRole → Option UserRole
extract_role roles = first_some (some_when (has_realm_role student roles) student) (
    first_some (some_when (has_realm_role professor roles) professor) (
      first_some (some_when (has_realm_role staff roles) staff)
        (some_when (has_realm_role maintenance roles) maintenance)))

abbrev is_master_role : RealmRole → Bool
is_master_role ufcim_master_admin = true
is_master_role _ = false

unfoldable pub is_master_admin : List RealmRole → Bool
is_master_admin roles = any is_master_role roles

abbrev pub among_roles : List UserRole → Option UserRole → Bool
among_roles allowed none = false
among_roles allowed (some r) = any (same_role r) allowed

-- Whether the request goes on; else the answer is 403.
unfoldable pub rbac : List UserRole → List RealmRole → Bool
rbac allowed roles = among_roles allowed (extract_role roles)

unfoldable pub require_master_admin : List RealmRole → Bool
unfolding is_master_admin
require_master_admin roles = is_master_admin roles
