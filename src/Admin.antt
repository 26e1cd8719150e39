-- ===== src/Admin.antt =====
-- services/user-admin.service.ts
pub mod Steps
pub mod Effects
pub mod Untouched
pub mod Masters
pub mod Reviews
pub mod Pending
pub mod OnePending
pub mod Lockdown
use ufcim_backend_proto.Prelude.{
  ℕ, Bool, true, false, not, ◌&&◌, Option, none, some, List, [], ◌∷◌, ◌==◌, find, select, length,
  is_some, update_where, if◌then◌else◌,
}
use ufcim_backend_proto.Errors.{
  Result, ok, err, ◌>>=◌, ◌>>◌, throw_if, forbidden_error, master_admin_protected,
  only_master_admin, own_account,
}
use ufcim_backend_proto.Reservation.Guards.{found}
use ufcim_backend_proto.Schema.{UserRole}
use ufcim_backend_proto.Auth.{Account, RefreshToken, AuthDb, reset, Crypto}
use ufcim_backend_proto.Auth.Refresh.{set_revoked}
use ufcim_backend_proto.Invitation.{
  AdminDb, Env, role_changed, user_disabled, user_deleted, password_reset_sent, sessions_revoked,
  log_admin,
}
use ufcim_backend_proto.Invitation.Sending.{
  CreateInvitationInput, FreshInvitation, Sent, create_invitation,
}

abbrev pub find_account : ℕ → AdminDb → Option Account
find_account id db = find (λ u. u.id == id) db.accounts.users

abbrev pub write_account : ℕ → (Account → Account) → AdminDb → AdminDb
write_account id f db = record db {
  accounts = record db.accounts { users = update_where (λ u. u.id == id) f db.accounts.users };
}

-- Of that user, and not revoked yet.
abbrev pub is_session : ℕ → RefreshToken → Bool
is_session user_id t = t.user_id == user_id && not (is_some t.revoked_at)

abbrev pub revoke_sessions : ℕ → ℕ → AdminDb → AdminDb
revoke_sessions now user_id db = record db {
  accounts = record db.accounts {
    refresh_tokens = update_where (is_session user_id) (set_revoked now) db.accounts.refresh_tokens;
  };
}

-- `changeRole` and `setDisabled` leave the master administrator alone.
unfoldable pub find_ordinary : ℕ → AdminDb → Result Account
find_ordinary id db = do
  u ← found (find_account id db)
  throw_if u.is_master_admin (forbidden_error master_admin_protected)
  ok u

abbrev pub set_role : ℕ → UserRole → Account → Account
set_role now role u = record u { role = role; updated_at = now }

abbrev pub run_change_role :
    ℕ → ℕ → ℕ → UserRole → AdminDb → Result Account → Result Account × AdminDb
run_change_role now actor id role db (err e) = (err e, db)
run_change_role now actor id role db (ok u) = (
  ok (set_role now role u),
  log_admin (role_changed actor id) (write_account id (set_role now role) db),
)

unfoldable pub change_role : ℕ → ℕ → ℕ → UserRole → AdminDb → Result Account × AdminDb
change_role now actor id role db = run_change_role now actor id role db (find_ordinary id db)

abbrev pub set_disabled_at : ℕ → Bool → Account → Account
set_disabled_at now disabled u = record u {
  disabled_at = if disabled then some now else none;
  updated_at = now;
}

abbrev pub revoke_if : ℕ → Bool → ℕ → AdminDb → AdminDb
revoke_if now disabled id db = if disabled then revoke_sessions now id db else db

abbrev pub run_set_disabled : ℕ → ℕ → ℕ → Bool → AdminDb → Result Account → Result Account × AdminDb
run_set_disabled now actor id disabled db (err e) = (err e, db)
run_set_disabled now actor id disabled db (ok u) = (
  ok (set_disabled_at now disabled u),
  log_admin (user_disabled actor id)
      (revoke_if now disabled id (write_account id (set_disabled_at now disabled) db)),
)

unfoldable pub set_disabled : ℕ → ℕ → ℕ → Bool → AdminDb → Result Account × AdminDb
set_disabled now actor id disabled db =
    run_set_disabled now actor id disabled db (find_ordinary id db)

abbrev pub reset_input : ℕ → Account → CreateInvitationInput
reset_input actor u = record {
  inviter_id = actor;
  email = u.email;
  name = u.name;
  role = u.role;
  department = u.department;
  registration = u.registration;
  ttl_hours = 24;
  purpose = reset;
}

abbrev pub finish_reset : ℕ → ℕ → Result Sent × AdminDb → Result Sent × AdminDb
finish_reset actor id (err e, db) = (err e, db)
finish_reset actor id (ok sent, db) = (ok sent, log_admin (password_reset_sent actor id) db)

abbrev pub run_reset :
    Env → Crypto → ℕ → FreshInvitation → ℕ → ℕ → AdminDb → Result Account → Result Sent × AdminDb
run_reset env crypto now fresh actor id db (err e) = (err e, db)
run_reset env crypto now fresh actor id db (ok u) =
    finish_reset actor id (create_invitation env crypto now fresh (reset_input actor u) db)

unfoldable pub reset_password :
    Env → Crypto → ℕ → FreshInvitation → ℕ → ℕ → AdminDb → Result Sent × AdminDb
reset_password env crypto now fresh actor id db =
    run_reset env crypto now fresh actor id db (found (find_account id db))

unfoldable pub admit_delete : ℕ → ℕ → AdminDb → Result Account
admit_delete actor id db = do
  a ← found (find_account actor db)
  throw_if (not a.is_master_admin) (forbidden_error only_master_admin)
  u ← found (find_account id db)
  throw_if u.is_master_admin (forbidden_error master_admin_protected)
  throw_if (actor == id) (forbidden_error own_account)
  ok u

abbrev pub set_deleted : ℕ → Account → Account
set_deleted now u = record u { deleted_at = some now; disabled_at = some now; updated_at = now }

abbrev pub run_delete : ℕ → ℕ → ℕ → AdminDb → Result Account → Result (Unit {0}) × AdminDb
run_delete now actor id db (err e) = (err e, db)
run_delete now actor id db (ok u) = (
  ok tt,
  log_admin (user_deleted actor id)
      (write_account id (set_deleted now) (revoke_sessions now id db)),
)

unfoldable pub soft_delete : ℕ → ℕ → ℕ → AdminDb → Result (Unit {0}) × AdminDb
soft_delete now actor id db = run_delete now actor id db (admit_delete actor id db)

abbrev pub run_revoke_all : ℕ → ℕ → ℕ → AdminDb → Result Account → Result ℕ × AdminDb
run_revoke_all now actor id db (err e) = (err e, db)
run_revoke_all now actor id db (ok u) = (
  ok (length (select (is_session id) db.accounts.refresh_tokens)),
  log_admin (sessions_revoked actor id) (revoke_sessions now id db),
)

unfoldable pub revoke_all_sessions : ℕ → ℕ → ℕ → AdminDb → Result ℕ × AdminDb
revoke_all_sessions now actor id db = run_revoke_all now actor id db (found (find_account id db))
