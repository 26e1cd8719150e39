-- ===== src/Admin/Steps.antt =====
-- Requests of the administration, and invitations that are accepted, in any order, at times that do
-- not go back.
use ufcim_backend_proto.Prelude.{ℕ, ◌≤◌, Bool}
use ufcim_backend_proto.Schedule.Times.{Text}
use ufcim_backend_proto.Schema.{UserRole}
use ufcim_backend_proto.Auth.{AuthDb, Crypto, Fresh}
use ufcim_backend_proto.Auth.Invitations.{AcceptInput, accept_invitation}
use ufcim_backend_proto.Invitation.{AdminDb, Env}
use ufcim_backend_proto.Invitation.Sending.{
  CreateInvitationInput, FreshInvitation, create_invitation, revoke, resend,
}
use ufcim_backend_proto.Invitation.Reviewing.{ApproveInput, request, approve, reject}
use ufcim_backend_proto.Admin.{
  change_role, set_disabled, reset_password, soft_delete, revoke_all_sessions,
}

abbrev pub with_accounts : AdminDb → AuthDb → AdminDb
with_accounts db accounts = record db { accounts = accounts }

-- One request at a time, granted or refused; `May` says which invitations may be sent again.
pub data Step (env : Env) (crypto : Crypto) (May : ℕ → ℕ → AdminDb → Type 0) (now : ℕ)
    (db : AdminDb) : AdminDb → Type 0 where
  invites :
      (fresh : FreshInvitation) (input : CreateInvitationInput)
      → Step env crypto May now db (create_invitation env crypto now fresh input db).1
  revokes : (actor id : ℕ) → Step env crypto May now db (revoke now actor id db).1
  resends :
      (actor id token ttl_hours : ℕ)
      → May now id db
      → Step env crypto May now db (resend env crypto now actor id token ttl_hours db).1
  requests :
      (id name : ℕ) (email : Text)
      → Step env crypto May now db (request env crypto now id name email db).1
  approves :
      (fresh : FreshInvitation) (admin id : ℕ) (input : ApproveInput)
      → Step env crypto May now db (approve env crypto now fresh admin id input db).1
  rejects : (admin id : ℕ) → Step env crypto May now db (reject now admin id db).1
  changes_role :
      (actor id : ℕ) (role : UserRole)
      → Step env crypto May now db (change_role now actor id role db).1
  disables :
      (actor id : ℕ) (disabled : Bool)
      → Step env crypto May now db (set_disabled now actor id disabled db).1
  resets :
      (fresh : FreshInvitation) (actor id : ℕ)
      → Step env crypto May now db (reset_password env crypto now fresh actor id db).1
  deletes : (actor id : ℕ) → Step env crypto May now db (soft_delete now actor id db).1
  ends_sessions :
      (actor id : ℕ) → Step env crypto May now db (revoke_all_sessions now actor id db).1
  accepts :
      (fresh : Fresh) (input : AcceptInput)
      → Step env crypto May now db
          (with_accounts db (accept_invitation crypto now fresh input db.accounts).1)

-- From `start` at a time to tables at a later one.
pub data Reach (env : Env) (crypto : Crypto) (May : ℕ → ℕ → AdminDb → Type 0) (begin : ℕ)
    (start : AdminDb) : ℕ → AdminDb → Type 0 where
  here : Reach env crypto May begin start begin start
  next :
      {t now : ℕ} {db db' : AdminDb}
      → Reach env crypto May begin start t db
      → t ≤ now
      → Step env crypto May now db db'
      → Reach env crypto May begin start now db'
