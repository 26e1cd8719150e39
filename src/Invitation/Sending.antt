-- ===== src/Invitation/Sending.antt =====
-- services/invitation.service.ts `create`, `revoke`, `resend`
use ufcim_backend_proto.Prelude.{
  ℕ, ◌+◌, ◌*◌, Bool, true, false, not, ◌&&◌, ◌||◌, Option, none, some, List, [], ◌∷◌, ◌++◌, ◌==◌,
  leb, any, find, is_some, some_when, update_where, if◌then◌else◌,
}
use ufcim_backend_proto.Errors.{
  Result, ok, err, internal, ◌>>=◌, ◌>>◌, throw_if, app_error, conflict_error, invalid_department,
  no_such_department, user_exists, invitation_pending, already_accepted,
}
use ufcim_backend_proto.Reservation.Guards.{found}
use ufcim_backend_proto.Schedule.Times.{Text, text_eq}
use ufcim_backend_proto.Schema.{UserRole}
use ufcim_backend_proto.Auth.{AuthDb, Invitation, InvitationPurpose, invite, reset, Crypto, trim}
use ufcim_backend_proto.Invitation.{
  AdminDb, Env, AdminEvent, invitation_created, invitation_revoked, invitation_resent, log_admin,
}
use ufcim_backend_proto.Invitation.EmailDomain.{assert_allowed_domain}

pub record CreateInvitationInput : Type 0 where
  pub inviter_id : ℕ
  pub email : Text
  pub name : ℕ
  pub role : UserRole
  pub department : ℕ
  pub registration : Option Text
  pub ttl_hours : ℕ
  pub purpose : InvitationPurpose

-- The random token and the identifier of the new row.
pub record FreshInvitation : Type 0 where
  pub token : ℕ
  pub id : ℕ

pub record Sent : Type 0 where
  pub invitation : Invitation
  pub token : ℕ

abbrev pub is_invite : InvitationPurpose → Bool
is_invite invite = true
is_invite reset = false

-- Of that address, and neither accepted, revoked nor expired.
abbrev pub is_pending_invite : ℕ → Text → Invitation → Bool
is_pending_invite now email i =
    text_eq i.email email
    && (is_invite i.purpose
        && (not (is_some i.accepted_at) && (not (is_some i.revoked_at) && leb now i.expires_at)))

abbrev pub has_user : Text → AuthDb → Bool
has_user email accounts = any (λ u. text_eq u.email email) accounts.users

abbrev pub has_live : ℕ → Text → AuthDb → Bool
has_live now email accounts = any (is_pending_invite now email) accounts.invitations

abbrev pub normalized : Crypto → Text → Text
normalized crypto email = crypto.to_lower_case (trim email)

unfoldable pub admit_invitation :
    Env → Crypto → ℕ → CreateInvitationInput → AdminDb → Result (Unit {0})
admit_invitation env crypto now input db = do
  assert_allowed_domain crypto env.allowed_email_domains (normalized crypto input.email)
  throw_if (not (any (λ d. d == input.department) db.departments))
      (app_error 422 invalid_department no_such_department)
  throw_if (is_invite input.purpose && has_user (normalized crypto input.email) db.accounts)
      (conflict_error user_exists)
  throw_if (is_invite input.purpose && has_live now (normalized crypto input.email) db.accounts)
      (conflict_error invitation_pending)

abbrev pub hours_ms : ℕ → ℕ
hours_ms h = h * 60 * 60 * 1000

abbrev pub new_invitation : Crypto → ℕ → FreshInvitation → CreateInvitationInput → Invitation
new_invitation crypto now fresh input = record {
  id = fresh.id;
  email = normalized crypto input.email;
  role = input.role;
  name = input.name;
  registration = input.registration;
  department = input.department;
  token_hash = crypto.sha256_hex fresh.token;
  purpose = input.purpose;
  invited_by = input.inviter_id;
  expires_at = now + hours_ms input.ttl_hours;
  accepted_at = none;
  accepted_user_id = none;
  revoked_at = none;
}

abbrev pub with_invitations : AdminDb → List Invitation → AdminDb
with_invitations db is = record db { accounts = record db.accounts { invitations = is } }

-- The primary key and the unique hash of the token.
unfoldable pub insert_invitation : Invitation → AdminDb → Option AdminDb
insert_invitation i db =
    some_when
      (not (any (λ j. j.id == i.id || j.token_hash == i.token_hash) db.accounts.invitations))
      (with_invitations db (db.accounts.invitations ++ i ∷ []))

-- `buildInviteUrl` throws after the write if the base address is not set.
abbrev pub finish_send :
    Env
    → ℕ
    → (ℕ → ℕ → AdminEvent)
    → Invitation
    → ℕ
    → AdminDb
    → Option AdminDb
    → Result Sent × AdminDb
finish_send env actor event i token db none = (err internal, db)
finish_send env actor event i token db (some db') =
    if env.has_invite_base_url
    then (ok (record { invitation = i; token = token }), log_admin (event actor i.id) db')
    else (err internal, db')

abbrev pub run_send :
    Env
    → Crypto
    → ℕ
    → FreshInvitation
    → CreateInvitationInput
    → AdminDb
    → Result (Unit {0})
    → Result Sent × AdminDb
run_send env crypto now fresh input db (err e) = (err e, db)
run_send env crypto now fresh input db (ok admitted) =
    let i = new_invitation crypto now fresh input in
    finish_send env input.inviter_id invitation_created i fresh.token db (insert_invitation i db)

unfoldable pub create_invitation :
    Env → Crypto → ℕ → FreshInvitation → CreateInvitationInput → AdminDb → Result Sent × AdminDb
create_invitation env crypto now fresh input db =
    run_send env crypto now fresh input db (admit_invitation env crypto now input db)

-- `revoke` and `resend` refuse an accepted invitation.
unfoldable pub find_unaccepted : ℕ → AdminDb → Result Invitation
find_unaccepted id db = do
  i ← found (find (λ i. i.id == id) db.accounts.invitations)
  throw_if (is_some i.accepted_at) (conflict_error already_accepted)
  ok i

abbrev pub rewrite_invitation : ℕ → (Invitation → Invitation) → AdminDb → AdminDb
rewrite_invitation id f db =
    with_invitations db (update_where (λ i. i.id == id) f db.accounts.invitations)

abbrev pub set_withdrawn : ℕ → Invitation → Invitation
set_withdrawn now i = record i { revoked_at = some now }

abbrev pub run_revoke : ℕ → ℕ → ℕ → AdminDb → Result Invitation → Result Invitation × AdminDb
run_revoke now actor id db (err e) = (err e, db)
run_revoke now actor id db (ok i) = (
  ok (set_withdrawn now i),
  log_admin (invitation_revoked actor id) (rewrite_invitation id (set_withdrawn now) db),
)

unfoldable pub revoke : ℕ → ℕ → ℕ → AdminDb → Result Invitation × AdminDb
revoke now actor id db = run_revoke now actor id db (find_unaccepted id db)

abbrev pub set_resent : Crypto → ℕ → ℕ → ℕ → Invitation → Invitation
set_resent crypto now token ttl_hours i = record i {
  token_hash = crypto.sha256_hex token;
  expires_at = now + hours_ms ttl_hours;
  revoked_at = none;
}

-- Another invitation has the hash.
unfoldable pub rehash : ℕ → ℕ → (Invitation → Invitation) → AdminDb → Option AdminDb
rehash id hash f db =
    some_when (not (any (λ j. not (j.id == id) && j.token_hash == hash) db.accounts.invitations))
      (rewrite_invitation id f db)

abbrev pub run_resend :
    Env → Crypto → ℕ → ℕ → ℕ → ℕ → ℕ → AdminDb → Result Invitation → Result Sent × AdminDb
run_resend env crypto now actor id token ttl_hours db (err e) = (err e, db)
run_resend env crypto now actor id token ttl_hours db (ok i) =
    finish_send env actor invitation_resent (set_resent crypto now token ttl_hours i) token db
      (rehash id (crypto.sha256_hex token) (set_resent crypto now token ttl_hours) db)

unfoldable pub resend : Env → Crypto → ℕ → ℕ → ℕ → ℕ → ℕ → AdminDb → Result Sent × AdminDb
resend env crypto now actor id token ttl_hours db =
    run_resend env crypto now actor id token ttl_hours db (find_unaccepted id db)
