-- ===== src/Invitation/Reviewing.antt =====
-- services/invitation-request.service.ts `request`, `approve`, `reject`, `list`
use ufcim_backend_proto.Prelude.{
  ℕ, Bool, true, false, not, ◌&&◌, Option, none, some, [], ◌∷◌, ◌++◌, ◌==◌, any, find, some_when,
  update_where,
}
use ufcim_backend_proto.Errors.{
  Result, ok, err, internal, ◌>>=◌, ◌>>◌, throw_if, conflict_error, user_exists, invitation_pending,
  request_pending, already_reviewed,
}
use ufcim_backend_proto.Reservation.Guards.{found}
use ufcim_backend_proto.Schedule.Times.{Text, text_eq}
use ufcim_backend_proto.Schema.{UserRole}
use ufcim_backend_proto.Auth.{invite, Crypto}
use ufcim_backend_proto.Invitation.{
  RequestStatus, pending, approved, rejected, InvitationRequest, AdminDb, Env, request_approved,
  request_rejected, log_admin,
}
use ufcim_backend_proto.Invitation.EmailDomain.{assert_allowed_domain}
use ufcim_backend_proto.Invitation.Sending.{
  CreateInvitationInput, FreshInvitation, Sent, has_user, has_live, normalized, create_invitation,
}

abbrev pub is_pending : RequestStatus → Bool
is_pending pending = true
is_pending _ = false

abbrev pub has_request : Text → AdminDb → Bool
has_request email db = any (λ r. text_eq r.email email && is_pending r.status) db.requests

unfoldable pub admit_request : Env → Crypto → ℕ → Text → AdminDb → Result (Unit {0})
admit_request env crypto now email db = do
  assert_allowed_domain crypto env.allowed_email_domains email
  throw_if (has_user email db.accounts) (conflict_error user_exists)
  throw_if (has_request email db) (conflict_error request_pending)
  throw_if (has_live now email db.accounts) (conflict_error invitation_pending)

abbrev pub new_request : ℕ → ℕ → ℕ → Text → InvitationRequest
new_request now id name email = record {
  id = id;
  name = name;
  email = email;
  status = pending;
  created_at = now;
  reviewed_at = none;
  reviewed_by = none;
  invitation_id = none;
}

unfoldable pub insert_request : InvitationRequest → AdminDb → Option AdminDb
insert_request r db =
    some_when (not (any (λ s. s.id == r.id) db.requests))
      (record db { requests = db.requests ++ r ∷ [] })

abbrev pub finish_request :
    InvitationRequest → AdminDb → Option AdminDb → Result InvitationRequest × AdminDb
finish_request r db none = (err internal, db)
finish_request r db (some db') = (ok r, db')

abbrev pub run_request :
    InvitationRequest → AdminDb → Result (Unit {0}) → Result InvitationRequest × AdminDb
run_request r db (err e) = (err e, db)
run_request r db (ok admitted) = finish_request r db (insert_request r db)

-- `name` stands for the trimmed name.
unfoldable pub request :
    Env → Crypto → ℕ → ℕ → ℕ → Text → AdminDb → Result InvitationRequest × AdminDb
request env crypto now id name email db =
    run_request (new_request now id name (normalized crypto email)) db
      (admit_request env crypto now (normalized crypto email) db)

abbrev pub find_request : ℕ → AdminDb → Option InvitationRequest
find_request id db = find (λ r. r.id == id) db.requests

unfoldable pub load_pending : ℕ → AdminDb → Result InvitationRequest
load_pending id db = do
  r ← found (find_request id db)
  throw_if (not (is_pending r.status)) (conflict_error already_reviewed)
  ok r

abbrev pub write_request : ℕ → (InvitationRequest → InvitationRequest) → AdminDb → AdminDb
write_request id f db = record db { requests = update_where (λ r. r.id == id) f db.requests }

pub record ApproveInput : Type 0 where
  pub role : UserRole
  pub department : ℕ
  pub registration : Option Text

-- `create` with its defaults: an invitation for 72 hours.
abbrev pub invitation_for : ℕ → ApproveInput → InvitationRequest → CreateInvitationInput
invitation_for admin_id input r = record {
  inviter_id = admin_id;
  email = r.email;
  name = r.name;
  role = input.role;
  department = input.department;
  registration = input.registration;
  ttl_hours = 72;
  purpose = invite;
}

abbrev pub set_approved : ℕ → ℕ → ℕ → InvitationRequest → InvitationRequest
set_approved now admin_id invitation_id r = record r {
  status = approved;
  reviewed_at = some now;
  reviewed_by = some admin_id;
  invitation_id = some invitation_id;
}

abbrev pub finish_approve :
    ℕ → ℕ → ℕ → InvitationRequest → Result Sent × AdminDb → Result InvitationRequest × AdminDb
finish_approve now admin_id id r (err e, db) = (err e, db)
finish_approve now admin_id id r (ok sent, db) = (
  ok (set_approved now admin_id sent.invitation.id r),
  log_admin (request_approved admin_id id)
      (write_request id (set_approved now admin_id sent.invitation.id) db),
)

abbrev pub run_approve :
    Env
    → Crypto
    → ℕ
    → FreshInvitation
    → ℕ
    → ℕ
    → ApproveInput
    → AdminDb
    → Result InvitationRequest
    → Result InvitationRequest × AdminDb
run_approve env crypto now fresh admin_id id input db (err e) = (err e, db)
run_approve env crypto now fresh admin_id id input db (ok r) =
    finish_approve now admin_id id r
      (create_invitation env crypto now fresh (invitation_for admin_id input r) db)

unfoldable pub approve :
    Env
    → Crypto
    → ℕ
    → FreshInvitation
    → ℕ
    → ℕ
    → ApproveInput
    → AdminDb
    → Result InvitationRequest × AdminDb
approve env crypto now fresh admin_id id input db =
    run_approve env crypto now fresh admin_id id input db (load_pending id db)

abbrev pub set_rejected : ℕ → ℕ → InvitationRequest → InvitationRequest
set_rejected now admin_id r = record r {
  status = rejected;
  reviewed_at = some now;
  reviewed_by = some admin_id;
}

abbrev pub run_reject :
    ℕ → ℕ → ℕ → AdminDb → Result InvitationRequest → Result InvitationRequest × AdminDb
run_reject now admin_id id db (err e) = (err e, db)
run_reject now admin_id id db (ok r) = (
  ok (set_rejected now admin_id r),
  log_admin (request_rejected admin_id id) (write_request id (set_rejected now admin_id) db),
)

unfoldable pub reject : ℕ → ℕ → ℕ → AdminDb → Result InvitationRequest × AdminDb
reject now admin_id id db = run_reject now admin_id id db (load_pending id db)
