-- ===== src/Invitation.antt =====
-- services/invitation.service.ts, services/invitation-request.service.ts: the tables that the
-- administration of accounts works on.
pub mod EmailDomain
pub mod Sending
pub mod Reviewing
use ufcim_backend_proto.Prelude.{ℕ, Bool, Option, none, some, List, [], ◌∷◌, ◌++◌}
use ufcim_backend_proto.Schedule.Times.{Text}
use ufcim_backend_proto.Auth.{AuthDb}

pub data RequestStatus : Type 0 where
  pending approved rejected : RequestStatus

pub record InvitationRequest : Type 0 where
  pub id : ℕ
  pub name : ℕ
  pub email : Text
  pub status : RequestStatus
  pub created_at : ℕ
  pub reviewed_at : Option ℕ
  pub reviewed_by : Option ℕ
  pub invitation_id : Option ℕ

-- The events of the audit log, with the actor and the reference.
pub data AdminEvent : Type 0 where
  invitation_created invitation_revoked invitation_resent : ℕ → ℕ → AdminEvent
  request_approved request_rejected : ℕ → ℕ → AdminEvent
  role_changed user_disabled user_deleted : ℕ → ℕ → AdminEvent
  password_reset_sent sessions_revoked : ℕ → ℕ → AdminEvent

pub record AdminDb : Type 0 where
  pub accounts : AuthDb
  pub requests : List InvitationRequest
  pub departments : List ℕ
  pub audit_logs : List AdminEvent

-- The environment: `ALLOWED_EMAIL_DOMAINS`, and whether `INVITE_BASE_URL` is set.
pub record Env : Type 0 where
  pub allowed_email_domains : Text
  pub has_invite_base_url : Bool

abbrev pub log_admin : AdminEvent → AdminDb → AdminDb
log_admin e db = record db { audit_logs = db.audit_logs ++ e ∷ [] }
