-- ===== src/Auth.antt =====
-- services/auth.service.ts: the tables of accounts and sessions, and the writes to them. The modules
-- Login, Refresh and Invitations model the service's methods.
pub mod Login
pub mod Refresh
pub mod Invitations
pub mod Lockout
pub mod Tokens
pub mod Chain
pub mod Rotation
pub mod Acceptance
use ufcim_backend_proto.Prelude.{
  ℕ, zero, suc, ◌+◌, ◌*◌, Bool, true, false, ◌&&◌, ◌||◌, Option, none, some, List, [], ◌∷◌, ◌++◌,
  ◌==◌, any, option_map, some_when, not, ltb,
}
use ufcim_backend_proto.Errors.{Thrown, app, unauthorized_error, Message, Result, ok, err}
use ufcim_backend_proto.Texts.{trim_start, trim_end}
use ufcim_backend_proto.Schedule.Times.{Text, text_eq}
use ufcim_backend_proto.Schema.{UserRole}

-- A row of `users`, as this service reads and writes it. A department is a number, a name too.
pub record Account : Type 0 where
  pub id : ℕ
  pub name : ℕ
  pub registration : Option Text
  pub role : UserRole
  pub department : ℕ
  pub email : Text
  pub is_master_admin : Bool
  pub disabled_at : Option ℕ
  pub deleted_at : Option ℕ
  pub created_at : ℕ
  pub updated_at : ℕ

pub record UserCredentials : Type 0 where
  pub user_id : ℕ
  pub password_hash : ℕ
  pub password_updated_at : ℕ
  pub failed_attempts : ℕ
  pub locked_until : Option ℕ

pub record RefreshToken : Type 0 where
  pub id : ℕ
  pub user_id : ℕ
  pub token_hash : ℕ
  pub expires_at : ℕ
  pub revoked_at : Option ℕ
  pub replaced_by : Option ℕ
  pub user_agent : Option Text
  pub created_at : ℕ

pub data InvitationPurpose : Type 0 where
  invite reset : InvitationPurpose

pub record Invitation : Type 0 where
  pub id : ℕ
  pub email : Text
  pub role : UserRole
  pub name : ℕ
  pub registration : Option Text
  pub department : ℕ
  pub token_hash : ℕ
  pub purpose : InvitationPurpose
  pub invited_by : ℕ
  pub expires_at : ℕ
  pub accepted_at : Option ℕ
  pub accepted_user_id : Option ℕ
  pub revoked_at : Option ℕ

-- The events that the service writes to the audit log, with the user and the reference.
pub data AuthEvent : Type 0 where
  login_failed login_success refresh_reused refreshed logged_out : ℕ → ℕ → AuthEvent
  password_reset invitation_accepted : ℕ → ℕ → AuthEvent

pub record AuthDb : Type 0 where
  pub users : List Account
  pub user_credentials : List UserCredentials
  pub refresh_tokens : List RefreshToken
  pub invitations : List Invitation
  pub audit_logs : List AuthEvent

-- lib/crypto.ts and lib/jwt.ts, which call WebCrypto and the JWT library, and the language's
-- `toLowerCase`.
pub record Crypto : Type 0 where
  pub verify_password : ℕ → ℕ → Bool
  pub hash_password : ℕ → ℕ
  pub sha256_hex : ℕ → ℕ
  pub sign_access_token : Account → ℕ
  pub to_lower_case : Text → Text

-- What a request draws at random: an opaque token and the identifiers of the new rows.
pub record Fresh : Type 0 where
  pub token : ℕ
  pub token_id : ℕ
  pub user_id : ℕ

pub record TokenPair : Type 0 where
  pub access_token : ℕ
  pub refresh_token : ℕ

-- `toPublicUser` selects columns of the row, which stands for them.
pub record Session : Type 0 where
  pub tokens : TokenPair
  pub user : Account

abbrev pub unauthorized {ℓ} : {A : Type ℓ} → Message → Result A
unauthorized m = err (app (unauthorized_error m))

-- `if (!row) throw new UnauthorizedError(…)`
abbrev pub or_unauthorized {ℓ} : {A : Type ℓ} → Option A → Message → Result A
or_unauthorized none m = unauthorized m
or_unauthorized (some a) m = ok a

abbrev pub audit : AuthEvent → AuthDb → AuthDb
audit e db = record db { audit_logs = db.audit_logs ++ e ∷ [] }

-- `.trim()`
abbrev pub trim : Text → Text
trim t = trim_end (trim_start t)

-- `.slice(0, n)`
abbrev pub slice : ℕ → Text → Text
slice zero t = []
slice (suc n) [] = []
slice (suc n) (c ∷ cs) = c ∷ slice n cs

-- 30 days and 15 minutes, in milliseconds.
abbrev pub session_ms : ℕ
session_ms = 30 * 24 * 60 * 60 * 1000

abbrev pub lock_ms : ℕ
lock_ms = 15 * 60 * 1000

abbrev pub new_token : Crypto → ℕ → Fresh → ℕ → Option Text → RefreshToken
new_token crypto now fresh user_id user_agent = record {
  id = fresh.token_id;
  user_id = user_id;
  token_hash = crypto.sha256_hex fresh.token;
  expires_at = now + session_ms;
  revoked_at = none;
  replaced_by = none;
  user_agent = option_map (slice 200) user_agent;
  created_at = now;
}

-- An insert fails on the primary key or on the unique hash.
unfoldable pub insert_token : RefreshToken → List RefreshToken → Option (List RefreshToken)
insert_token t tokens =
    some_when (not (any (λ u. u.id == t.id || u.token_hash == t.token_hash) tokens))
      (tokens ++ t ∷ [])

abbrev pub token_pair : Crypto → Fresh → Account → TokenPair
token_pair crypto fresh user = record {
  access_token = crypto.sign_access_token user;
  refresh_token = fresh.token;
}
