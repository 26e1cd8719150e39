-- ===== src/Auth/Invitations.antt =====
-- services/auth.service.ts `previewInvitation`, `acceptInvitation`
use ufcim_backend_proto.Prelude.{
  ℕ, Bool, true, false, not, ◌&&◌, ◌||◌, Option, none, some, List, [], ◌∷◌, ◌++◌, ◌==◌, ltb, find,
  any, is_some, or_else, first_some, some_when, update_where,
}
use ufcim_backend_proto.Errors.{
  Result, ok, err, internal, ◌>>=◌, ◌>>◌, throw_if, app_error, unauthorized_error, bad_invitation,
  no_such_user, registration_required, no_registration,
}
use ufcim_backend_proto.Texts.{non_empty}
use ufcim_backend_proto.Schedule.Times.{Text, text_eq}
use ufcim_backend_proto.Schema.{UserRole, student}
use ufcim_backend_proto.Auth.{
  Account, UserCredentials, RefreshToken, Invitation, InvitationPurpose, invite, reset,
  password_reset, invitation_accepted, AuthDb, Crypto, Fresh, Session, or_unauthorized, audit, trim,
  new_token, insert_token, token_pair,
}
use ufcim_backend_proto.Auth.Login.{set_credentials}

pub record AcceptInput : Type 0 where
  pub token : ℕ
  pub password : ℕ
  pub registration : Option Text
  pub user_agent : Option Text

-- The `valid` flag of the preview: not expired, accepted or revoked.
abbrev pub is_open : ℕ → Invitation → Bool
is_open now i = ltb now i.expires_at && (not (is_some i.accepted_at) && not (is_some i.revoked_at))

abbrev pub invitation_of : Crypto → AuthDb → ℕ → Option Invitation
invitation_of crypto db token = find (λ i. i.token_hash == crypto.sha256_hex token) db.invitations

-- What the public page shows of an invitation; `none` stands for the empty answer.
pub record Preview : Type 0 where
  pub email : Text
  pub name : ℕ
  pub role : UserRole
  pub department : ℕ
  pub inviter_name : Option ℕ
  pub expires_at : ℕ
  pub valid : Bool

abbrev name_of : Option Account → Option ℕ
name_of none = none
name_of (some u) = some u.name

abbrev preview_of : ℕ → AuthDb → Option Invitation → Option Preview
preview_of now db none = none
preview_of now db (some i) = some (record {
  email = i.email;
  name = i.name;
  role = i.role;
  department = i.department;
  inviter_name = name_of (find (λ u. u.id == i.invited_by) db.users);
  expires_at = i.expires_at;
  valid = is_open now i;
})

unfoldable pub preview_invitation : Crypto → ℕ → ℕ → AuthDb → Option Preview
preview_invitation crypto now token db = preview_of now db (invitation_of crypto db token)

abbrev pub valid_preview : Option Preview → Bool
valid_preview none = false
valid_preview (some p) = p.valid

abbrev pub set_accepted : ℕ → ℕ → Invitation → Invitation
set_accepted now user_id i = record i { accepted_at = some now; accepted_user_id = some user_id }

abbrev pub accept_row : ℕ → ℕ → ℕ → AuthDb → AuthDb
accept_row now id user_id db = record db {
  invitations = update_where (λ i. i.id == id) (set_accepted now user_id) db.invitations;
}

abbrev pub set_password : Crypto → ℕ → ℕ → UserCredentials → UserCredentials
set_password crypto now password c = record c {
  password_hash = crypto.hash_password password;
  password_updated_at = now;
  failed_attempts = 0;
  locked_until = none;
}

abbrev is_student : UserRole → Bool
is_student student = true
is_student _ = false

-- An empty text counts as absent.
abbrev present : Option Text → Option Text
present none = none
present (some t) = non_empty t

-- What the invitee typed, or what the administrator had set.
abbrev pub registration_for : AcceptInput → Invitation → Option Text
registration_for input i =
    first_some (non_empty (trim (or_else input.registration []))) (present i.registration)

abbrev pub new_account : ℕ → ℕ → Option Text → Invitation → Account
new_account now id registration i = record {
  id = id;
  name = i.name;
  registration = registration;
  role = i.role;
  department = i.department;
  email = i.email;
  is_master_admin = false;
  disabled_at = none;
  deleted_at = none;
  created_at = now;
  updated_at = now;
}

abbrev pub new_credentials : Crypto → ℕ → ℕ → ℕ → UserCredentials
new_credentials crypto now user_id password = record {
  user_id = user_id;
  password_hash = crypto.hash_password password;
  password_updated_at = now;
  failed_attempts = 0;
  locked_until = none;
}

abbrev same_text : Option Text → Option Text → Bool
same_text none b = false
same_text (some a) none = false
same_text (some a) (some b) = text_eq a b

-- The keys of `users` (identifier, e-mail, registration) and of `user_credentials`.
abbrev pub key_taken : Account → AuthDb → Bool
key_taken u db =
    any (λ v. v.id == u.id || (text_eq v.email u.email || same_text v.registration u.registration))
      db.users
    || any (λ c. c.user_id == u.id) db.user_credentials

-- The batch that opens the account, or writes nothing.
abbrev pub open_account : Crypto → ℕ → ℕ → Account → Invitation → AuthDb → Option AuthDb
open_account crypto now password u i db = some_when (not (key_taken u db)) (
    accept_row now i.id u.id (record db {
      users = db.users ++ u ∷ [];
      user_credentials = db.user_credentials ++ new_credentials crypto now u.id password ∷ [];
    }))

abbrev pub finish_accept :
    Crypto
    → ℕ
    → Fresh
    → InvitationPurpose
    → Invitation
    → Account
    → AuthDb
    → Option (List RefreshToken)
    → Result Session × AuthDb
finish_accept crypto now fresh purpose i u db none = (err internal, db)
finish_accept crypto now fresh reset i u db (some tokens) = (
  ok (record { tokens = token_pair crypto fresh u; user = u }),
  audit (password_reset u.id i.id) (record db { refresh_tokens = tokens }),
)
finish_accept crypto now fresh invite i u db (some tokens) = (
  ok (record { tokens = token_pair crypto fresh u; user = u }),
  audit (invitation_accepted u.id i.id) (record db { refresh_tokens = tokens }),
)

abbrev pub start_session :
    Crypto → ℕ → Fresh → AcceptInput → Invitation → Account → AuthDb → Result Session × AuthDb
start_session crypto now fresh input i u db =
    finish_accept crypto now fresh i.purpose i u db
      (insert_token (new_token crypto now fresh u.id input.user_agent) db.refresh_tokens)

abbrev accept_new :
    Crypto
    → ℕ
    → Fresh
    → AcceptInput
    → Invitation
    → Account
    → AuthDb
    → Option AuthDb
    → Result Session × AuthDb
accept_new crypto now fresh input i u db none = (err internal, db)
accept_new crypto now fresh input i u db (some opened) =
    start_session crypto now fresh input i u opened

-- The invitation, if it is still open.
unfoldable pub find_open : Crypto → ℕ → AcceptInput → AuthDb → Result Invitation
find_open crypto now input db = do
  throw_if (not (valid_preview (preview_invitation crypto now input.token db)))
      (unauthorized_error bad_invitation)
  or_unauthorized (invitation_of crypto db input.token) bad_invitation

-- Whose password is reset, or the account to open.
abbrev pub account_for :
    ℕ → Fresh → AcceptInput → AuthDb → Invitation → InvitationPurpose → Result Account
account_for now fresh input db i reset =
    or_unauthorized (find (λ u. text_eq u.email i.email) db.users) no_such_user
account_for now fresh input db i invite = do
  throw_if (is_student i.role && not (is_some (registration_for input i)))
      (app_error 422 registration_required no_registration)
  ok (new_account now fresh.user_id (registration_for input i) i)

unfoldable pub admit_accept :
    Crypto → ℕ → Fresh → AcceptInput → AuthDb → Result (Invitation × Account)
admit_accept crypto now fresh input db = do
  i ← find_open crypto now input db
  u ← account_for now fresh input db i i.purpose
  ok (i, u)

abbrev pub accept_for :
    Crypto
    → ℕ
    → Fresh
    → AcceptInput
    → AuthDb
    → Invitation
    → Account
    → InvitationPurpose
    → Result Session × AuthDb
accept_for crypto now fresh input db i u reset =
    start_session crypto now fresh input i u
      (accept_row now i.id u.id (set_credentials u.id (set_password crypto now input.password) db))
accept_for crypto now fresh input db i u invite =
    accept_new crypto now fresh input i u db (open_account crypto now input.password u i db)

abbrev run_accept :
    Crypto
    → ℕ
    → Fresh
    → AcceptInput
    → AuthDb
    → Result (Invitation × Account)
    → Result Session × AuthDb
run_accept crypto now fresh input db (err e) = (err e, db)
run_accept crypto now fresh input db (ok (i, u)) =
    accept_for crypto now fresh input db i u i.purpose

unfoldable pub accept_invitation :
    Crypto → ℕ → Fresh → AcceptInput → AuthDb → Result Session × AuthDb
accept_invitation crypto now fresh input db =
    run_accept crypto now fresh input db (admit_accept crypto now fresh input db)
