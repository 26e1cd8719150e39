-- ===== src/Tests/Sessions.antt =====
-- Logins, refresh tokens and invitations over small tables.
use ufcim_backend_proto.Prelude.{ℕ, ◌+◌, ◌≡◌, refl, false, none, some, List, [], ◌∷◌, arith, ◌==◌}
use ufcim_backend_proto.Errors.{token_reused, account_locked, bad_invitation}
use ufcim_backend_proto.Schedule.Times.{Text, text_eq}
use ufcim_backend_proto.Schema.{professor}
use ufcim_backend_proto.Texts.{trim_start, trim_end}
use ufcim_backend_proto.Auth.{
  Account, UserCredentials, RefreshToken, Invitation, invite, AuthDb, Crypto, Fresh, unauthorized,
  insert_token,
}
use ufcim_backend_proto.Auth.Login.{login}
use ufcim_backend_proto.Auth.Refresh.{RefreshInput, refresh, revoke_from, admit_refresh}
use ufcim_backend_proto.Auth.Invitations.{
  AcceptInput, accept_invitation, admit_accept, find_open, preview_invitation,
}
use ufcim_backend_proto.Auth.Lockout.{Attempt, after, login-lockout}
use ufcim_backend_proto.Auth.Chain.{revoke_from-ends}
use ufcim_backend_proto.Auth.Tokens.{stays, moves, is_live}
use ufcim_backend_proto.Auth.Rotation.{refresh-reuse, refresh-once}
use ufcim_backend_proto.Auth.Acceptance.{accept_invitation-once}

-- Functions that hide nothing, in place of the real ones.
abbrev pub plain : Crypto
plain = record {
  verify_password = λ p hash. p == hash;
  hash_password = λ p. p;
  sha256_hex = λ t. t;
  sign_access_token = λ u. u.id;
  to_lower_case = λ t. t;
}

abbrev pub address : Text
address = b'c' ∷ b'@' ∷ b'u' ∷ []

abbrev pub caio : Account
caio = record {
  id = 5;
  name = 1;
  registration = none;
  role = professor;
  department = 7;
  email = address;
  is_master_admin = false;
  disabled_at = none;
  deleted_at = none;
  created_at = 0;
  updated_at = 0;
}

abbrev secret : UserCredentials
secret = record {
  user_id = 5;
  password_hash = 99;
  password_updated_at = 0;
  failed_attempts = 0;
  locked_until = none;
}

abbrev pub token_of : ℕ → RefreshToken
token_of id = record {
  id = id;
  user_id = 5;
  token_hash = 20 + id;
  expires_at = 9000;
  revoked_at = none;
  replaced_by = none;
  user_agent = none;
  created_at = 0;
}

-- The first two tokens were used; they lead to the third.
abbrev used_chain : List RefreshToken
used_chain =
    record (token_of 1) { revoked_at = some 10; replaced_by = some 2 }
    ∷ record (token_of 2) { revoked_at = some 20; replaced_by = some 3 }
    ∷ token_of 3
    ∷ []

abbrev invitation : Invitation
invitation = record {
  id = 8;
  email = b'd' ∷ address;
  role = professor;
  name = 2;
  registration = none;
  department = 7;
  token_hash = 30;
  purpose = invite;
  invited_by = 5;
  expires_at = 9000;
  accepted_at = none;
  accepted_user_id = none;
  revoked_at = none;
}

abbrev pub campus : AuthDb
campus = record {
  users = caio ∷ [];
  user_credentials = secret ∷ [];
  refresh_tokens = used_chain;
  invitations = invitation ∷ [];
  audit_logs = [];
}

abbrev pub fresh_from : ℕ → Fresh
fresh_from n = record { token = 100 + n; token_id = 40 + n; user_id = 60 + n }

abbrev pub try_at : ℕ → ℕ → Attempt
try_at now password = record {
  now = now;
  fresh = fresh_from now;
  input = record { email = address; password = password; user_agent = none };
}

abbrev guesses : List Attempt
guesses = try_at 1 11 ∷ try_at 2 12 ∷ try_at 3 13 ∷ try_at 4 14 ∷ []

login-lockout_example :
    login plain 500
      (fresh_from 500)
      (try_at 500 99).input
      (after plain (try_at 5 15 ∷ []) (after plain guesses campus))
    ≡ (unauthorized account_locked, after plain (try_at 5 15 ∷ []) (after plain guesses campus))
unfolding text_eq trim_start trim_end
login-lockout_example =
    login-lockout plain address caio secret campus guesses (try_at 5 15) (try_at 500 99)
      (record { user_found = refl; is_enabled = refl; credentials_found = refl }) refl refl refl
      ((refl, refl), ((refl, refl), ((refl, refl), ((refl, refl), tt)))) (refl, refl) refl
      (omega arith)

revoke_from-ends_example :
    (tokens' : List RefreshToken) × (revoke_from 50 (some 2) used_chain ≡ some tokens')
    × (is_live tokens' 3 ≡ false)
revoke_from-ends_example = revoke_from-ends 50 2 3 used_chain (moves refl stays)

abbrev pub presented : ℕ → RefreshInput
presented token = record { refresh_token = token; user_agent = none }

refresh-reuse_example :
    ((refresh plain 50 (fresh_from 0) (presented 21) campus).0 ≡ unauthorized token_reused)
    × (is_live (refresh plain 50 (fresh_from 0) (presented 21) campus).1.refresh_tokens 3 ≡ false)
refresh-reuse_example =
    refresh-reuse plain 50 (fresh_from 0) (presented 21) campus refl refl refl (moves refl stays)

refresh-once_example :
    ((refresh plain 60
        (fresh_from 1)
        (presented 23)
        (refresh plain 50 (fresh_from 0) (presented 23) campus).1).0
      ≡ unauthorized token_reused)
    × (is_live
          (refresh plain 60
            (fresh_from 1)
            (presented 23)
            (refresh plain 50 (fresh_from 0) (presented 23) campus).1).1.refresh_tokens
          40
        ≡ false)
unfolding refresh admit_refresh insert_token
refresh-once_example =
    refresh-once plain 50 60 (fresh_from 0) (fresh_from 1) (presented 23) none campus refl

abbrev acceptance : AcceptInput
acceptance = record { token = 30; password = 77; registration = none; user_agent = none }

accept_invitation-once_example :
    accept_invitation plain 60
      (fresh_from 1)
      acceptance
      (accept_invitation plain 50 (fresh_from 0) acceptance campus).1
    ≡ (unauthorized bad_invitation, (accept_invitation plain 50 (fresh_from 0) acceptance campus).1)
unfolding accept_invitation admit_accept find_open preview_invitation text_eq trim_start trim_end
    insert_token
accept_invitation-once_example =
    accept_invitation-once plain 50 60 (fresh_from 0) (fresh_from 1) acceptance acceptance campus
      refl refl
