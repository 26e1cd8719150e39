-- ===== src/Auth/Login.antt =====
-- services/auth.service.ts `login`, `issueTokenPair`
use ufcim_backend_proto.Prelude.{
  ℕ, ◌+◌, Bool, true, false, Option, none, some, ◌==◌, ltb, leb, if◌then◌else◌, find, is_some,
  update_where, List,
}
use ufcim_backend_proto.Errors.{
  Result, ok, err, internal, ◌>>=◌, ◌>>◌, throw_if, unauthorized_error, bad_credentials,
  account_disabled, account_locked,
}
use ufcim_backend_proto.Schedule.Times.{Text, text_eq}
use ufcim_backend_proto.Auth.{
  Account, UserCredentials, RefreshToken, login_failed, login_success, AuthDb, Crypto, Fresh,
  Session, unauthorized, or_unauthorized, audit, trim, lock_ms, new_token, insert_token, token_pair,
}

pub record LoginInput : Type 0 where
  pub email : Text
  pub password : ℕ
  pub user_agent : Option Text

-- `lockedUntil && lockedUntil > now`
abbrev pub is_locked : ℕ → UserCredentials → Bool
is_locked now c = elim c.locked_until [ none ↦ false | some t ↦ ltb now t ]

abbrev pub find_credentials : AuthDb → ℕ → Option UserCredentials
find_credentials db user_id = find (λ c. c.user_id == user_id) db.user_credentials

unfoldable pub admit_login : Crypto → ℕ → AuthDb → Text → Result (Account × UserCredentials)
admit_login crypto now db email = do
  user ←
      or_unauthorized (find (λ u. text_eq u.email (crypto.to_lower_case (trim email))) db.users)
        bad_credentials
  throw_if (is_some user.disabled_at) (unauthorized_error account_disabled)
  creds ← or_unauthorized (find_credentials db user.id) bad_credentials
  throw_if (is_locked now creds) (unauthorized_error account_locked)
  ok (user, creds)

-- The fifth failure locks the account and starts the count again.
abbrev pub after_failure : ℕ → ℕ → UserCredentials → UserCredentials
after_failure now attempts c =
    if leb 5 attempts
    then record c { failed_attempts = 0; locked_until = some (now + lock_ms) }
    else record c { failed_attempts = attempts }

abbrev pub set_credentials : ℕ → (UserCredentials → UserCredentials) → AuthDb → AuthDb
set_credentials user_id f db = record db {
  user_credentials = update_where (λ c. c.user_id == user_id) f db.user_credentials;
}

abbrev pub fail_login : ℕ → Account → UserCredentials → AuthDb → AuthDb
fail_login now user creds db =
    audit (login_failed user.id user.id)
      (set_credentials user.id (after_failure now (creds.failed_attempts + 1)) db)

abbrev pub clear_failures : UserCredentials → UserCredentials
clear_failures c = record c { failed_attempts = 0; locked_until = none }

abbrev pub finish_login :
    Crypto → Fresh → Account → AuthDb → Option (List RefreshToken) → Result Session × AuthDb
finish_login crypto fresh user db none = (err internal, db)
finish_login crypto fresh user db (some tokens) = (
  ok (record { tokens = token_pair crypto fresh user; user = user }),
  audit (login_success user.id user.id) (record db { refresh_tokens = tokens }),
)

-- The session's token is stored after the failures are cleared.
abbrev pub pass_login :
    Crypto → ℕ → Fresh → Option Text → Account → AuthDb → Result Session × AuthDb
pass_login crypto now fresh user_agent user db =
    finish_login crypto fresh user db
      (insert_token (new_token crypto now fresh user.id user_agent) db.refresh_tokens)

abbrev try_password :
    Crypto
    → ℕ
    → Fresh
    → LoginInput
    → AuthDb
    → Account
    → UserCredentials
    → Bool
    → Result Session × AuthDb
try_password crypto now fresh input db user creds true =
    pass_login crypto now fresh input.user_agent user (set_credentials user.id clear_failures db)
try_password crypto now fresh input db user creds false =
    (unauthorized bad_credentials, fail_login now user creds db)

abbrev run_login :
    Crypto
    → ℕ
    → Fresh
    → LoginInput
    → AuthDb
    → Result (Account × UserCredentials)
    → Result Session × AuthDb
run_login crypto now fresh input db (err e) = (err e, db)
run_login crypto now fresh input db (ok (user, creds)) =
    try_password crypto now fresh input db user creds
      (crypto.verify_password input.password creds.password_hash)

unfoldable pub login : Crypto → ℕ → Fresh → LoginInput → AuthDb → Result Session × AuthDb
login crypto now fresh input db =
    run_login crypto now fresh input db (admit_login crypto now db input.email)
