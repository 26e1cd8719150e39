-- ===== src/Auth/Lockout.antt =====
-- services/auth.service.ts `login`: five wrong passwords in a row lock the account.
use ufcim_backend_proto.Prelude.{
  ℕ, ◌+◌, ◌<◌, ◌≡◌, refl, ap, ◌∙◌, true, false, none, some, List, [], ◌∷◌, arith, ◌==◌, find,
  find-All, is_some, All, All-intro, length, find-update_where,
}
use ufcim_backend_proto.Errors.{account_locked}
use ufcim_backend_proto.Schedule.Times.{Text, text_eq}
use ufcim_backend_proto.Auth.{
  Account, UserCredentials, AuthDb, Crypto, Fresh, unauthorized, trim, lock_ms,
}
use ufcim_backend_proto.Auth.Login.{
  LoginInput, is_locked, find_credentials, admit_login, after_failure, login,
}

pub record Attempt : Type 0 where
  pub now : ℕ
  pub fresh : Fresh
  pub input : LoginInput

-- The tables after the attempts, one after the other.
abbrev pub after : Crypto → List Attempt → AuthDb → AuthDb
after crypto [] db = db
after crypto (a ∷ rest) db = after crypto rest (login crypto a.now a.fresh a.input db).1

-- A wrong password for the e-mail address, as typed.
abbrev pub IsWrong : Crypto → Text → ℕ → Attempt → Type 0
IsWrong crypto email hash a =
    (a.input.email ≡ email) × (crypto.verify_password a.input.password hash ≡ false)

-- The address belongs to an enabled account with these credentials.
pub record Holds (crypto : Crypto) (db : AuthDb) (email : Text) (user : Account)
    (c : UserCredentials) : Type 0 where
  pub user_found :
      find (λ u. text_eq u.email (crypto.to_lower_case (trim email))) db.users ≡ some user
  pub is_enabled : is_some user.disabled_at ≡ false
  pub credentials_found : find_credentials db user.id ≡ some c

after_failure-user_id :
    (now attempts : ℕ) (c : UserCredentials) → (after_failure now attempts c).user_id ≡ c.user_id
after_failure-user_id now attempts c = ground arith

is_locked-none : (now : ℕ) (c : UserCredentials) → c.locked_until ≡ none → is_locked now c ≡ false
is_locked-none now c free = rw free refl

is_locked-fifth :
    (now later : ℕ) (c : UserCredentials)
    → c.failed_attempts ≡ 4
    → later < now + lock_ms
    → is_locked later (after_failure now (c.failed_attempts + 1) c) ≡ true
is_locked-fifth now later c four soon = ground arith

module _ (crypto : Crypto) (email : Text) (user : Account) where
  credentials-own :
      (db : AuthDb) (c : UserCredentials)
      → find_credentials db user.id ≡ some c
      → (c.user_id == user.id) ≡ true
  credentials-own db c found =
      (find-All (λ x. x.user_id ≡ x.user_id) (λ x. x.user_id == user.id) db.user_credentials
        (All-intro (λ x. x.user_id ≡ x.user_id) db.user_credentials (λ x. refl)) found).1

  Holds-login :
      (db : AuthDb) (c : UserCredentials) (a : Attempt)
      → Holds crypto db email user c
      → is_locked a.now c ≡ false
      → IsWrong crypto email c.password_hash a
      → Holds crypto
          (login crypto a.now a.fresh a.input db).1
          email
          user
          (after_failure a.now (c.failed_attempts + 1) c)
  unfolding login admit_login
  Holds-login db c a h free (typed, wrong) =
      rw (typed, h.user_found, h.is_enabled, h.credentials_found, free, wrong)
        (record {
          user_found = h.user_found;
          is_enabled = h.is_enabled;
          credentials_found =
              find-update_where (λ x. x.user_id == user.id) (λ x. x.user_id == user.id)
                (after_failure a.now (c.failed_attempts + 1))
                (λ x. rw (after_failure-user_id a.now (c.failed_attempts + 1) x) refl)
                db.user_credentials h.credentials_found (credentials-own db c h.credentials_found);
        })

  login-locked :
      (db : AuthDb) (c : UserCredentials) (a : Attempt)
      → Holds crypto db email user c
      → is_locked a.now c ≡ true
      → a.input.email ≡ email
      → login crypto a.now a.fresh a.input db ≡ (unauthorized account_locked, db)
  unfolding login admit_login
  login-locked db c a h locked typed =
      rw (typed, h.user_found, h.is_enabled, h.credentials_found, locked) refl

  -- Below five failures, each wrong password counts.
  Holds-after :
      (attempts : List Attempt) (db : AuthDb) (c : UserCredentials)
      → Holds crypto db email user c
      → c.locked_until ≡ none
      → c.failed_attempts + length attempts < 5
      → All (IsWrong crypto email c.password_hash) attempts
      → (c' : UserCredentials) × Holds crypto (after crypto attempts db) email user c'
        × (c'.locked_until ≡ none)
        × (c'.failed_attempts ≡ c.failed_attempts + length attempts)
        × (c'.password_hash ≡ c.password_hash)
  Holds-after [] db c h free few wrong = (c, h, free, omega arith, refl)
  Holds-after (a ∷ rest) db c h free few (w, wrong) =
      let step : after_failure a.now (c.failed_attempts + 1) c
          ≡ record c { failed_attempts = c.failed_attempts + 1 } =
        ground arith in
      let h' = Holds-login db c a h (is_locked-none a.now c free) w in
      let (c', held, free', count, hash) =
        Holds-after rest (login crypto a.now a.fresh a.input db).1
          (record c { failed_attempts = c.failed_attempts + 1 }) (rw step at h') free (omega arith)
          wrong in
      (c', held, free', omega (arith, count), hash)

-- Five wrong passwords in a row lock an account that had no failure: every login that follows
-- within fifteen minutes of the last of them is refused, with the right password too, and changes
-- nothing.
pub login-lockout :
    (crypto : Crypto) (email : Text) (user : Account) (c : UserCredentials) (db : AuthDb)
    (earlier : List Attempt) (fifth next : Attempt)
    → Holds crypto db email user c
    → c.locked_until ≡ none
    → c.failed_attempts ≡ 0
    → length earlier ≡ 4
    → All (IsWrong crypto email c.password_hash) earlier
    → IsWrong crypto email c.password_hash fifth
    → next.input.email ≡ email
    → next.now < fifth.now + lock_ms
    → let db' = (login crypto fifth.now fifth.fresh fifth.input (after crypto earlier db)).1 in
      login crypto next.now next.fresh next.input db' ≡ (unauthorized account_locked, db')
login-lockout crypto email user c db earlier fifth next h free none_yet four wrong (typed, fails)
      again soon =
    let (c', held, free', count, hash) =
      Holds-after crypto email user earlier db c h free (omega arith) wrong in
    let held' =
      Holds-login crypto email user (after crypto earlier db) c' fifth held
        (is_locked-none fifth.now c' free')
        (typed, ap (λ (p : ℕ). crypto.verify_password fifth.input.password p) hash ∙ fails) in
    login-locked crypto email user
      (login crypto fifth.now fifth.fresh fifth.input (after crypto earlier db)).1
      (after_failure fifth.now (c'.failed_attempts + 1) c') next held'
      (is_locked-fifth fifth.now next.now c' (omega (arith, count)) soon) again
