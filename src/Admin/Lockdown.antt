-- ===== src/Admin/Lockdown.antt =====
-- services/user-admin.service.ts `setDisabled`, `softDelete`, with `login` and `refresh` of
-- services/auth.service.ts: a closed account gets no session.
use ufcim_backend_proto.Prelude.{
  ℕ, ◌≡◌, refl, sym, ◌∙◌, ap, Bool, true, false, ◌&&◌, Option, none, some, List, [], ◌∷◌, ◌==◌,
  arith, find, find-All, is_some, ltb, All, All-intro, update_where, Bool-cases, Option-cases, inl,
  inr,
}
use ufcim_backend_proto.Errors.{
  Result, ok, err, is_ok, Result-cases, ◌>>=◌, ◌>>◌, >>=-eq-ok, throw_if, throw_if-eq-ok,
  unauthorized_error, account_disabled, account_locked, bad_credentials,
}
use ufcim_backend_proto.Schedule.Times.{Text, text_eq}
use ufcim_backend_proto.Auth.{
  Account, UserCredentials, RefreshToken, AuthDb, Crypto, Fresh, Session, or_unauthorized, trim,
  unauthorized,
}
use ufcim_backend_proto.Auth.Login.{
  finish_login, LoginInput, login, admit_login, find_credentials, is_locked,
}
use ufcim_backend_proto.Auth.Refresh.{reuse, RefreshInput, refresh, by_hash, admit_refresh}
use mathlib.Core.Bool.{false≢true}
use ufcim_backend_proto.Invitation.{AdminDb}
use ufcim_backend_proto.Admin.{
  find_ordinary, set_disabled, set_disabled_at, soft_delete, admit_delete, set_deleted,
}

-- Every account of that identifier is disabled.
abbrev pub IsClosed : ℕ → AuthDb → Type 0
IsClosed id accounts = All (λ u. u.id == id ≡ true → is_some u.disabled_at ≡ true) accounts.users

All-closing :
    (id : ℕ) (f : Account → Account) (users : List Account)
    → ((u : Account) → is_some (f u).disabled_at ≡ true)
    → All
        (λ u. u.id == id ≡ true → is_some u.disabled_at ≡ true)
        (update_where (λ u. u.id == id) f users)
All-closing id f [] closes = tt
All-closing id f (u ∷ us) closes = elim (Bool-cases (u.id == id)) [
  | inl own ↦ rw own ((λ h. closes u), All-closing id f us closes)
  | inr other ↦ rw other ((λ h. absurd (false≢true (sym other ∙ h))), All-closing id f us closes)
]

or_unauthorized-eq {ℓ} :
    {A : Type ℓ} (o : Option A) {a : A} → or_unauthorized o bad_credentials ≡ ok a → o ≡ some a
or_unauthorized-eq none h = cc
or_unauthorized-eq (some b) h = cc

from_ok {ℓ} : {A : Type ℓ} {a b : A} → ok a ≡ ok b → a ≡ b
from_ok h = cc

fst_ok : {x y : Account × UserCredentials} → ok x ≡ ok y → x.0 ≡ y.0
fst_ok h = ap (λ (z : Account × UserCredentials). z.0) (from_ok h)

-- The account that a login admits is enabled.
admitted-enabled :
    (crypto : Crypto) (now : ℕ) (db : AuthDb) (email : Text) {u : Account} {c : UserCredentials}
    → admit_login crypto now db email ≡ ok (u, c)
    → (find (λ u. text_eq u.email (crypto.to_lower_case (trim email))) db.users ≡ some u)
      × (is_some u.disabled_at ≡ false)
unfolding admit_login
admitted-enabled crypto now db email {u} {c} h =
    let address = crypto.to_lower_case (trim email) in
    let (v, got, rest) =
      >>=-eq-ok (or_unauthorized (find (λ u. text_eq u.email address) db.users) bad_credentials) _
        h in
    let (enabled, more) =
      throw_if-eq-ok (is_some v.disabled_at) (unauthorized_error account_disabled)
        (or_unauthorized (find_credentials db v.id) bad_credentials >>= λ k.
          throw_if (is_locked now k) (unauthorized_error account_locked) >> ok (v, k))
        rest in
    let (k, _, last) =
      >>=-eq-ok (or_unauthorized (find_credentials db v.id) bad_credentials) _ more in
    let (_, end) =
      throw_if-eq-ok (is_locked now k) (unauthorized_error account_locked) (ok (v, k)) last in
    let same : v ≡ u = fst_ok end in
    (
      or_unauthorized-eq (find (λ u. text_eq u.email address) db.users) got ∙ ap (λ z. some z) same,
      ap (λ (z : Account). is_some z.disabled_at) (sym same) ∙ enabled,
    )

-- A session is of the account that was admitted.
finish-user :
    (crypto : Crypto) (fresh : Fresh) (user : Account) (db : AuthDb)
    (o : Option (List RefreshToken)) {s : Session}
    → (finish_login crypto fresh user db o).0 ≡ ok s
    → s.user ≡ user
finish-user crypto fresh user db none h = cc
finish-user crypto fresh user db (some tokens) {s} h =
    ap (λ (z : Session). z.user) (sym (from_ok h))

login-user :
    (crypto : Crypto) (now : ℕ) (fresh : Fresh) (input : LoginInput) (db : AuthDb) {s : Session}
    → (login crypto now fresh input db).0 ≡ ok s
    → (c : UserCredentials) × (admit_login crypto now db input.email ≡ ok (s.user, c))
unfolding login
login-user crypto now fresh input db {s} h =
    elim (Result-cases (admit_login crypto now db input.email)) [
      | inr (e, bad) ↦ let gone : err e ≡ ok s = rw bad at h in cc
      | inl ((u, c), good) ↦
          elim (Bool-cases (crypto.verify_password input.password c.password_hash)) [
            | inr wrong ↦
                let gone : unauthorized bad_credentials ≡ ok s = rw (good, wrong) at h in cc
            | inl right ↦
                let same : s.user ≡ u = finish-user crypto fresh u _ _ (rw (good, right) at h) in
                (c, good ∙ ap (λ z. ok (z, c)) (sym same))
          ]
    ]

closed-enabled :
    (id : ℕ) (q : Account → Bool) (db : AuthDb) {u : Account}
    → IsClosed id db
    → find q db.users ≡ some u
    → is_some u.disabled_at ≡ false
    → u.id == id ≡ false
closed-enabled id q db {u} closed found enabled =
    let (shut, _) =
      find-All (λ u. u.id == id ≡ true → is_some u.disabled_at ≡ true) q db.users closed found in
    elim (Bool-cases (u.id == id)) [
      | inr other ↦ other
      | inl own ↦ absurd (false≢true (sym enabled ∙ shut own))
    ]

login-IsClosed :
    (id : ℕ) (crypto : Crypto) (now : ℕ) (fresh : Fresh) (input : LoginInput) (db : AuthDb)
    {s : Session}
    → IsClosed id db
    → (login crypto now fresh input db).0 ≡ ok s
    → s.user.id == id ≡ false
login-IsClosed id crypto now fresh input db {s} closed h =
    let (c, admitted) = login-user crypto now fresh input db h in
    let (found, enabled) = admitted-enabled crypto now db input.email admitted in
    closed-enabled id (λ u. text_eq u.email (crypto.to_lower_case (trim input.email))) db closed
      found enabled

-- A token of a closed account is not admitted.
admit_refresh-IsClosed :
    (id now : ℕ) (db : AuthDb) (t : RefreshToken)
    → IsClosed id db
    → t.user_id == id ≡ true
    → is_ok (admit_refresh now db t) ≡ false
unfolding admit_refresh
admit_refresh-IsClosed id now db t closed own = elim (Bool-cases (ltb t.expires_at now)) [
  | inl expired ↦ rw expired refl
  | inr live ↦ elim (Option-cases (find (λ u. u.id == t.user_id) db.users)) [
    | inl absent ↦ rw (live, absent) refl
    | inr (u, there) ↦ elim (Bool-cases (is_some u.disabled_at)) [
      | inl shut ↦ rw (live, there, shut) refl
      | inr enabled ↦
          let same : u.id == t.user_id ≡ true =
            (find-All (λ x. x.id ≡ x.id) (λ u. u.id == t.user_id) db.users
              (All-intro (λ x. x.id ≡ x.id) db.users (λ x. refl)) there).1 in
          let other = closed-enabled id (λ u. u.id == t.user_id) db closed there enabled in
          absurd (ground (arith, same, own, other))
    ]
  ]
]

reuse-fails :
    (t : RefreshToken) (db : AuthDb) (o : Option (List RefreshToken))
    → is_ok (reuse t db o).0 ≡ false
reuse-fails t db none = refl
reuse-fails t db (some tokens) = refl

refresh-IsClosed :
    (id : ℕ) (crypto : Crypto) (now : ℕ) (fresh : Fresh) (input : RefreshInput) (db : AuthDb)
    (t : RefreshToken)
    → IsClosed id db
    → by_hash (crypto.sha256_hex input.refresh_token) db.refresh_tokens ≡ some t
    → t.user_id == id ≡ true
    → is_ok (refresh crypto now fresh input db).0 ≡ false
unfolding refresh
refresh-IsClosed id crypto now fresh input db t closed found own =
    elim (Bool-cases (is_some t.revoked_at)) [
      | inl revoked ↦ rw (found, revoked) (reuse-fails t _ _)
      | inr live ↦ elim (Result-cases (admit_refresh now db t)) [
        | inr (e, bad) ↦ rw (found, live, bad) refl
        | inl (u, good) ↦
            let shut : is_ok (admit_refresh now db t) ≡ false =
              admit_refresh-IsClosed id now db t closed own in
            absurd (false≢true (sym shut ∙ ap (λ r. is_ok r) good))
      ]
    ]

-- The account is closed, by disabling or by deleting it.
pub data Closes (now id : ℕ) (db : AdminDb) : AdminDb → Type 0 where
  by_disabling :
      (actor : ℕ) {u : Account}
      → (set_disabled now actor id true db).0 ≡ ok u
      → Closes now id db (set_disabled now actor id true db).1
  by_deleting :
      (actor : ℕ)
      → (soft_delete now actor id db).0 ≡ ok tt
      → Closes now id db (soft_delete now actor id db).1

disabled-IsClosed :
    (now actor id : ℕ) (db : AdminDb) {u : Account}
    → (set_disabled now actor id true db).0 ≡ ok u
    → IsClosed id (set_disabled now actor id true db).1.accounts
unfolding set_disabled
disabled-IsClosed now actor id db {u} h = elim (Result-cases (find_ordinary id db)) [
  | inr (e, bad) ↦ let gone : err e ≡ ok u = rw bad at h in cc
  | inl (v, good) ↦
      rw good (All-closing id (set_disabled_at now true) db.accounts.users (λ x. refl))
]

deleted-IsClosed :
    (now actor id : ℕ) (db : AdminDb)
    → (soft_delete now actor id db).0 ≡ ok tt
    → IsClosed id (soft_delete now actor id db).1.accounts
unfolding soft_delete
deleted-IsClosed now actor id db h = elim (Result-cases (admit_delete actor id db)) [
  | inr (e, bad) ↦ let gone : err e ≡ ok tt = rw bad at h in cc
  | inl (v, good) ↦ rw good (All-closing id (set_deleted now) db.accounts.users (λ x. refl))
]

Closes-IsClosed : {now id : ℕ} {db db' : AdminDb} → Closes now id db db' → IsClosed id db'.accounts
Closes-IsClosed {now} {id} {db} (by_disabling actor h) = disabled-IsClosed now actor id db h
Closes-IsClosed {now} {id} {db} (by_deleting actor h) = deleted-IsClosed now actor id db h

-- A login that opens a session of that account.
abbrev pub opens : ℕ → Result Session → Bool
opens id (ok s) = s.user.id == id
opens id (err e) = false

opens-false :
    (id : ℕ) (r : Result Session)
    → ((s : Session) → r ≡ ok s → s.user.id == id ≡ false)
    → opens id r ≡ false
opens-false id (ok s) h = h s refl
opens-false id (err e) h = refl

abbrev pub is_token_of : ℕ → Option RefreshToken → Bool
is_token_of id none = false
is_token_of id (some t) = t.user_id == id

refresh-own :
    (id : ℕ) (crypto : Crypto) (now : ℕ) (fresh : Fresh) (input : RefreshInput) (db : AuthDb)
    → IsClosed id db
    → (is_token_of id (by_hash (crypto.sha256_hex input.refresh_token) db.refresh_tokens)
        && is_ok (refresh crypto now fresh input db).0)
      ≡ false
refresh-own id crypto now fresh input db closed =
    elim (Option-cases (by_hash (crypto.sha256_hex input.refresh_token) db.refresh_tokens)) [
      | inl absent ↦ rw absent refl
      | inr (t, found) ↦ elim (Bool-cases (t.user_id == id)) [
        | inr other ↦ rw (found, other) refl
        | inl own ↦
            rw (found, own) (refresh-IsClosed id crypto now fresh input db t closed found own)
      ]
    ]

-- When an account has been disabled or deleted: from the tables this leaves, a login at any time, with
-- any address and password, opens no session of that account, and no refresh with a token of its user,
-- revoked or not, succeeds.
pub Closes-locks_out :
    {now id : ℕ} {db db' : AdminDb} (crypto : Crypto) (later : ℕ) (fresh : Fresh)
    (input : LoginInput) (again : RefreshInput)
    → Closes now id db db'
    → (opens id (login crypto later fresh input db'.accounts).0 ≡ false)
      × ((is_token_of id
              (by_hash (crypto.sha256_hex again.refresh_token) db'.accounts.refresh_tokens)
            && is_ok (refresh crypto later fresh again db'.accounts).0)
          ≡ false)
Closes-locks_out {now} {id} {db} {db'} crypto later fresh input again c = (
  opens-false id (login crypto later fresh input db'.accounts).0
      (λ s h. login-IsClosed id crypto later fresh input db'.accounts (Closes-IsClosed c) h),
  refresh-own id crypto later fresh again db'.accounts (Closes-IsClosed c),
)
