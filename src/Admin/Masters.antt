-- ===== src/Admin/Masters.antt =====
-- services/user-admin.service.ts: the account of a master administrator.
use ufcim_backend_proto.Prelude.{
  ℕ, ◌≡◌, refl, sym, ◌∙◌, ap, Bool, true, false, not, Option, none, some, [], ◌∷◌, ◌==◌, find,
  find-append, find-update_kind, any, Bool-cases, Option-cases, inl, inr,
}
use ufcim_backend_proto.Errors.{
  Result, ok, err, Result-cases, >>=-eq-ok, throw_if-eq-ok, forbidden_error, master_admin_protected,
  only_master_admin, own_account, throw_if, ◌>>◌, ◌>>=◌,
}
use ufcim_backend_proto.Reservation.Guards.{found}
use ufcim_backend_proto.Schema.{UserRole}
use ufcim_backend_proto.Schedule.Times.{Text}
use ufcim_backend_proto.Auth.{Account, Crypto, Fresh}
use ufcim_backend_proto.Auth.Invitations.{AcceptInput, accept_invitation}
use ufcim_backend_proto.Invitation.{AdminDb, Env, InvitationRequest}
use ufcim_backend_proto.Invitation.Sending.{
  Sent, FreshInvitation, CreateInvitationInput, revoke, resend, create_invitation, normalized,
}
use ufcim_backend_proto.Invitation.Reviewing.{
  ApproveInput, request, admit_request, insert_request, approve, invitation_for, finish_approve,
  reject, load_pending,
}
use ufcim_backend_proto.Admin.{
  find_account, find_ordinary, change_role, set_role, set_disabled, set_disabled_at, reset_password,
  reset_input, finish_reset, soft_delete, admit_delete, set_deleted, revoke_all_sessions,
  write_account, revoke_if,
}
use ufcim_backend_proto.Admin.Steps.{
  with_accounts, Step, invites, revokes, resends, requests, approves, rejects, changes_role,
  disables, resets, deletes, ends_sessions, accepts, Reach, here, next,
}
use ufcim_backend_proto.Admin.Effects.{
  IsAlike, create_invitation-IsAlike, revoke-IsAlike, resend-IsAlike, accept_invitation-effect,
  refused, accepted_only, opened,
}

-- The account of that identifier is this one, of a master administrator.
abbrev pub IsMaster : ℕ → Account → AdminDb → Type 0
IsMaster id a db = (find_account id db ≡ some a) × (a.is_master_admin ≡ true)

pub found-eq {ℓ} : {A : Type ℓ} (o : Option A) {a : A} → found o ≡ ok a → o ≡ some a
found-eq none h = cc
found-eq (some b) h = cc

ordinary :
    (id : ℕ) (db : AdminDb) {u : Account}
    → find_ordinary id db ≡ ok u
    → (find_account id db ≡ some u) × (u.is_master_admin ≡ false)
unfolding find_ordinary
ordinary id db {u} h =
    let (v, got, rest) = >>=-eq-ok (found (find_account id db)) _ h in
    let (plain, last) =
      throw_if-eq-ok v.is_master_admin (forbidden_error master_admin_protected) (ok v) rest in
    let same : v ≡ u = cc in
    (
      found-eq (find_account id db) (got ∙ ap (λ (z : Account). ok z) same),
      ap (λ (z : Account). z.is_master_admin) (sym same) ∙ plain,
    )

deletable :
    (actor id : ℕ) (db : AdminDb) {u : Account}
    → admit_delete actor id db ≡ ok u
    → (find_account id db ≡ some u) × (u.is_master_admin ≡ false)
unfolding admit_delete
deletable actor id db {u} h =
    let (a, got_a, rest) = >>=-eq-ok (found (find_account actor db)) _ h in
    let (master, more) =
      throw_if-eq-ok (not a.is_master_admin) (forbidden_error only_master_admin)
        (found (find_account id db) >>= λ v.
          throw_if v.is_master_admin (forbidden_error master_admin_protected)
          >> (throw_if (actor == id) (forbidden_error own_account) >> ok v))
        rest in
    let (v, got, rest2) = >>=-eq-ok (found (find_account id db)) _ more in
    let (plain, rest3) =
      throw_if-eq-ok v.is_master_admin (forbidden_error master_admin_protected)
        (throw_if (actor == id) (forbidden_error own_account) >> ok v) rest2 in
    let (other, last) = throw_if-eq-ok (actor == id) (forbidden_error own_account) (ok v) rest3 in
    let same : v ≡ u = cc in
    (
      found-eq (find_account id db) (got ∙ ap (λ (z : Account). ok z) same),
      ap (λ (z : Account). z.is_master_admin) (sym same) ∙ plain,
    )

module _ (id : ℕ) (a : Account) where
  -- A write to an ordinary account.
  write-IsMaster :
      (w : ℕ) (f : Account → Account) (db : AdminDb) {u : Account}
      → ((x : Account) → (f x).id ≡ x.id)
      → (find_account w db ≡ some u) × (u.is_master_admin ≡ false)
      → IsMaster id a db
      → IsMaster id a (write_account w f db)
  write-IsMaster w f db keeps (there, plain) (h, t) = (
    find-update_kind (λ (u : Account). u.id) f keeps (λ (u : Account). u.is_master_admin) id w
        db.accounts.users h t there plain,
    t,
  )

  alike-IsMaster : (db db' : AdminDb) → IsAlike db db' → IsMaster id a db → IsMaster id a db'
  alike-IsMaster db db' (same, _) (h, t) = (ap (find (λ u. u.id == id)) same ∙ h, t)

  create-IsMaster :
      (env : Env) (crypto : Crypto) (now : ℕ) (fresh : FreshInvitation)
      (input : CreateInvitationInput) (db : AdminDb)
      → IsMaster id a db
      → IsMaster id a (create_invitation env crypto now fresh input db).1
  create-IsMaster env crypto now fresh input db m =
      alike-IsMaster db (create_invitation env crypto now fresh input db).1
        (create_invitation-IsAlike env crypto now fresh input db) m

  change_role-IsMaster :
      (now actor w : ℕ) (role : UserRole) (db : AdminDb)
      → IsMaster id a db
      → IsMaster id a (change_role now actor w role db).1
  unfolding change_role
  change_role-IsMaster now actor w role db m = elim (Result-cases (find_ordinary w db)) [
    | inr (e, bad) ↦ rw bad m
    | inl (u, good) ↦
        rw good (write-IsMaster w (set_role now role) db (λ x. refl) (ordinary w db good) m)
  ]

  revoke_if-IsMaster :
      (now w : ℕ) (disabled : Bool) (db : AdminDb)
      → IsMaster id a db
      → IsMaster id a (revoke_if now disabled w db)
  revoke_if-IsMaster now w true db m = m
  revoke_if-IsMaster now w false db m = m

  set_disabled-IsMaster :
      (now actor w : ℕ) (disabled : Bool) (db : AdminDb)
      → IsMaster id a db
      → IsMaster id a (set_disabled now actor w disabled db).1
  unfolding set_disabled
  set_disabled-IsMaster now actor w disabled db m = elim (Result-cases (find_ordinary w db)) [
    | inr (e, bad) ↦ rw bad m
    | inl (u, good) ↦ rw good (
        revoke_if-IsMaster now w disabled (write_account w (set_disabled_at now disabled) db)
          (write-IsMaster w (set_disabled_at now disabled) db (λ x. refl) (ordinary w db good) m))
  ]

  soft_delete-IsMaster :
      (now actor w : ℕ) (db : AdminDb)
      → IsMaster id a db
      → IsMaster id a (soft_delete now actor w db).1
  unfolding soft_delete
  soft_delete-IsMaster now actor w db m = elim (Result-cases (admit_delete actor w db)) [
    | inr (e, bad) ↦ rw bad m
    | inl (u, good) ↦
        rw good (write-IsMaster w (set_deleted now) db (λ x. refl) (deletable actor w db good) m)
  ]

  revoke_all-IsMaster :
      (now actor w : ℕ) (db : AdminDb)
      → IsMaster id a db
      → IsMaster id a (revoke_all_sessions now actor w db).1
  unfolding revoke_all_sessions
  revoke_all-IsMaster now actor w db m = elim (Option-cases (find_account w db)) [
    | inl absent ↦ rw absent m
    | inr (u, there) ↦ rw there m
  ]

  finish_reset-IsMaster :
      (actor w : ℕ) (sent : Result Sent × AdminDb)
      → IsMaster id a sent.1
      → IsMaster id a (finish_reset actor w sent).1
  finish_reset-IsMaster actor w (err e, db) m = m
  finish_reset-IsMaster actor w (ok sent, db) m = m

  reset-IsMaster :
      (env : Env) (crypto : Crypto) (now : ℕ) (fresh : FreshInvitation) (actor w : ℕ) (db : AdminDb)
      → IsMaster id a db
      → IsMaster id a (reset_password env crypto now fresh actor w db).1
  unfolding reset_password
  reset-IsMaster env crypto now fresh actor w db m = elim (Option-cases (find_account w db)) [
    | inl absent ↦ rw absent m
    | inr (u, there) ↦ rw there (
        finish_reset-IsMaster actor w
          (create_invitation env crypto now fresh (reset_input actor u) db)
          (create-IsMaster env crypto now fresh (reset_input actor u) db m))
  ]

  request-IsMaster :
      (env : Env) (crypto : Crypto) (now w name : ℕ) (email : Text) (db : AdminDb)
      → IsMaster id a db
      → IsMaster id a (request env crypto now w name email db).1
  unfolding request insert_request
  request-IsMaster env crypto now w name email db m =
      elim (Result-cases (admit_request env crypto now (normalized crypto email) db)) [
        | inr (e, bad) ↦ rw bad m
        | inl (admitted, good) ↦ elim (Bool-cases (any (λ s. s.id == w) db.requests)) [
          | inl taken ↦ rw (good, taken) m
          | inr new ↦ rw (good, new) m
        ]
      ]

  finish_approve-IsMaster :
      (now admin w : ℕ) (r : InvitationRequest) (sent : Result Sent × AdminDb)
      → IsMaster id a sent.1
      → IsMaster id a (finish_approve now admin w r sent).1
  finish_approve-IsMaster now admin w r (err e, db) m = m
  finish_approve-IsMaster now admin w r (ok sent, db) m = m

  approve-IsMaster :
      (env : Env) (crypto : Crypto) (now : ℕ) (fresh : FreshInvitation) (admin w : ℕ)
      (input : ApproveInput) (db : AdminDb)
      → IsMaster id a db
      → IsMaster id a (approve env crypto now fresh admin w input db).1
  unfolding approve
  approve-IsMaster env crypto now fresh admin w input db m =
      elim (Result-cases (load_pending w db)) [
        | inr (e, bad) ↦ rw bad m
        | inl (r, good) ↦ rw good (
            finish_approve-IsMaster now admin w r
              (create_invitation env crypto now fresh (invitation_for admin input r) db)
              (create-IsMaster env crypto now fresh (invitation_for admin input r) db m))
      ]

  reject-IsMaster :
      (now admin w : ℕ) (db : AdminDb) → IsMaster id a db → IsMaster id a (reject now admin w db).1
  unfolding reject
  reject-IsMaster now admin w db m = elim (Result-cases (load_pending w db)) [
    | inr (e, bad) ↦ rw bad m
    | inl (r, good) ↦ rw good m
  ]

  accept-IsMaster :
      (crypto : Crypto) (now : ℕ) (fresh : Fresh) (input : AcceptInput) (db : AdminDb)
      → IsMaster id a db
      → IsMaster id a (with_accounts db (accept_invitation crypto now fresh input db.accounts).1)
  accept-IsMaster crypto now fresh input db (h, t) =
      elim (accept_invitation-effect crypto now fresh input db.accounts) [
        | refused us is ↦ (ap (find (λ u. u.id == id)) us ∙ h, t)
        | accepted_only w user_id us is ↦ (ap (find (λ u. u.id == id)) us ∙ h, t)
        | opened w u us is ↦ (
          ap (find (λ u. u.id == id)) us
              ∙ find-append (λ u. u.id == id) db.accounts.users (u ∷ []) h,
          t,
        )
      ]

module _ {env : Env} {crypto : Crypto} {May : ℕ → ℕ → AdminDb → Type 0} (id : ℕ) (a : Account) where
  Step-IsMaster :
      {now : ℕ} {db db' : AdminDb}
      → Step env crypto May now db db'
      → IsMaster id a db
      → IsMaster id a db'
  Step-IsMaster (invites fresh input) m = create-IsMaster id a env crypto _ fresh input _ m
  Step-IsMaster {now} {db} (revokes actor w) m =
      alike-IsMaster id a db (revoke now actor w db).1 (revoke-IsAlike now actor w db) m
  Step-IsMaster {now} {db} (resends actor w token ttl_hours may) m =
      alike-IsMaster id a db (resend env crypto now actor w token ttl_hours db).1
        (resend-IsAlike env crypto now actor w token ttl_hours db) m
  Step-IsMaster (requests w name email) m = request-IsMaster id a env crypto _ w name email _ m
  Step-IsMaster (approves fresh admin w input) m =
      approve-IsMaster id a env crypto _ fresh admin w input _ m
  Step-IsMaster (rejects admin w) m = reject-IsMaster id a _ admin w _ m
  Step-IsMaster (changes_role actor w role) m = change_role-IsMaster id a _ actor w role _ m
  Step-IsMaster (disables actor w disabled) m = set_disabled-IsMaster id a _ actor w disabled _ m
  Step-IsMaster (resets fresh actor w) m = reset-IsMaster id a env crypto _ fresh actor w _ m
  Step-IsMaster (deletes actor w) m = soft_delete-IsMaster id a _ actor w _ m
  Step-IsMaster (ends_sessions actor w) m = revoke_all-IsMaster id a _ actor w _ m
  Step-IsMaster {now} {db} (accepts fresh input) m =
      accept-IsMaster id a crypto now fresh input db m

-- The account of a master administrator, with its role, and enabled or not as it is, is the same
-- after any requests of the administration: changes of role, disabling, resets, deletions, revoked
-- sessions, invitations and requests for them, by anyone, and invitations that are accepted.
pub Reach-IsMaster :
    {env : Env} {crypto : Crypto} {May : ℕ → ℕ → AdminDb → Type 0} {begin : ℕ} {start : AdminDb}
    (id : ℕ) (a : Account) {t : ℕ} {db : AdminDb}
    → Reach env crypto May begin start t db
    → IsMaster id a start
    → IsMaster id a db
Reach-IsMaster id a here m = m
Reach-IsMaster id a (next r le s) m = Step-IsMaster id a s (Reach-IsMaster id a r m)
