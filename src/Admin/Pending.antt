-- ===== src/Admin/Pending.antt =====
-- services/invitation.service.ts: when two pending invitations are for one address, and which writes
-- make no such two.
use ufcim_backend_proto.Prelude.{
  ℕ, ◌≡◌, refl, ◌≤◌, Bool, true, false, not, ◌&&◌, List, ◌==◌, arith, leb, any, any-eq-false,
  is_some, All, All-map_pred, All-intro, Pairs, Pairs-update_where_if, written, update_where,
  Bool-cases, inl, inr,
}
use ufcim_backend_proto.Errors.{
  AppError, ok, >>=-eq-ok, throw_if, conflict_error, app_error, invalid_department,
  no_such_department, user_exists, invitation_pending,
}
use ufcim_backend_proto.Schedule.Times.{text_eq}
use ufcim_backend_proto.Auth.{Crypto, Invitation}
use ufcim_backend_proto.Invitation.{AdminDb, Env}
use ufcim_backend_proto.Invitation.EmailDomain.{assert_allowed_domain}
use ufcim_backend_proto.Invitation.Sending.{
  FreshInvitation, CreateInvitationInput, is_invite, is_pending_invite, has_user, has_live,
  normalized, admit_invitation, new_invitation,
}

-- Pending: an invitation to open an account that could be accepted.
abbrev pub pending_at : ℕ → Invitation → Bool
pending_at now i =
    is_invite i.purpose
    && (not (is_some i.accepted_at) && (not (is_some i.revoked_at) && leb now i.expires_at))

abbrev pub NoClash : ℕ → Invitation → Invitation → Type 0
NoClash now x y = (pending_at now x && pending_at now y) && text_eq x.email y.email ≡ false

-- No two pending invitations are for one address.
abbrev pub HasOnePending : ℕ → AdminDb → Type 0
HasOnePending now db = Pairs (NoClash now) db.accounts.invitations

later_pending :
    (t now : ℕ) (i : Invitation) → t ≤ now → pending_at t i ≡ false → pending_at now i ≡ false
later_pending t now i le h = ground (arith, le, h)

clash_mono :
    (a b e a' b' : Bool)
    → (a ≡ false → a' ≡ false)
    → (b ≡ false → b' ≡ false)
    → ((a && b) && e) ≡ false
    → ((a' && b') && e) ≡ false
clash_mono false b e a' b' f g h = rw (f refl) refl
clash_mono true false e a' b' f g h = rw (g refl) (ground arith)
clash_mono true true e a' b' f g h = rw h (ground arith)

pub NoClash-later : (t now : ℕ) → t ≤ now → (x y : Invitation) → NoClash t x y → NoClash now x y
NoClash-later t now le x y h =
    clash_mono (pending_at t x) (pending_at t y) (text_eq x.email y.email) (pending_at now x)
      (pending_at now y) (later_pending t now x le) (later_pending t now y le) h

-- A write makes no invitation pending that was not.
abbrev pub Calms : ℕ → ℕ → (Invitation → Invitation) → Invitation → Type 0
Calms now id f i = i.id == id ≡ true → pending_at now i ≡ false → pending_at now (f i) ≡ false

module _ (now id : ℕ) (f : Invitation → Invitation)
    (same_email : (i : Invitation) → (f i).email ≡ i.email) where
  abbrev after : Invitation → Invitation
  after = written (λ i. i.id == id) f

  after-email : (i : Invitation) → (after i).email ≡ i.email
  after-email i = elim (Bool-cases (i.id == id)) [
    | inl own ↦ rw own (same_email i)
    | inr other ↦ rw other refl
  ]

  after-calm :
      (i : Invitation)
      → Calms now id f i
      → pending_at now i ≡ false
      → pending_at now (after i) ≡ false
  after-calm i c n = elim (Bool-cases (i.id == id)) [
    | inl own ↦ rw own (c own n)
    | inr other ↦ rw other n
  ]

  NoClash-after :
      (x y : Invitation)
      → Calms now id f x
      → Calms now id f y
      → NoClash now x y
      → NoClash now (after x) (after y)
  NoClash-after x y c d h =
      rw (after-email x, after-email y)
        (clash_mono (pending_at now x) (pending_at now y) (text_eq x.email y.email)
          (pending_at now (after x)) (pending_at now (after y)) (after-calm x c) (after-calm y d) h)

  pub Pairs-after :
      (is : List Invitation)
      → All (Calms now id f) is
      → Pairs (NoClash now) is
      → Pairs (NoClash now) (update_where (λ i. i.id == id) f is)
  Pairs-after =
      Pairs-update_where_if (NoClash now) (Calms now id f) (λ i. i.id == id) f NoClash-after

shuffle : (e a b : Bool) → (e && a) ≡ false → ((a && b) && e) ≡ false
shuffle e a b h = ground arith

passed : (b : Bool) (e : AppError) {u : Unit {0}} → throw_if b e ≡ ok u → b ≡ false
passed true e h = cc
passed false e h = refl

-- What a new invitation's guard saw.
pub admitted-guard :
    (env : Env) (crypto : Crypto) (now : ℕ) (input : CreateInvitationInput) (db : AdminDb)
    {u : Unit {0}}
    → admit_invitation env crypto now input db ≡ ok u
    → (is_invite input.purpose && has_live now (normalized crypto input.email) db.accounts) ≡ false
unfolding admit_invitation
admitted-guard env crypto now input db h =
    let (p0, _, r0) =
      >>=-eq-ok
        (assert_allowed_domain crypto env.allowed_email_domains (normalized crypto input.email)) _
        h in
    let (p1, _, r1) =
      >>=-eq-ok
        (throw_if (not (any (λ d. d == input.department) db.departments))
          (app_error 422 invalid_department no_such_department))
        _ r0 in
    let (p2, _, r2) =
      >>=-eq-ok
        (throw_if (is_invite input.purpose && has_user (normalized crypto input.email) db.accounts)
          (conflict_error user_exists))
        _ r1 in
    passed (is_invite input.purpose && has_live now (normalized crypto input.email) db.accounts)
      (conflict_error invitation_pending) r2

not_live : (now : ℕ) (x i : Invitation) → is_pending_invite now i.email x ≡ false → NoClash now x i
not_live now x i h = shuffle (text_eq x.email i.email) (pending_at now x) (pending_at now i) h

no_invite : (now : ℕ) (x i : Invitation) → is_invite i.purpose ≡ false → NoClash now x i
no_invite now x i h = rw h (ground arith)

pub free_for :
    (crypto : Crypto) (now : ℕ) (fresh : FreshInvitation) (input : CreateInvitationInput)
    (is : List Invitation)
    → (is_invite input.purpose && any (is_pending_invite now (normalized crypto input.email)) is)
      ≡ false
    → All (λ x. NoClash now x (new_invitation crypto now fresh input)) is
free_for crypto now fresh input is h = elim (Bool-cases (is_invite input.purpose)) [
  | inr resets_password ↦
      All-intro (λ x. NoClash now x (new_invitation crypto now fresh input)) is
        (λ x. no_invite now x (new_invitation crypto now fresh input) resets_password)
  | inl is_new ↦
      let free : any (is_pending_invite now (normalized crypto input.email)) is ≡ false =
        rw is_new at h in
      All-map_pred is (λ x f. not_live now x (new_invitation crypto now fresh input) f)
        (any-eq-false (is_pending_invite now (normalized crypto input.email)) is free)
]
