-- ===== src/Admin/OnePending.antt =====
-- services/invitation.service.ts: the pending invitations of an address, where only invitations that
-- are still pending are sent again.
use ufcim_backend_proto.Prelude.{
  ℕ, ◌≡◌, refl, sym, ◌∙◌, subst, true, false, not, ◌&&◌, ◌||◌, Option, none, some, ◌==◌, arith, any,
  All, All-map_pred, All-intro, Pairs, Pairs-snoc, Pairs-map_pred, update_where, Bool-cases,
  Option-cases, inl, inr,
}
use ufcim_backend_proto.Errors.{Result, ok, err, Result-cases}
use ufcim_backend_proto.Schedule.Times.{Text}
use ufcim_backend_proto.Auth.{Crypto, Fresh, Invitation}
use ufcim_backend_proto.Auth.Invitations.{AcceptInput, accept_invitation, set_accepted}
use ufcim_backend_proto.Invitation.{
  AdminDb, AdminEvent, Env, InvitationRequest, invitation_created, invitation_resent,
}
use mathlib.Core.Bool.{false≢true}
use ufcim_backend_proto.Invitation.Reviewing.{
  ApproveInput, request, admit_request, insert_request, approve, invitation_for, finish_approve,
  reject, load_pending,
}
use ufcim_backend_proto.Admin.{find_account, reset_password, reset_input, finish_reset}
use ufcim_backend_proto.Admin.Untouched.{
  change_role-IsUntouched, set_disabled-IsUntouched, soft_delete-IsUntouched,
  revoke_all-IsUntouched,
}
use ufcim_backend_proto.Admin.Steps.{
  with_accounts, Step, invites, revokes, resends, requests, approves, rejects, changes_role,
  disables, resets, deletes, ends_sessions, accepts, Reach, here, next,
}
use ufcim_backend_proto.Admin.Effects.{accept_invitation-effect, refused, accepted_only, opened}
use ufcim_backend_proto.Invitation.Sending.{
  Sent, FreshInvitation, CreateInvitationInput, normalized, admit_invitation, new_invitation,
  insert_invitation, finish_send, create_invitation, find_unaccepted, set_withdrawn, revoke,
  set_resent, rehash, resend,
}
use ufcim_backend_proto.Admin.Pending.{
  pending_at, NoClash, HasOnePending, NoClash-later, Calms, Pairs-after, admitted-guard, free_for,
}

abbrev OneOr : ℕ → Option AdminDb → Type 0
OneOr now none = Unit
OneOr now (some db) = HasOnePending now db

finish_send-HasOnePending :
    (env : Env) (now actor : ℕ) (event : ℕ → ℕ → AdminEvent) (i : Invitation) (token : ℕ)
    (db : AdminDb) (o : Option AdminDb)
    → HasOnePending now db
    → OneOr now o
    → HasOnePending now (finish_send env actor event i token db o).1
finish_send-HasOnePending env now actor event i token db none h a = h
finish_send-HasOnePending env now actor event i token db (some d) h a =
    elim (Bool-cases env.has_invite_base_url) [
      | inl with_url ↦ rw with_url a
      | inr without ↦ rw without a
    ]

insert-OneOr :
    (now : ℕ) (i : Invitation) (db : AdminDb)
    → HasOnePending now db
    → All (λ x. NoClash now x i) db.accounts.invitations
    → OneOr now (insert_invitation i db)
unfolding insert_invitation
insert-OneOr now i db h free =
    elim (Bool-cases
      (any (λ j. j.id == i.id || j.token_hash == i.token_hash) db.accounts.invitations)) [
        | inl taken ↦ rw taken tt
        | inr new ↦ rw new (Pairs-snoc (NoClash now) db.accounts.invitations i h free)
      ]

create-HasOnePending :
    (env : Env) (crypto : Crypto) (now : ℕ) (fresh : FreshInvitation)
    (input : CreateInvitationInput) (db : AdminDb)
    → HasOnePending now db
    → HasOnePending now (create_invitation env crypto now fresh input db).1
unfolding create_invitation
create-HasOnePending env crypto now fresh input db h =
    elim (Result-cases (admit_invitation env crypto now input db)) [
      | inr (e, bad) ↦ rw bad h
      | inl (u, good) ↦
          let i = new_invitation crypto now fresh input in
          rw good (
            finish_send-HasOnePending env now input.inviter_id invitation_created i fresh.token db _
              h
              (insert-OneOr now i db h (
                free_for crypto now fresh input db.accounts.invitations
                  (admitted-guard env crypto now input db good))))
    ]

withdrawn_calm : (now t : ℕ) (i : Invitation) → pending_at now (set_withdrawn t i) ≡ false
withdrawn_calm now t i = ground arith

accepted_calm :
    (now t user_id : ℕ) (i : Invitation) → pending_at now (set_accepted t user_id i) ≡ false
accepted_calm now t user_id i = ground arith

revoke-HasOnePending :
    (now actor id : ℕ) (db : AdminDb)
    → HasOnePending now db
    → HasOnePending now (revoke now actor id db).1
unfolding revoke
revoke-HasOnePending now actor id db h = elim (Result-cases (find_unaccepted id db)) [
  | inr (e, bad) ↦ rw bad h
  | inl (i, good) ↦ rw good (
      Pairs-after now id (set_withdrawn now) (λ x. refl) db.accounts.invitations
        (All-intro (Calms now id (set_withdrawn now)) db.accounts.invitations
          (λ x own n. withdrawn_calm now now x))
        h)
]

accept-HasOnePending :
    (crypto : Crypto) (now : ℕ) (fresh : Fresh) (input : AcceptInput) (db : AdminDb)
    → HasOnePending now db
    → HasOnePending now (with_accounts db (accept_invitation crypto now fresh input db.accounts).1)
accept-HasOnePending crypto now fresh input db h =
    let accepting : (id user_id : ℕ)
        → Pairs (NoClash now)
            (update_where (λ i. i.id == id) (set_accepted now user_id) db.accounts.invitations) =
      λ id user_id.
        Pairs-after now id (set_accepted now user_id) (λ x. refl) db.accounts.invitations
          (All-intro (Calms now id (set_accepted now user_id)) db.accounts.invitations
            (λ x own n. accepted_calm now now user_id x))
          h in
    elim (accept_invitation-effect crypto now fresh input db.accounts) [
      | refused us is ↦ subst (Pairs (NoClash now)) (sym is) h
      | accepted_only id user_id us is ↦ subst (Pairs (NoClash now)) (sym is) (accepting id user_id)
      | opened id u us is ↦ subst (Pairs (NoClash now)) (sym is) (accepting id u.id)
    ]

-- Every invitation of that identifier is pending.
abbrev pub IsPending : ℕ → ℕ → AdminDb → Type 0
IsPending now id db = All (λ i. i.id == id ≡ true → pending_at now i ≡ true) db.accounts.invitations

rehash-OneOr :
    (now id hash : ℕ) (f : Invitation → Invitation) (db : AdminDb)
    → ((i : Invitation) → (f i).email ≡ i.email)
    → IsPending now id db
    → HasOnePending now db
    → OneOr now (rehash id hash f db)
unfolding rehash
rehash-OneOr now id hash f db same_email open_ones h =
    elim (Bool-cases
      (any (λ j. not (j.id == id) && j.token_hash == hash) db.accounts.invitations)) [
        | inl taken ↦ rw taken tt
        | inr new ↦ rw new (
            Pairs-after now id f same_email db.accounts.invitations
              (All-map_pred db.accounts.invitations
                (λ i p own n. absurd (false≢true (sym n ∙ p own))) open_ones)
              h)
      ]

resend-HasOnePending :
    (env : Env) (crypto : Crypto) (now actor id token ttl_hours : ℕ) (db : AdminDb)
    → IsPending now id db
    → HasOnePending now db
    → HasOnePending now (resend env crypto now actor id token ttl_hours db).1
unfolding resend
resend-HasOnePending env crypto now actor id token ttl_hours db open_ones h =
    elim (Result-cases (find_unaccepted id db)) [
      | inr (e, bad) ↦ rw bad h
      | inl (i, good) ↦ rw good (
          finish_send-HasOnePending env now actor invitation_resent
            (set_resent crypto now token ttl_hours i) token db _ h
            (rehash-OneOr now id (crypto.sha256_hex token) (set_resent crypto now token ttl_hours)
              db (λ x. refl) open_ones h))
    ]

request-invitations :
    (env : Env) (crypto : Crypto) (now w name : ℕ) (email : Text) (db : AdminDb)
    → (request env crypto now w name email db).1.accounts.invitations ≡ db.accounts.invitations
unfolding request insert_request
request-invitations env crypto now w name email db =
    elim (Result-cases (admit_request env crypto now (normalized crypto email) db)) [
      | inr (e, bad) ↦ rw bad refl
      | inl (admitted, good) ↦ elim (Bool-cases (any (λ s. s.id == w) db.requests)) [
        | inl taken ↦ rw (good, taken) refl
        | inr new ↦ rw (good, new) refl
      ]
    ]

reject-invitations :
    (now admin w : ℕ) (db : AdminDb)
    → (reject now admin w db).1.accounts.invitations ≡ db.accounts.invitations
unfolding reject
reject-invitations now admin w db = elim (Result-cases (load_pending w db)) [
  | inr (e, bad) ↦ rw bad refl
  | inl (r, good) ↦ rw good refl
]

finish_approve-invitations :
    (now admin w : ℕ) (r : InvitationRequest) (sent : Result Sent × AdminDb)
    → (finish_approve now admin w r sent).1.accounts.invitations ≡ sent.1.accounts.invitations
finish_approve-invitations now admin w r (err e, db) = refl
finish_approve-invitations now admin w r (ok sent, db) = refl

approve-HasOnePending :
    (env : Env) (crypto : Crypto) (now : ℕ) (fresh : FreshInvitation) (admin w : ℕ)
    (input : ApproveInput) (db : AdminDb)
    → HasOnePending now db
    → HasOnePending now (approve env crypto now fresh admin w input db).1
unfolding approve
approve-HasOnePending env crypto now fresh admin w input db h =
    elim (Result-cases (load_pending w db)) [
      | inr (e, bad) ↦ rw bad h
      | inl (r, good) ↦
          let sent = create_invitation env crypto now fresh (invitation_for admin input r) db in
          rw good (
            subst (Pairs (NoClash now)) (sym (finish_approve-invitations now admin w r sent))
              (create-HasOnePending env crypto now fresh (invitation_for admin input r) db h))
    ]

finish_reset-invitations :
    (actor w : ℕ) (sent : Result Sent × AdminDb)
    → (finish_reset actor w sent).1.accounts.invitations ≡ sent.1.accounts.invitations
finish_reset-invitations actor w (err e, db) = refl
finish_reset-invitations actor w (ok sent, db) = refl

reset-HasOnePending :
    (env : Env) (crypto : Crypto) (now : ℕ) (fresh : FreshInvitation) (actor w : ℕ) (db : AdminDb)
    → HasOnePending now db
    → HasOnePending now (reset_password env crypto now fresh actor w db).1
unfolding reset_password
reset-HasOnePending env crypto now fresh actor w db h = elim (Option-cases (find_account w db)) [
  | inl absent ↦ rw absent h
  | inr (u, there) ↦
      let sent = create_invitation env crypto now fresh (reset_input actor u) db in
      rw there (
        subst (Pairs (NoClash now)) (sym (finish_reset-invitations actor w sent))
          (create-HasOnePending env crypto now fresh (reset_input actor u) db h))
]

kept :
    (now : ℕ) (db db' : AdminDb)
    → db'.accounts.invitations ≡ db.accounts.invitations
    → HasOnePending now db
    → HasOnePending now db'
kept now db db' same h = subst (Pairs (NoClash now)) (sym same) h

module _ {env : Env} {crypto : Crypto} where
  Step-HasOnePending :
      {now : ℕ} {db db' : AdminDb}
      → Step env crypto IsPending now db db'
      → HasOnePending now db
      → HasOnePending now db'
  Step-HasOnePending {now} {db} (invites fresh input) h =
      create-HasOnePending env crypto now fresh input db h
  Step-HasOnePending {now} {db} (revokes actor w) h = revoke-HasOnePending now actor w db h
  Step-HasOnePending {now} {db} (resends actor w token ttl_hours may) h =
      resend-HasOnePending env crypto now actor w token ttl_hours db may h
  Step-HasOnePending {now} {db} {db'} (requests w name email) h =
      kept now db db' (request-invitations env crypto now w name email db) h
  Step-HasOnePending {now} {db} (approves fresh admin w input) h =
      approve-HasOnePending env crypto now fresh admin w input db h
  Step-HasOnePending {now} {db} {db'} (rejects admin w) h =
      kept now db db' (reject-invitations now admin w db) h
  Step-HasOnePending {now} {db} {db'} (changes_role actor w role) h =
      kept now db db' (change_role-IsUntouched now actor w role db).1 h
  Step-HasOnePending {now} {db} {db'} (disables actor w disabled) h =
      kept now db db' (set_disabled-IsUntouched now actor w disabled db).1 h
  Step-HasOnePending {now} {db} (resets fresh actor w) h =
      reset-HasOnePending env crypto now fresh actor w db h
  Step-HasOnePending {now} {db} {db'} (deletes actor w) h =
      kept now db db' (soft_delete-IsUntouched now actor w db).1 h
  Step-HasOnePending {now} {db} {db'} (ends_sessions actor w) h =
      kept now db db' (revoke_all-IsUntouched now actor w db).1 h
  Step-HasOnePending {now} {db} (accepts fresh input) h =
      accept-HasOnePending crypto now fresh input db h

-- Start from tables in which no two pending invitations to open an account are for one address. After
-- any requests of the administration, at times that do not go back, in which only invitations that
-- are still pending are sent again, no two pending invitations are for one address.
pub Reach-HasOnePending :
    {env : Env} {crypto : Crypto} {begin : ℕ} {start : AdminDb} {t : ℕ} {db : AdminDb}
    → Reach env crypto IsPending begin start t db
    → HasOnePending begin start
    → HasOnePending t db
Reach-HasOnePending here h = h
Reach-HasOnePending (next {t} {now} {db} r le s) h = Step-HasOnePending s (
    Pairs-map_pred (NoClash t) (NoClash now) db.accounts.invitations (NoClash-later t now le)
      (Reach-HasOnePending r h))
