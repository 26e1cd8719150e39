-- ===== src/Admin/Reviews.antt =====
-- services/invitation-request.service.ts: a request is reviewed once.
use ufcim_backend_proto.Prelude.{
  ℕ, ◌≡◌, refl, sym, ◌∙◌, ap, true, false, not, some, [], ◌∷◌, ◌==◌, arith, any, find, find-append,
  find-update_kind, Bool-cases, Option-cases, inl, inr,
}
use ufcim_backend_proto.Errors.{
  Result, ok, err, Result-cases, >>=-eq-ok, throw_if-eq-ok, conflict_error, already_reviewed,
}
use ufcim_backend_proto.Reservation.Guards.{found}
use ufcim_backend_proto.Schedule.Times.{Text}
use ufcim_backend_proto.Auth.{Crypto}
use ufcim_backend_proto.Invitation.{AdminDb, Env, InvitationRequest}
use ufcim_backend_proto.Invitation.Sending.{
  Sent, FreshInvitation, CreateInvitationInput, create_invitation, normalized,
}
use ufcim_backend_proto.Invitation.Reviewing.{
  is_pending, ApproveInput, request, admit_request, new_request, insert_request, approve,
  invitation_for, finish_approve, set_approved, set_rejected, reject, load_pending, find_request,
  write_request,
}
use ufcim_backend_proto.Admin.{find_account, reset_password, reset_input, finish_reset}
use ufcim_backend_proto.Admin.Steps.{
  Step, invites, revokes, resends, requests, approves, rejects, changes_role, disables, resets,
  deletes, ends_sessions, accepts, Reach, here, next,
}
use ufcim_backend_proto.Admin.Effects.{create_invitation-IsAlike, revoke-IsAlike, resend-IsAlike}
use ufcim_backend_proto.Admin.Untouched.{
  change_role-IsUntouched, set_disabled-IsUntouched, soft_delete-IsUntouched,
  revoke_all-IsUntouched,
}
use ufcim_backend_proto.Admin.Masters.{found-eq}

-- The request of that identifier is this one, approved or rejected.
abbrev pub IsReviewed : ℕ → InvitationRequest → AdminDb → Type 0
IsReviewed id r db = (find_request id db ≡ some r) × (is_pending r.status ≡ false)

-- What approve and reject load.
loaded :
    (id : ℕ) (db : AdminDb) {r : InvitationRequest}
    → load_pending id db ≡ ok r
    → (find_request id db ≡ some r) × (is_pending r.status ≡ true)
unfolding load_pending
loaded id db {r} h =
    let (v, got, rest) = >>=-eq-ok (found (find_request id db)) _ h in
    let (new, last) =
      throw_if-eq-ok (not (is_pending v.status)) (conflict_error already_reviewed) (ok v) rest in
    let same : v ≡ r = cc in
    (
      found-eq (find_request id db) (got ∙ ap (λ (z : InvitationRequest). ok z) same),
      ap (λ (z : InvitationRequest). is_pending z.status) (sym same) ∙ ground (arith, new),
    )

module _ (id : ℕ) (a : InvitationRequest) where
  write-IsReviewed :
      (w : ℕ) (f : InvitationRequest → InvitationRequest) (db : AdminDb) {r : InvitationRequest}
      → ((x : InvitationRequest) → (f x).id ≡ x.id)
      → (find_request w db ≡ some r) × (is_pending r.status ≡ true)
      → IsReviewed id a db
      → IsReviewed id a (write_request w f db)
  write-IsReviewed w f db {r} keeps (there, new) (h, t) = (
    find-update_kind (λ (x : InvitationRequest). x.id) f keeps
        (λ (x : InvitationRequest). not (is_pending x.status)) id w db.requests h (rw t refl) there
        (rw new refl),
    t,
  )

  same-IsReviewed :
      (db db' : AdminDb) → db'.requests ≡ db.requests → IsReviewed id a db → IsReviewed id a db'
  same-IsReviewed db db' same (h, t) = (ap (find (λ r. r.id == id)) same ∙ h, t)

  create-IsReviewed :
      (env : Env) (crypto : Crypto) (now : ℕ) (fresh : FreshInvitation)
      (input : CreateInvitationInput) (db : AdminDb)
      → IsReviewed id a db
      → IsReviewed id a (create_invitation env crypto now fresh input db).1
  create-IsReviewed env crypto now fresh input db m =
      same-IsReviewed db (create_invitation env crypto now fresh input db).1
        (create_invitation-IsAlike env crypto now fresh input db).1 m

  request-IsReviewed :
      (env : Env) (crypto : Crypto) (now w name : ℕ) (email : Text) (db : AdminDb)
      → IsReviewed id a db
      → IsReviewed id a (request env crypto now w name email db).1
  unfolding request insert_request
  request-IsReviewed env crypto now w name email db (h, t) =
      elim (Result-cases (admit_request env crypto now (normalized crypto email) db)) [
        | inr (e, bad) ↦ rw bad (h, t)
        | inl (admitted, good) ↦ elim (Bool-cases (any (λ s. s.id == w) db.requests)) [
          | inl taken ↦ rw (good, taken) (h, t)
          | inr new ↦
              rw (good, new)
                (
                  find-append (λ r. r.id == id) db.requests
                      (new_request now w name (normalized crypto email) ∷ []) h,
                  t,
                )
        ]
      ]

  finish_approve-IsReviewed :
      (now admin w : ℕ) (db : AdminDb) {r : InvitationRequest} (sent : Result Sent × AdminDb)
      → load_pending w db ≡ ok r
      → sent.1.requests ≡ db.requests
      → IsReviewed id a db
      → IsReviewed id a (finish_approve now admin w r sent).1
  finish_approve-IsReviewed now admin w db (err e, d) l same m = same-IsReviewed db d same m
  finish_approve-IsReviewed now admin w db (ok sent, d) l same m =
      let (there, new) = loaded w db l in
      write-IsReviewed w (set_approved now admin sent.invitation.id) d (λ x. refl)
        (ap (find (λ r. r.id == w)) same ∙ there, new) (same-IsReviewed db d same m)

  approve-IsReviewed :
      (env : Env) (crypto : Crypto) (now : ℕ) (fresh : FreshInvitation) (admin w : ℕ)
      (input : ApproveInput) (db : AdminDb)
      → IsReviewed id a db
      → IsReviewed id a (approve env crypto now fresh admin w input db).1
  unfolding approve
  approve-IsReviewed env crypto now fresh admin w input db m =
      elim (Result-cases (load_pending w db)) [
        | inr (e, bad) ↦ rw bad m
        | inl (r, good) ↦ rw good (
            finish_approve-IsReviewed now admin w db
              (create_invitation env crypto now fresh (invitation_for admin input r) db) good
              (create_invitation-IsAlike env crypto now fresh (invitation_for admin input r) db).1
              m)
      ]

  reject-IsReviewed :
      (now admin w : ℕ) (db : AdminDb)
      → IsReviewed id a db
      → IsReviewed id a (reject now admin w db).1
  unfolding reject
  reject-IsReviewed now admin w db m = elim (Result-cases (load_pending w db)) [
    | inr (e, bad) ↦ rw bad m
    | inl (r, good) ↦
        rw good (write-IsReviewed w (set_rejected now admin) db (λ x. refl) (loaded w db good) m)
  ]

finish_reset-requests :
    (actor w : ℕ) (sent : Result Sent × AdminDb)
    → (finish_reset actor w sent).1.requests ≡ sent.1.requests
finish_reset-requests actor w (err e, db) = refl
finish_reset-requests actor w (ok sent, db) = refl

reset-requests :
    (env : Env) (crypto : Crypto) (now : ℕ) (fresh : FreshInvitation) (actor w : ℕ) (db : AdminDb)
    → (reset_password env crypto now fresh actor w db).1.requests ≡ db.requests
unfolding reset_password
reset-requests env crypto now fresh actor w db = elim (Option-cases (find_account w db)) [
  | inl absent ↦ rw absent refl
  | inr (u, there) ↦ rw there (
      finish_reset-requests actor w
        (create_invitation env crypto now fresh (reset_input actor u) db)
      ∙ (create_invitation-IsAlike env crypto now fresh (reset_input actor u) db).1)
]

module _ {env : Env} {crypto : Crypto} {May : ℕ → ℕ → AdminDb → Type 0} (id : ℕ)
    (a : InvitationRequest) where
  Step-IsReviewed :
      {now : ℕ} {db db' : AdminDb}
      → Step env crypto May now db db'
      → IsReviewed id a db
      → IsReviewed id a db'
  Step-IsReviewed (invites fresh input) m = create-IsReviewed id a env crypto _ fresh input _ m
  Step-IsReviewed {now} {db} {db'} (revokes actor w) m =
      same-IsReviewed id a db db' (revoke-IsAlike now actor w db).1 m
  Step-IsReviewed {now} {db} {db'} (resends actor w token ttl_hours may) m =
      same-IsReviewed id a db db' (resend-IsAlike env crypto now actor w token ttl_hours db).1 m
  Step-IsReviewed (requests w name email) m = request-IsReviewed id a env crypto _ w name email _ m
  Step-IsReviewed (approves fresh admin w input) m =
      approve-IsReviewed id a env crypto _ fresh admin w input _ m
  Step-IsReviewed (rejects admin w) m = reject-IsReviewed id a _ admin w _ m
  Step-IsReviewed {now} {db} {db'} (changes_role actor w role) m =
      same-IsReviewed id a db db' (change_role-IsUntouched now actor w role db).0 m
  Step-IsReviewed {now} {db} {db'} (disables actor w disabled) m =
      same-IsReviewed id a db db' (set_disabled-IsUntouched now actor w disabled db).0 m
  Step-IsReviewed {now} {db} {db'} (resets fresh actor w) m =
      same-IsReviewed id a db db' (reset-requests env crypto now fresh actor w db) m
  Step-IsReviewed {now} {db} {db'} (deletes actor w) m =
      same-IsReviewed id a db db' (soft_delete-IsUntouched now actor w db).0 m
  Step-IsReviewed {now} {db} {db'} (ends_sessions actor w) m =
      same-IsReviewed id a db db' (revoke_all-IsUntouched now actor w db).0 m
  Step-IsReviewed {now} {db} {db'} (accepts fresh input) m = same-IsReviewed id a db db' refl m

-- A request for an invitation that was approved or rejected is the same, with its status, reviewer,
-- time and invitation, after any further requests of the administration, by anyone: approving or
-- rejecting it again does nothing to it.
pub Reach-IsReviewed :
    {env : Env} {crypto : Crypto} {May : ℕ → ℕ → AdminDb → Type 0} {begin : ℕ} {start : AdminDb}
    (id : ℕ) (a : InvitationRequest) {t : ℕ} {db : AdminDb}
    → Reach env crypto May begin start t db
    → IsReviewed id a start
    → IsReviewed id a db
Reach-IsReviewed id a here m = m
Reach-IsReviewed id a (next r le s) m = Step-IsReviewed id a s (Reach-IsReviewed id a r m)
