-- ===== src/Auth/Acceptance.antt =====
-- services/auth.service.ts `acceptInvitation`: an invitation is accepted once.
use ufcim_backend_proto.Prelude.{
  ℕ, ◌≡◌, refl, sym, ◌∙◌, ap, Option, none, some, List, ◌==◌, ==_refl, find, find-update_where,
  some_when-eq-some, Option-cases, Bool-cases, inl, inr, ◌⊎◌, arith,
}
use ufcim_backend_proto.Errors.{Message, Result, ok, bad_invitation, Result-cases, ok-ne-err}
use ufcim_backend_proto.Auth.{
  Account, Invitation, InvitationPurpose, invite, reset, AuthDb, Crypto, Fresh, Session,
  unauthorized, or_unauthorized, new_token, insert_token,
}
use ufcim_backend_proto.Auth.Invitations.{
  accept_for, find_open, account_for, valid_preview, AcceptInput, invitation_of, set_accepted,
  accept_row, admit_accept, preview_invitation, accept_invitation, open_account, start_session,
}

InvitationPurpose-cases : (p : InvitationPurpose) → (p ≡ invite) ⊎ (p ≡ reset)
InvitationPurpose-cases invite = inl refl
InvitationPurpose-cases reset = inr refl

or_unauthorized-eq-ok {ℓ} :
    {A : Type ℓ} (o : Option A) (m : Message) {a : A} → or_unauthorized o m ≡ ok a → o ≡ some a
or_unauthorized-eq-ok none m h = cc
or_unauthorized-eq-ok (some b) m h = cc

same_invitation :
    {i j : Invitation} {u v : Account}
    → (◌≡◌ {A = Result (Invitation × Account)} (ok (j, v)) (ok (i, u)))
    → j ≡ i
same_invitation h = cc

module _ (crypto : Crypto) (now : ℕ) (fresh : Fresh) (input : AcceptInput) where
  start_session-invitations :
      (i : Invitation) (u : Account) (db : AuthDb)
      → (start_session crypto now fresh input i u db).1.invitations ≡ db.invitations
  start_session-invitations i u db =
      elim (Option-cases
        (insert_token (new_token crypto now fresh u.id input.user_agent) db.refresh_tokens)) [
          | inl taken ↦ rw taken refl
          | inr (tokens, inserted) ↦ elim (InvitationPurpose-cases i.purpose) [
            | inl p ↦ rw (inserted, p) refl
            | inr p ↦ rw (inserted, p) refl
          ]
        ]

  open_account-invitations :
      (u : Account) (i : Invitation) (db opened : AuthDb)
      → open_account crypto now input.password u i db ≡ some opened
      → opened.invitations ≡ (accept_row now i.id u.id db).invitations
  open_account-invitations u i db opened e =
      let (_, same) = some_when-eq-some _ _ opened e in
      sym (ap (λ (d : AuthDb). d.invitations) same)

  find_open-found :
      (db : AuthDb) {i : Invitation}
      → find_open crypto now input db ≡ ok i
      → invitation_of crypto db input.token ≡ some i
  unfolding find_open
  find_open-found db passed =
      elim (Bool-cases (valid_preview (preview_invitation crypto now input.token db))) [
        | inl valid ↦
            or_unauthorized-eq-ok (invitation_of crypto db input.token) bad_invitation
              (rw valid at passed)
        | inr closed ↦ absurd (ok-ne-err (sym (rw closed at passed)))
      ]

  admit_accept-found :
      (db : AuthDb) {i : Invitation} {u : Account}
      → admit_accept crypto now fresh input db ≡ ok (i, u)
      → invitation_of crypto db input.token ≡ some i
  unfolding admit_accept
  admit_accept-found db {i} {u} passed = elim (Result-cases (find_open crypto now input db)) [
    | inr (e, refused) ↦ absurd (ok-ne-err (sym (rw refused at passed)))
    | inl (j, opened) ↦ elim (Result-cases (account_for now fresh input db j j.purpose)) [
      | inr (e, refused) ↦ absurd (ok-ne-err (sym (rw (opened, refused) at passed)))
      | inl (v, owner) ↦
          find_open-found db opened
          ∙ ap (λ (k : Invitation). some k) (same_invitation (rw (opened, owner) at passed))
    ]
  ]

  -- The invitation as it is found after it was accepted.
  accepted-found :
      (db : AuthDb) (i : Invitation) (u : Account) (rows : List Invitation)
      → rows ≡ (accept_row now i.id u.id db).invitations
      → invitation_of crypto db input.token ≡ some i
      → find (λ x. x.token_hash == crypto.sha256_hex input.token) rows
        ≡ some (set_accepted now u.id i)
  accepted-found db i u rows e found = rw e (
      find-update_where (λ x. x.token_hash == crypto.sha256_hex input.token) (λ x. x.id == i.id)
        (set_accepted now u.id) (λ x. refl) db.invitations found (==_refl i.id))

  accept_for-invitations :
      (p : InvitationPurpose) (i : Invitation) (u : Account) (db : AuthDb) {session : Session}
      → (accept_for crypto now fresh input db i u p).0 ≡ ok session
      → (accept_for crypto now fresh input db i u p).1.invitations
        ≡ (accept_row now i.id u.id db).invitations
  accept_for-invitations reset i u db done = start_session-invitations i u _
  accept_for-invitations invite i u db done =
      elim (Option-cases (open_account crypto now input.password u i db)) [
        | inl taken ↦ absurd (ok-ne-err (sym (rw taken at done)))
        | inr (opened, e) ↦
            rw e (start_session-invitations i u opened ∙ open_account-invitations u i db opened e)
      ]

  accept_invitation-leaves :
      (db : AuthDb) {session : Session}
      → (accept_invitation crypto now fresh input db).0 ≡ ok session
      → (i : Invitation) × (u : Account) × (invitation_of crypto
            (accept_invitation crypto now fresh input db).1
            input.token
          ≡ some (set_accepted now u.id i))
  unfolding accept_invitation
  accept_invitation-leaves db done = elim (Result-cases (admit_accept crypto now fresh input db)) [
    | inr (e, refused) ↦ absurd (ok-ne-err (sym (rw refused at done)))
    | inl ((i, u), passed) ↦ (
      i,
      u,
      rw passed (
          accepted-found db i u (accept_for crypto now fresh input db i u i.purpose).1.invitations
            (accept_for-invitations i.purpose i u db (rw passed at done))
            (admit_accept-found db passed)),
    )
  ]

find_open-closed :
    (crypto : Crypto) (now : ℕ) (input : AcceptInput) (db : AuthDb) {i : Invitation} {at : ℕ}
    → invitation_of crypto db input.token ≡ some i
    → i.accepted_at ≡ some at
    → find_open crypto now input db ≡ unauthorized bad_invitation
unfolding find_open preview_invitation
find_open-closed crypto now input db {i} found accepted = rw (found, accepted) (ground arith)

accept_invitation-closed :
    (crypto : Crypto) (now : ℕ) (fresh : Fresh) (input : AcceptInput) (db : AuthDb)
    → find_open crypto now input db ≡ unauthorized bad_invitation
    → accept_invitation crypto now fresh input db ≡ (unauthorized bad_invitation, db)
unfolding accept_invitation admit_accept
accept_invitation-closed crypto now fresh input db closed = rw closed refl

-- An invitation that was accepted with success is refused from then on, whoever presents it and with
-- whatever password, at any time, and a refused request changes nothing.
pub accept_invitation-once :
    (crypto : Crypto) (now now' : ℕ) (fresh fresh' : Fresh) (input again : AcceptInput)
    (db : AuthDb) {session : Session}
    → (accept_invitation crypto now fresh input db).0 ≡ ok session
    → again.token ≡ input.token
    → let db' = (accept_invitation crypto now fresh input db).1 in
      accept_invitation crypto now' fresh' again db' ≡ (unauthorized bad_invitation, db')
accept_invitation-once crypto now now' fresh fresh' input again db done same =
    let (i, u, found) = accept_invitation-leaves crypto now fresh input db done in
    accept_invitation-closed crypto now' fresh' again
      (accept_invitation crypto now fresh input db).1
      (find_open-closed crypto now' again (accept_invitation crypto now fresh input db).1
        {i = set_accepted now u.id i} {at = now} (rw same found) refl)
