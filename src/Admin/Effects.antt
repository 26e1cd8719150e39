-- ===== src/Admin/Effects.antt =====
-- What the requests of the administration leave of users, requests and invitations.
use ufcim_backend_proto.Prelude.{
  ℕ, ◌≡◌, refl, not, ◌&&◌, ◌||◌, Option, none, some, List, [], ◌∷◌, ◌++◌, ◌==◌, any, update_where,
  Bool-cases, inl, inr,
}
use ufcim_backend_proto.Errors.{Result-cases}
use ufcim_backend_proto.Auth.{
  Account, Invitation, RefreshToken, InvitationPurpose, invite, reset, AuthDb, Crypto, Fresh,
}
use ufcim_backend_proto.Auth.Invitations.{
  AcceptInput, accept_invitation, admit_accept, set_accepted, accept_for, finish_accept, key_taken,
}
use ufcim_backend_proto.Invitation.{AdminDb, AdminEvent, invitation_created, invitation_resent, Env}
use ufcim_backend_proto.Invitation.Sending.{
  CreateInvitationInput, FreshInvitation, create_invitation, revoke, resend, admit_invitation,
  insert_invitation, new_invitation, finish_send, find_unaccepted, rehash, set_resent,
}

-- The same users and the same requests.
abbrev pub IsAlike : AdminDb → AdminDb → Type 0
IsAlike db db' = (db'.accounts.users ≡ db.accounts.users) × (db'.requests ≡ db.requests)

abbrev AlikeOr : AdminDb → Option AdminDb → Type 0
AlikeOr db none = Unit
AlikeOr db (some db') = IsAlike db db'

finish_send-IsAlike :
    (env : Env) (actor : ℕ) (event : ℕ → ℕ → AdminEvent) (i : Invitation) (token : ℕ) (db : AdminDb)
    (o : Option AdminDb)
    → AlikeOr db o
    → IsAlike db (finish_send env actor event i token db o).1
finish_send-IsAlike env actor event i token db none a = (refl, refl)
finish_send-IsAlike env actor event i token db (some d) a =
    elim (Bool-cases env.has_invite_base_url) [
      | inl with_url ↦ rw with_url a
      | inr without ↦ rw without a
    ]

insert-AlikeOr : (i : Invitation) (db : AdminDb) → AlikeOr db (insert_invitation i db)
unfolding insert_invitation
insert-AlikeOr i db =
    elim (Bool-cases
      (any (λ j. j.id == i.id || j.token_hash == i.token_hash) db.accounts.invitations)) [
        | inl taken ↦ rw taken tt
        | inr new ↦ rw new (refl, refl)
      ]

rehash-AlikeOr :
    (id hash : ℕ) (f : Invitation → Invitation) (db : AdminDb) → AlikeOr db (rehash id hash f db)
unfolding rehash
rehash-AlikeOr id hash f db =
    elim (Bool-cases
      (any (λ j. not (j.id == id) && j.token_hash == hash) db.accounts.invitations)) [
        | inl taken ↦ rw taken tt
        | inr new ↦ rw new (refl, refl)
      ]

pub create_invitation-IsAlike :
    (env : Env) (crypto : Crypto) (now : ℕ) (fresh : FreshInvitation)
    (input : CreateInvitationInput) (db : AdminDb)
    → IsAlike db (create_invitation env crypto now fresh input db).1
unfolding create_invitation
create_invitation-IsAlike env crypto now fresh input db =
    elim (Result-cases (admit_invitation env crypto now input db)) [
      | inr (e, bad) ↦ rw bad (refl, refl)
      | inl (admitted, good) ↦ rw good (
          finish_send-IsAlike env input.inviter_id invitation_created
            (new_invitation crypto now fresh input) fresh.token db _
            (insert-AlikeOr (new_invitation crypto now fresh input) db))
    ]

pub revoke-IsAlike : (now actor id : ℕ) (db : AdminDb) → IsAlike db (revoke now actor id db).1
unfolding revoke
revoke-IsAlike now actor id db = elim (Result-cases (find_unaccepted id db)) [
  | inr (e, bad) ↦ rw bad (refl, refl)
  | inl (i, good) ↦ rw good (refl, refl)
]

pub resend-IsAlike :
    (env : Env) (crypto : Crypto) (now actor id token ttl_hours : ℕ) (db : AdminDb)
    → IsAlike db (resend env crypto now actor id token ttl_hours db).1
unfolding resend
resend-IsAlike env crypto now actor id token ttl_hours db =
    elim (Result-cases (find_unaccepted id db)) [
      | inr (e, bad) ↦ rw bad (refl, refl)
      | inl (i, good) ↦ rw good (
          finish_send-IsAlike env actor invitation_resent (set_resent crypto now token ttl_hours i)
            token db _
            (rehash-AlikeOr id (crypto.sha256_hex token) (set_resent crypto now token ttl_hours)
              db))
    ]

-- An acceptance opens an account or opens none, and accepts an invitation or changes none.
pub data AcceptEffect (now : ℕ) (db : AuthDb) (users : List Account) (invitations : List Invitation)
    : Type 0 where
  refused : users ≡ db.users → invitations ≡ db.invitations → AcceptEffect now db users invitations
  accepted_only :
      (id user_id : ℕ)
      → users ≡ db.users
      → invitations ≡ update_where (λ i. i.id == id) (set_accepted now user_id) db.invitations
      → AcceptEffect now db users invitations
  opened :
      (id : ℕ) (u : Account)
      → users ≡ db.users ++ u ∷ []
      → invitations ≡ update_where (λ i. i.id == id) (set_accepted now u.id) db.invitations
      → AcceptEffect now db users invitations

abbrev EffectOn : ℕ → AuthDb → AuthDb → Type 0
EffectOn now db db' = AcceptEffect now db db'.users db'.invitations

finish_accept-effect :
    (crypto : Crypto) (now : ℕ) (fresh : Fresh) (purpose : InvitationPurpose) (i : Invitation)
    (u : Account) (d start : AuthDb) (o : Option (List RefreshToken))
    → EffectOn now start d
    → EffectOn now start (finish_accept crypto now fresh purpose i u d o).1
finish_accept-effect crypto now fresh purpose i u d start none e = e
finish_accept-effect crypto now fresh reset i u d start (some tokens) e = e
finish_accept-effect crypto now fresh invite i u d start (some tokens) e = e

accept_for-effect :
    (crypto : Crypto) (now : ℕ) (fresh : Fresh) (input : AcceptInput) (db : AuthDb) (i : Invitation)
    (u : Account) (purpose : InvitationPurpose)
    → EffectOn now db (accept_for crypto now fresh input db i u purpose).1
accept_for-effect crypto now fresh input db i u reset =
    finish_accept-effect crypto now fresh i.purpose i u _ db _ (accepted_only i.id u.id refl refl)
accept_for-effect crypto now fresh input db i u invite = elim (Bool-cases (key_taken u db)) [
  | inl taken ↦ rw taken (refused refl refl)
  | inr free ↦
      rw free (finish_accept-effect crypto now fresh i.purpose i u _ db _ (opened i.id u refl refl))
]

pub accept_invitation-effect :
    (crypto : Crypto) (now : ℕ) (fresh : Fresh) (input : AcceptInput) (db : AuthDb)
    → EffectOn now db (accept_invitation crypto now fresh input db).1
unfolding accept_invitation
accept_invitation-effect crypto now fresh input db =
    elim (Result-cases (admit_accept crypto now fresh input db)) [
      | inr (e, bad) ↦ rw bad (refused refl refl)
      | inl ((i, u), good) ↦ rw good (accept_for-effect crypto now fresh input db i u i.purpose)
    ]
