-- ===== src/Admin/Untouched.antt =====
-- services/user-admin.service.ts: what changes of accounts leave alone.
use ufcim_backend_proto.Prelude.{ℕ, ◌≡◌, refl, Bool, true, false, Option-cases, inl, inr}
use ufcim_backend_proto.Errors.{Result-cases}
use ufcim_backend_proto.Schema.{UserRole}
use ufcim_backend_proto.Invitation.{AdminDb}
use ufcim_backend_proto.Admin.{
  find_account, find_ordinary, change_role, set_disabled, soft_delete, admit_delete,
  revoke_all_sessions, revoke_if,
}

-- The same requests and the same invitations.
abbrev pub IsUntouched : AdminDb → AdminDb → Type 0
IsUntouched db db' =
    (db'.requests ≡ db.requests) × (db'.accounts.invitations ≡ db.accounts.invitations)

pub change_role-IsUntouched :
    (now actor w : ℕ) (role : UserRole) (db : AdminDb)
    → IsUntouched db (change_role now actor w role db).1
unfolding change_role
change_role-IsUntouched now actor w role db = elim (Result-cases (find_ordinary w db)) [
  | inr (e, bad) ↦ rw bad (refl, refl)
  | inl (u, good) ↦ rw good (refl, refl)
]

revoke_if-IsUntouched :
    (now w : ℕ) (disabled : Bool) (db : AdminDb) → IsUntouched db (revoke_if now disabled w db)
revoke_if-IsUntouched now w true db = (refl, refl)
revoke_if-IsUntouched now w false db = (refl, refl)

pub set_disabled-IsUntouched :
    (now actor w : ℕ) (disabled : Bool) (db : AdminDb)
    → IsUntouched db (set_disabled now actor w disabled db).1
unfolding set_disabled
set_disabled-IsUntouched now actor w disabled db = elim (Result-cases (find_ordinary w db)) [
  | inr (e, bad) ↦ rw bad (refl, refl)
  | inl (u, good) ↦ rw good (revoke_if-IsUntouched now w disabled _)
]

pub soft_delete-IsUntouched :
    (now actor w : ℕ) (db : AdminDb) → IsUntouched db (soft_delete now actor w db).1
unfolding soft_delete
soft_delete-IsUntouched now actor w db = elim (Result-cases (admit_delete actor w db)) [
  | inr (e, bad) ↦ rw bad (refl, refl)
  | inl (u, good) ↦ rw good (refl, refl)
]

pub revoke_all-IsUntouched :
    (now actor w : ℕ) (db : AdminDb) → IsUntouched db (revoke_all_sessions now actor w db).1
unfolding revoke_all_sessions
revoke_all-IsUntouched now actor w db = elim (Option-cases (find_account w db)) [
  | inl absent ↦ rw absent (refl, refl)
  | inr (u, there) ↦ rw there (refl, refl)
]
