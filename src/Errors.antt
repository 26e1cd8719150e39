-- ===== src/Errors.antt =====
-- middleware/error-handler.ts: the errors that services throw, as values. A message is named by
-- the check that raises it; the texts themselves, in Portuguese, are not modelled.
pub mod Responses
use ufcim_backend_proto.Prelude.{ℕ, ◌≡◌, refl, ◌⊎◌, inl, inr, Bool, true, false}

-- The machine-readable codes (`AppError.code`).
pub data Code : Type 0 where
  not_found conflict forbidden unauthorized validation_error already_canceled : Code
  invalid_requester reservation_limit registration_required : Code
  invalid_date invalid_date_range range_too_large : Code
  email_domain_not_allowed invalid_department : Code
  internal_error : Code

-- One constructor for each message that a modelled check throws.
pub data Message : Type 0 where
  resource_not_found space_not_reservable slot_passed slot_closed slot_taken slot_blocked : Message
  department_only role_cannot_reserve limit_reached : Message
  maintenance_cannot_manage only_own_reservations only_recurring_roles : Message
  only_confirmed_editable already_started end_before_start too_short : Message
  reservation_already_canceled series_already_canceled : Message
  only_staff_on_behalf requester_missing requester_is_actor requester_unavailable : Message
  blocking_exists only_own_blockings : Message
  bad_credentials account_disabled account_locked token_reused session_expired : Message
  bad_invitation no_such_user no_registration : Message
  domain_not_allowed no_such_department user_exists invitation_pending already_accepted : Message
  request_pending already_reviewed master_admin_protected only_master_admin own_account : Message
  already_manager no_permission department_exists : Message
  bad_dates dates_out_of_order range_limit : Message
  ticket_target open_ticket recent_ticket asset_exists : Message

pub record AppError : Type 0 where
  pub status_code : ℕ
  pub code : Code
  pub message : Message

-- The classes that fix the status and the code.
abbrev pub not_found_error : AppError
not_found_error = record { status_code = 404; code = not_found; message = resource_not_found }

abbrev pub conflict_error : Message → AppError
conflict_error m = record { status_code = 409; code = conflict; message = m }

abbrev pub forbidden_error : Message → AppError
forbidden_error m = record { status_code = 403; code = forbidden; message = m }

abbrev pub unauthorized_error : Message → AppError
unauthorized_error m = record { status_code = 401; code = unauthorized; message = m }

abbrev pub app_error : ℕ → Code → Message → AppError
app_error s c m = record { status_code = s; code = c; message = m }

-- What a service throws: an `AppError`, or any other error (a failed database statement).
pub data Thrown : Type 0 where
  app : AppError → Thrown
  internal : Thrown

pub data Result {ℓ} (A : Type ℓ) : Type ℓ where
  ok : A → Result A
  err : Thrown → Result A

abbrev pub is_ok {ℓ} : {A : Type ℓ} → Result A → Bool
is_ok (ok a) = true
is_ok (err e) = false

infixl 5 ◌>>=◌ ◌>>◌
abbrev pub ◌>>=◌ {ℓ κ} : {In : Type ℓ} {Out : Type κ} → Result In → (In → Result Out) → Result Out
ok value >>= next = next value
err thrown >>= next = err thrown

abbrev pub ◌>>◌ {ℓ} : {Out : Type ℓ} → Result (Unit {0}) → Result Out → Result Out
check >> rest = check >>= λ passed. rest

-- `if (bad) throw e`
abbrev pub throw_if : Bool → AppError → Result (Unit {0})
throw_if true e = err (app e)
throw_if false e = ok tt

-- A step that succeeds has a value from which the rest goes on.
pub >>=-eq-ok {ℓ κ} :
    {In : Type ℓ} {Out : Type κ} (step : Result In) (next : In → Result Out) {end : Out}
    → (step >>= next) ≡ ok end
    → (value : In) × (step ≡ ok value) × (next value ≡ ok end)
>>=-eq-ok (ok value) next h = (value, refl, h)
>>=-eq-ok (err thrown) next h = cc

-- A check that lets the handler go on did not see what it refuses.
pub throw_if-eq-ok {ℓ} :
    {B : Type ℓ} (bad : Bool) (e : AppError) (k : Result B) {b : B}
    → (throw_if bad e >> k) ≡ ok b
    → (bad ≡ false) × (k ≡ ok b)
throw_if-eq-ok true e k h = cc
throw_if-eq-ok false e k h = (refl, h)

pub Result-cases {ℓ} :
    {A : Type ℓ} (r : Result A) → ((a : A) × (r ≡ ok a)) ⊎ ((e : Thrown) × (r ≡ err e))
Result-cases (ok a) = inl (a, refl)
Result-cases (err e) = inr (e, refl)

pub ok-ne-err {ℓ} : {A : Type ℓ} {a : A} {e : Thrown} → ok a ≡ err e → ⊥
ok-ne-err h = cc
