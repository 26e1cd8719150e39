-- ===== src/Auth/Refresh.antt =====
-- services/auth.service.ts `refresh`, `revokeChain`, `logout`
use ufcim_backend_proto.Prelude.{
  ℕ, zero, suc, ◌+◌, Bool, true, false, Option, none, some, List, [], ◌∷◌, ◌==◌, ltb, if◌then◌else◌,
  find, any, is_some, length, update_where,
}
use ufcim_backend_proto.Errors.{
  Result, ok, err, internal, ◌>>=◌, ◌>>◌, throw_if, unauthorized_error, bad_credentials,
  account_disabled, token_reused, session_expired,
}
use ufcim_backend_proto.Schedule.Times.{Text}
use ufcim_backend_proto.Auth.{
  Account, RefreshToken, refresh_reused, refreshed, logged_out, AuthDb, Crypto, Fresh, TokenPair,
  unauthorized, or_unauthorized, audit, new_token, insert_token, token_pair,
}

pub record RefreshInput : Type 0 where
  pub refresh_token : ℕ
  pub user_agent : Option Text

abbrev pub find_token : List RefreshToken → ℕ → Option RefreshToken
find_token tokens id = find (λ t. t.id == id) tokens

abbrev pub set_revoked : ℕ → RefreshToken → RefreshToken
set_revoked now t = record t { revoked_at = some now }

-- `if (!token.revokedAt) update …`
abbrev pub revoke_found : ℕ → ℕ → RefreshToken → List RefreshToken → List RefreshToken
revoke_found now id t tokens =
    if is_some t.revoked_at then tokens else update_where (λ u. u.id == id) (set_revoked now) tokens

-- Follows `replacedBy` until it ends, leads to no row, or comes back to a visited identifier;
-- `none` if the fuel runs out.
unfoldable pub revoke_chain :
    ℕ → ℕ → Option ℕ → List ℕ → List RefreshToken → Option (List RefreshToken)
revoke_chain now zero current visited tokens = none
revoke_chain now (suc fuel) none visited tokens = some tokens
revoke_chain now (suc fuel) (some id) visited tokens =
    let rest : Option (List RefreshToken) = elim (find_token tokens id) [
      | none ↦ some tokens
      | some t ↦ revoke_chain now fuel t.replaced_by (id ∷ visited) (revoke_found now id t tokens)
    ] in
    if any (λ v. v == id) visited then some tokens else rest

unfoldable pub revoke_from : ℕ → Option ℕ → List RefreshToken → Option (List RefreshToken)
revoke_from now start tokens = revoke_chain now (length tokens + 2) start [] tokens

abbrev with_tokens : AuthDb → List RefreshToken → AuthDb
with_tokens db tokens = record db { refresh_tokens = tokens }

-- A revoked token that is used again revokes the tokens that replaced it. The loop never runs out
-- of fuel, so its error stands for nothing.
abbrev pub reuse : RefreshToken → AuthDb → Option (List RefreshToken) → Result TokenPair × AuthDb
reuse t db none = (err internal, db)
reuse t db (some tokens) = (unauthorized token_reused, with_tokens db tokens)

unfoldable pub admit_refresh : ℕ → AuthDb → RefreshToken → Result Account
admit_refresh now db t = do
  throw_if (ltb t.expires_at now) (unauthorized_error session_expired)
  user ← or_unauthorized (find (λ u. u.id == t.user_id) db.users) bad_credentials
  throw_if (is_some user.disabled_at) (unauthorized_error account_disabled)
  ok user

abbrev pub set_replaced : ℕ → ℕ → RefreshToken → RefreshToken
set_replaced now id t = record t { revoked_at = some now; replaced_by = some id }

abbrev pub replace_token : ℕ → ℕ → ℕ → List RefreshToken → List RefreshToken
replace_token now old new tokens = update_where (λ u. u.id == old) (set_replaced now new) tokens

abbrev finish_refresh :
    Crypto
    → ℕ
    → Fresh
    → RefreshToken
    → Account
    → AuthDb
    → Option (List RefreshToken)
    → Result TokenPair × AuthDb
finish_refresh crypto now fresh t user db none = (err internal, db)
finish_refresh crypto now fresh t user db (some tokens) = (
  ok (token_pair crypto fresh user),
  audit (refreshed user.id t.id) (with_tokens db (replace_token now t.id fresh.token_id tokens)),
)

-- The batch inserts the new token and replaces the old one, or writes neither.
abbrev rotate :
    Crypto
    → ℕ
    → Fresh
    → Option Text
    → RefreshToken
    → AuthDb
    → Result Account
    → Result TokenPair × AuthDb
rotate crypto now fresh user_agent t db (err e) = (err e, db)
rotate crypto now fresh user_agent t db (ok user) =
    finish_refresh crypto now fresh t user db
      (insert_token (new_token crypto now fresh user.id user_agent) db.refresh_tokens)

abbrev use_token :
    Crypto → ℕ → Fresh → Option Text → AuthDb → RefreshToken → Bool → Result TokenPair × AuthDb
use_token crypto now fresh user_agent db t true =
    reuse t (audit (refresh_reused t.user_id t.id) db)
      (revoke_from now t.replaced_by db.refresh_tokens)
use_token crypto now fresh user_agent db t false =
    rotate crypto now fresh user_agent t db (admit_refresh now db t)

abbrev run_refresh :
    Crypto → ℕ → Fresh → Option Text → AuthDb → Option RefreshToken → Result TokenPair × AuthDb
run_refresh crypto now fresh user_agent db none = (unauthorized bad_credentials, db)
run_refresh crypto now fresh user_agent db (some t) =
    use_token crypto now fresh user_agent db t (is_some t.revoked_at)

abbrev pub by_hash : ℕ → List RefreshToken → Option RefreshToken
by_hash hash = find (λ t. t.token_hash == hash)

unfoldable pub refresh : Crypto → ℕ → Fresh → RefreshInput → AuthDb → Result TokenPair × AuthDb
refresh crypto now fresh input db =
    run_refresh crypto now fresh input.user_agent db
      (by_hash (crypto.sha256_hex input.refresh_token) db.refresh_tokens)

abbrev run_logout : ℕ → AuthDb → Option RefreshToken → AuthDb
run_logout now db none = db
run_logout now db (some t) =
    audit (logged_out t.user_id t.id) (with_tokens db (revoke_found now t.id t db.refresh_tokens))

unfoldable pub logout : Crypto → ℕ → ℕ → AuthDb → AuthDb
logout crypto now token db = run_logout now db (by_hash (crypto.sha256_hex token) db.refresh_tokens)
