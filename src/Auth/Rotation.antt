-- ===== src/Auth/Rotation.antt =====
-- services/auth.service.ts `refresh`: a refresh token is good for one use, and a second use ends the
-- session that the first one opened.
use ufcim_backend_proto.Prelude.{
  ℕ, ◌≡◌, refl, sym, ap, Bool, false, Option, some, List, [], ◌∷◌, ◌++◌, ◌==◌, ==_refl, find,
  is_some, find-update_where, Bool-cases, Option-cases, inl, inr, some_when-eq-some,
}
use ufcim_backend_proto.Errors.{ok, token_reused, Result-cases, ok-ne-err}
use ufcim_backend_proto.Schedule.Times.{Text}
use ufcim_backend_proto.Auth.{
  RefreshToken, AuthDb, Crypto, Fresh, TokenPair, unauthorized, new_token, insert_token, token_pair,
}
use ufcim_backend_proto.Auth.Refresh.{
  RefreshInput, refresh, by_hash, admit_refresh, revoke_from, set_replaced,
}
use ufcim_backend_proto.Auth.Chain.{revoke_from-ends}
use ufcim_backend_proto.Auth.Tokens.{is_live, next_of, Follows, stays}

-- A revoked token that is presented again is refused, and no token that replaced it, however far
-- the replacements lead, is live afterwards.
pub refresh-reuse :
    (crypto : Crypto) (now : ℕ) (fresh : Fresh) (input : RefreshInput) (db : AuthDb)
    {t : RefreshToken} {at a b : ℕ}
    → by_hash (crypto.sha256_hex input.refresh_token) db.refresh_tokens ≡ some t
    → t.revoked_at ≡ some at
    → t.replaced_by ≡ some a
    → Follows (next_of db.refresh_tokens) a b
    → ((refresh crypto now fresh input db).0 ≡ unauthorized token_reused)
      × (is_live (refresh crypto now fresh input db).1.refresh_tokens b ≡ false)
unfolding refresh
refresh-reuse crypto now fresh input db {a = a} {b = b} found is_revoked replaced p =
    let (tokens, run, dead) = revoke_from-ends now a b db.refresh_tokens p in
    rw (found, is_revoked, replaced, run) (refl, dead)

find-append {ℓ} :
    {A : Type ℓ} (q : A → Bool) (xs ys : List A) {a : A}
    → find q xs ≡ some a
    → find q (xs ++ ys) ≡ some a
find-append q [] ys h = cc
find-append q (x ∷ xs) ys h = elim (Bool-cases (q x)) [
  | inl y ↦ rw y (rw y at h)
  | inr n ↦ rw n (find-append q xs ys (rw n at h))
]

by_hash-insert_token :
    (hash : ℕ) (u : RefreshToken) (tokens tokens' : List RefreshToken) {t : RefreshToken}
    → insert_token u tokens ≡ some tokens'
    → by_hash hash tokens ≡ some t
    → by_hash hash tokens' ≡ some t
unfolding insert_token
by_hash-insert_token hash u tokens tokens' e found =
    let (_, same) = some_when-eq-some _ _ tokens' e in
    rw (← same) (find-append (λ t. t.token_hash == hash) tokens (u ∷ []) found)

-- A first use that succeeds leaves the token revoked, in the place where its text finds it, and
-- replaced by the new one.
module _ (crypto : Crypto) (now : ℕ) (fresh : Fresh) (input : RefreshInput) (db : AuthDb) where
  refresh-leaves :
      {pair : TokenPair}
      → (refresh crypto now fresh input db).0 ≡ ok pair
      → (t : RefreshToken) × (by_hash
            (crypto.sha256_hex input.refresh_token)
            (refresh crypto now fresh input db).1.refresh_tokens
          ≡ some (set_replaced now fresh.token_id t))
        × (pair.refresh_token ≡ fresh.token)
  unfolding refresh
  refresh-leaves {pair} done =
      elim (Option-cases (by_hash (crypto.sha256_hex input.refresh_token) db.refresh_tokens)) [
        | inl missing ↦ absurd (ok-ne-err (sym (rw missing at done)))
        | inr (t, found) ↦ elim (Bool-cases (is_some t.revoked_at)) [
          | inl reused ↦ elim (Option-cases (revoke_from now t.replaced_by db.refresh_tokens)) [
            | inl spent ↦ absurd (ok-ne-err (sym (rw (found, reused, spent) at done)))
            | inr (tokens, run) ↦ absurd (ok-ne-err (sym (rw (found, reused, run) at done)))
          ]
          | inr valid ↦ elim (Result-cases (admit_refresh now db t)) [
            | inr (e, refused) ↦ absurd (ok-ne-err (sym (rw (found, valid, refused) at done)))
            | inl (user, passed) ↦
                elim (Option-cases (
                  insert_token (new_token crypto now fresh user.id input.user_agent)
                    db.refresh_tokens)) [
                      | inl taken ↦
                          absurd (ok-ne-err (sym (rw (found, valid, passed, taken) at done)))
                      | inr (tokens, inserted) ↦
                          let same : ok (token_pair crypto fresh user) ≡ ok pair =
                            rw (found, valid, passed, inserted) at done in
                          let is_pair : token_pair crypto fresh user ≡ pair = cc in
                          (
                            t,
                            rw (found, valid, passed, inserted)
                                (find-update_where
                                  (λ u. u.token_hash == crypto.sha256_hex input.refresh_token)
                                  (λ u. u.id == t.id) (set_replaced now fresh.token_id) (λ u. refl)
                                  tokens
                                  (by_hash-insert_token (crypto.sha256_hex input.refresh_token)
                                    (new_token crypto now fresh user.id input.user_agent)
                                    db.refresh_tokens tokens inserted found)
                                  (==_refl t.id)),
                            sym (ap (λ (x : TokenPair). x.refresh_token) is_pair),
                          )
                    ]
          ]
        ]
      ]

-- A refresh token that was used with success is refused from then on, whatever the time, and its
-- second use revokes the token that the first use gave out.
pub refresh-once :
    (crypto : Crypto) (now now' : ℕ) (fresh fresh' : Fresh) (input : RefreshInput)
    (user_agent : Option Text) (db : AuthDb) {pair : TokenPair}
    → (refresh crypto now fresh input db).0 ≡ ok pair
    → let db' = (refresh crypto now fresh input db).1 in
      let again : RefreshInput = record {
        refresh_token = input.refresh_token;
        user_agent = user_agent;
      } in
      ((refresh crypto now' fresh' again db').0 ≡ unauthorized token_reused)
      × (is_live (refresh crypto now' fresh' again db').1.refresh_tokens fresh.token_id ≡ false)
refresh-once crypto now now' fresh fresh' input user_agent db done =
    let (t, found, _) = refresh-leaves crypto now fresh input db done in
    refresh-reuse crypto now' fresh'
      (record { refresh_token = input.refresh_token; user_agent = user_agent })
      (refresh crypto now fresh input db).1 found refl refl stays
