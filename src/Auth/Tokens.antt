-- ===== src/Auth/Tokens.antt =====
-- services/auth.service.ts `revokeChain`: the rows that replacements lead to, and those not yet met.
use ufcim_backend_proto.Prelude.{
  ℕ, ◌<◌, ◌≤◌, ◌≡◌, refl, ◌⊎◌, inl, inr, Bool, false, not, Option, none, some, List, [], ◌∷◌, arith,
  ◌==◌, ==_iff, ==_refl, any, select, length, is_some, update_where, Bool-cases,
}
use ufcim_backend_proto.Auth.{RefreshToken}
use ufcim_backend_proto.Auth.Refresh.{find_token, set_revoked, revoke_found}

abbrev live_row : Option RefreshToken → Bool
live_row none = false
live_row (some t) = not (is_some t.revoked_at)

-- The identifier has a token that is not revoked.
abbrev pub is_live : List RefreshToken → ℕ → Bool
is_live tokens id = live_row (find_token tokens id)

abbrev next_row : Option RefreshToken → Option ℕ
next_row none = none
next_row (some t) = t.replaced_by

abbrev pub next_of : List RefreshToken → ℕ → Option ℕ
next_of tokens id = next_row (find_token tokens id)

-- One or more replacements lead from one identifier to the other.
pub data Follows (next : ℕ → Option ℕ) : ℕ → ℕ → Type 0 where
  stays : {a : ℕ} → Follows next a a
  moves : {a b c : ℕ} → next a ≡ some b → Follows next b c → Follows next a c

pub first_move :
    {next : ℕ → Option ℕ} {a b : ℕ}
    → Follows next a b
    → (a ≡ b) ⊎ ((c : ℕ) × (next a ≡ some c) × Follows next c b)
first_move stays = inl refl
first_move (moves e p) = inr (_, e, p)

module _ (now id : ℕ) where
  abbrev pub revoked : List RefreshToken → List RefreshToken
  revoked tokens = update_where (λ u. u.id == id) (set_revoked now) tokens

  next_of-revoked :
      (tokens : List RefreshToken) (x : ℕ) → next_of (revoked tokens) x ≡ next_of tokens x
  next_of-revoked [] x = refl
  next_of-revoked (t ∷ ts) x = ground (arith, next_of-revoked ts x)

  is_live-revoked :
      (tokens : List RefreshToken) (x : ℕ)
      → is_live tokens x ≡ false
      → is_live (revoked tokens) x ≡ false
  is_live-revoked [] x h = refl
  is_live-revoked (t ∷ ts) x h = ground (arith, is_live-revoked ts x)

  is_live-revoked_self : (tokens : List RefreshToken) → is_live (revoked tokens) id ≡ false
  is_live-revoked_self [] = refl
  is_live-revoked_self (t ∷ ts) = ground (arith, is_live-revoked_self ts)

  module _ (t : RefreshToken) (tokens : List RefreshToken) where
    pub next_of-revoke_found : (x : ℕ) → next_of (revoke_found now id t tokens) x ≡ next_of tokens x
    next_of-revoke_found x = elim (Bool-cases (is_some t.revoked_at)) [
      | inl y ↦ rw y refl
      | inr n ↦ rw n (next_of-revoked tokens x)
    ]

    pub is_live-revoke_found :
        (x : ℕ) → is_live tokens x ≡ false → is_live (revoke_found now id t tokens) x ≡ false
    is_live-revoke_found x h = elim (Bool-cases (is_some t.revoked_at)) [
      | inl y ↦ rw y h
      | inr n ↦ rw n (is_live-revoked tokens x h)
    ]

    pub is_live-revoke_found_self :
        find_token tokens id ≡ some t → is_live (revoke_found now id t tokens) id ≡ false
    is_live-revoke_found_self found = elim (Bool-cases (is_some t.revoked_at)) [
      | inl y ↦ rw (y, found, y) refl
      | inr n ↦ rw n (is_live-revoked_self tokens)
    ]

abbrev pub among : List ℕ → ℕ → Bool
among visited id = any (λ v. v == id) visited

-- How many rows the loop has not met: what it can still visit.
abbrev pub unseen : List ℕ → List RefreshToken → ℕ
unseen visited tokens = length (select (λ t. not (among visited t.id)) tokens)

unseen-revoked :
    (now id : ℕ) (visited : List ℕ) (tokens : List RefreshToken)
    → unseen visited (revoked now id tokens) ≡ unseen visited tokens
unseen-revoked now id visited [] = refl
unseen-revoked now id visited (t ∷ ts) = ground (arith, unseen-revoked now id visited ts)

pub unseen-revoke_found :
    (now id : ℕ) (t : RefreshToken) (visited : List ℕ) (tokens : List RefreshToken)
    → unseen visited (revoke_found now id t tokens) ≡ unseen visited tokens
unseen-revoke_found now id t visited tokens = elim (Bool-cases (is_some t.revoked_at)) [
  | inl y ↦ rw y refl
  | inr n ↦ rw n (unseen-revoked now id visited tokens)
]

unseen-visit_le :
    (id : ℕ) (visited : List ℕ) (tokens : List RefreshToken)
    → unseen (id ∷ visited) tokens ≤ unseen visited tokens
unseen-visit_le id visited [] = omega arith
unseen-visit_le id visited (t ∷ ts) = ground (arith, unseen-visit_le id visited ts)

pub unseen-visit :
    (id : ℕ) (visited : List ℕ) (tokens : List RefreshToken) {t : RefreshToken}
    → among visited id ≡ false
    → find_token tokens id ≡ some t
    → unseen (id ∷ visited) tokens < unseen visited tokens
unseen-visit id visited [] new found = cc
unseen-visit id visited (t ∷ ts) new found = elim (Bool-cases (t.id == id)) [
  | inl here ↦
      let same = (==_iff t.id id).0 here in
      rw (same, ==_refl id, new) (ground (arith, unseen-visit_le id visited ts))
  | inr there ↦ ground (arith, unseen-visit id visited ts new (rw there at found))
]
