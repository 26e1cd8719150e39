-- ===== src/Auth/Chain.antt =====
-- services/auth.service.ts `revokeChain`: the loop ends, and leaves no replacement alive.
use ufcim_backend_proto.Prelude.{
  ℕ, zero, suc, ◌+◌, ◌<◌, ◌≡◌, refl, sym, ◌∙◌, ap, subst, ◌⊎◌, inl, inr, true, false, not, Option,
  none, some, List, [], ◌∷◌, arith, ◌==◌, ==_iff, length, length-select-le, Bool-cases,
  Option-cases,
}
use ufcim_backend_proto.Auth.{RefreshToken}
use ufcim_backend_proto.Auth.Refresh.{find_token, revoke_found, revoke_chain, revoke_from}
use ufcim_backend_proto.Auth.Tokens.{
  is_live, next_of, Follows, stays, moves, first_move, next_of-revoke_found, is_live-revoke_found,
  is_live-revoke_found_self, among, unseen, unseen-revoke_found, unseen-visit,
}

none-ne-some : (o : Option ℕ) {c : ℕ} → o ≡ none → o ≡ some c → ⊥
none-ne-some o n s = cc

-- What the current identifier leads to.
abbrev From : (ℕ → Option ℕ) → Option ℕ → ℕ → Type 0
From next none b = ⊥
From next (some a) b = Follows next a b

module _ (next : ℕ → Option ℕ) where
  -- The visited tokens are dead, and what follows them is visited too, or current.
  record IsVisited (visited : List ℕ) (current : Option ℕ) (tokens : List RefreshToken)
      : Type 0 where
    agrees : (x : ℕ) → next_of tokens x ≡ next x
    dead : (v : ℕ) → among visited v ≡ true → is_live tokens v ≡ false
    closed :
        (v c : ℕ)
        → among visited v ≡ true
        → next v ≡ some c
        → (among visited c ≡ true) ⊎ (current ≡ some c)

  among-Follows :
      (visited : List ℕ) {a b : ℕ}
      → ((v c : ℕ) → among visited v ≡ true → next v ≡ some c → among visited c ≡ true)
      → Follows next a b
      → among visited a ≡ true
      → among visited b ≡ true
  among-Follows visited closed stays h = h
  among-Follows visited closed (moves e p) h = among-Follows visited closed p (closed _ _ h e)

  module _ (now id : ℕ) (visited : List ℕ) (tokens : List RefreshToken) (t : RefreshToken)
      (found : find_token tokens id ≡ some t) (inv : IsVisited visited (some id) tokens) where
    next-found : next id ≡ t.replaced_by
    next-found = sym (inv.agrees id) ∙ rw found refl

    IsVisited-visit : IsVisited (id ∷ visited) t.replaced_by (revoke_found now id t tokens)
    IsVisited-visit = record {
      agrees = λ x. next_of-revoke_found now id t tokens x ∙ inv.agrees x;
      dead = λ v h. elim (Bool-cases (id == v)) [
        | inl same ↦
            subst (λ (w : ℕ). is_live (revoke_found now id t tokens) w ≡ false)
              ((==_iff id v).0 same) (is_live-revoke_found_self now id t tokens found)
        | inr other ↦ is_live-revoke_found now id t tokens v (inv.dead v (rw other at h))
      ];
      closed = λ v c h e. elim (Bool-cases (id == v)) [
        | inl same ↦ inr (sym next-found ∙ (ap next ((==_iff id v).0 same) ∙ e))
        | inr other ↦ elim (inv.closed v c (rw other at h) e) [
          | inl seen ↦ inl (ground arith)
          | inr current ↦ inl (ground arith)
        ]
      ];
    }

  abbrev Ends : ℕ → ℕ → Option ℕ → List ℕ → List RefreshToken → Type 0
  Ends now fuel current visited tokens =
      (tokens' : List RefreshToken) × (revoke_chain now fuel current visited tokens ≡ some tokens')
      × ((v : ℕ) → is_live tokens v ≡ false → is_live tokens' v ≡ false)
      × ((b : ℕ) → From next current b → is_live tokens' b ≡ false)

  all_closed :
      (visited : List ℕ) (tokens : List RefreshToken) {id : ℕ}
      → IsVisited visited (some id) tokens
      → among visited id ≡ true
      → (v c : ℕ) → among visited v ≡ true
      → next v ≡ some c
      → among visited c ≡ true
  all_closed visited tokens inv seen v c h e = elim (inv.closed v c h e) [
    | inl in_it ↦ in_it
    | inr current ↦ ground arith
  ]

  revoke_chain-Ends :
      (now fuel : ℕ) (current : Option ℕ) (visited : List ℕ) (tokens : List RefreshToken)
      → unseen visited tokens < fuel
      → IsVisited visited current tokens
      → Ends now fuel current visited tokens
  unfolding revoke_chain
  revoke_chain-Ends now zero current visited tokens h inv = absurd (omega arith)
  revoke_chain-Ends now (suc fuel) none visited tokens h inv =
      (tokens, refl, λ v d. d, λ b p. absurd p)
  revoke_chain-Ends now (suc fuel) (some id) visited tokens h inv =
      elim (Bool-cases (among visited id)) [
        | inl seen ↦ (
          tokens,
          rw seen refl,
          λ v d. d,
          λ b p. inv.dead b (among-Follows visited (all_closed visited tokens inv seen) p seen),
        )
        | inr new ↦ elim (Option-cases (find_token tokens id)) [
          | inl missing ↦ (
            tokens,
            rw (new, missing) refl,
            λ v d. d,
            λ b p. elim (first_move p) [
              | inl same ↦ subst (λ (w : ℕ). is_live tokens w ≡ false) same (rw missing refl)
              | inr (c, e, q) ↦
                  absurd (none-ne-some (next id) (sym (inv.agrees id) ∙ rw missing refl) e)
            ],
          )
          | inr (t, found) ↦
              let inv' = IsVisited-visit now id visited tokens t found inv in
              let less = unseen-visit id visited tokens new found in
              let (tokens', run, keeps, reached) =
                revoke_chain-Ends now fuel t.replaced_by (id ∷ visited)
                  (revoke_found now id t tokens)
                  (omega (arith, less, unseen-revoke_found now id t (id ∷ visited) tokens)) inv' in
              (
                tokens',
                rw (new, found) run,
                λ v d. keeps v (is_live-revoke_found now id t tokens v d),
                λ b p. elim (first_move p) [
                  | inl same ↦
                      subst (λ (w : ℕ). is_live tokens' w ≡ false) same
                        (keeps id (is_live-revoke_found_self now id t tokens found))
                  | inr (c, e, q) ↦ reached b (
                      subst (λ (o : Option ℕ). From next o b)
                        (sym (sym (next-found now id visited tokens t found inv) ∙ e)) q)
                ],
              )
        ]
      ]

-- Revoking a chain ends, and afterwards no token that the replacements lead to is live, whether or
-- not they come back to one another.
pub revoke_from-ends :
    (now a b : ℕ) (tokens : List RefreshToken)
    → Follows (next_of tokens) a b
    → (tokens' : List RefreshToken) × (revoke_from now (some a) tokens ≡ some tokens')
      × (is_live tokens' b ≡ false)
unfolding revoke_from
revoke_from-ends now a b tokens p =
    let (tokens', run, keeps, reached) =
      revoke_chain-Ends (next_of tokens) now (length tokens + 2) (some a) [] tokens
        (omega (arith, length-select-le (λ t. not (among [] t.id)) tokens))
        (record { agrees = λ x. refl; dead = λ v h. cc; closed = λ v c h e. cc }) in
    (tokens', run, reached b p)
