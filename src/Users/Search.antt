-- ===== src/Users/Search.antt =====
-- services/user.service.ts `searchRequesters`: the wildcards of LIKE in the query stand for themselves.
use ufcim_backend_proto.Prelude.{
  ℕ, ◌≡◌, refl, ◌∙◌, ap, Bool, true, false, ◌&&◌, ◌||◌, List, [], ◌∷◌, ◌++◌, map, select,
  Bool-cases, inl, inr, arith,
}
use mathlib.Core.Path.{fun_ext}
use ufcim_backend_proto.Schedule.Times.{Text}
use ufcim_backend_proto.Texts.{trim_start, trim_end}
use ufcim_backend_proto.Users.{
  take, Member, Engine, starts, anywhere, same_letter, is_wildcard, escape, like_contains,
  is_requestable, requestable, requester_search_limit, search_requesters,
}

-- `word` stands at the start of a text, up to the case of ASCII letters.
abbrev is_prefix : Text → Text → Bool
is_prefix [] t = true
is_prefix (c ∷ cs) [] = false
is_prefix (c ∷ cs) (d ∷ ds) = same_letter c d && is_prefix cs ds

abbrev occurs : Text → Text → Bool
occurs word [] = is_prefix word []
occurs word (d ∷ ds) = is_prefix word (d ∷ ds) || occurs word ds

or_true : (b : Bool) → (b || true) ≡ true
or_true b = ground arith

module _ (e : Engine) where
  percent-all : (t : Text) → anywhere (e.like []) t ≡ true
  percent-all [] = e.like_empty []
  percent-all (d ∷ ds) =
      ap (λ b. e.like [] (d ∷ ds) || b) (percent-all ds) ∙ or_true (e.like [] (d ∷ ds))

  like-tail : (t : Text) → e.like (b'%' ∷ []) t ≡ true
  like-tail t = e.like_percent [] t ∙ percent-all t

  starts-prefix :
      (c : ℕ) (cs : Text) (rest : Text → Bool)
      → ((t : Text) → rest t ≡ is_prefix cs t)
      → (t : Text) → starts c rest t ≡ is_prefix (c ∷ cs) t
  starts-prefix c cs rest h [] = refl
  starts-prefix c cs rest h (d ∷ ds) = ap (λ b. same_letter c d && b) (h ds)

  like-escape : (word t : Text) → e.like (escape word ++ b'%' ∷ []) t ≡ is_prefix word t
  like-escape [] t = like-tail t
  like-escape (c ∷ cs) t =
      let rest : Text = escape cs ++ b'%' ∷ [] in
      let step = starts-prefix c cs (e.like rest) (λ u. like-escape cs u) t in
      elim (Bool-cases (is_wildcard c)) [
        | inl special ↦ rw special (e.like_escaped c rest t ∙ step)
        | inr plain ↦ rw plain (e.like_other c rest t plain ∙ step)
      ]

  anywhere-occurs :
      (word : Text) (rest : Text → Bool)
      → ((t : Text) → rest t ≡ is_prefix word t)
      → (t : Text) → anywhere rest t ≡ occurs word t
  anywhere-occurs word rest h [] = h []
  anywhere-occurs word rest h (d ∷ ds) = rw (h (d ∷ ds), anywhere-occurs word rest h ds) refl

  like_contains-occurs :
      (term t : Text) → e.like (like_contains e term) t ≡ occurs (e.to_lower_case term) t
  unfolding like_contains
  like_contains-occurs term t =
      let word : Text = e.to_lower_case term in
      e.like_percent (escape word ++ b'%' ∷ []) t
      ∙ anywhere-occurs word (e.like (escape word ++ b'%' ∷ [])) (λ u. like-escape word u) t

  -- The users that the search is to find, for the trimmed query in lower case.
  abbrev pub is_hit : Text → ℕ → Member → Bool
  is_hit word exclude u =
      is_requestable exclude u && (occurs word (e.lower u.name) || occurs word (e.lower u.email))

  -- `searchRequesters` returns, by name, the first 10 of the users that are neither disabled nor
  -- deleted, are not maintenance, are not the one who searches, and whose name or address, in the
  -- database's lower case, contains the trimmed query, in the runtime's lower case, up to the case of
  -- ASCII letters: `%`, `_` and `\` in the query stand for themselves. The database's LIKE is taken to
  -- follow its documentation; of the two conversions to lower case nothing is assumed.
  pub search_requesters-literal :
      (q : Text) (exclude : ℕ) (users : List Member)
      → search_requesters e q exclude users
        ≡ map requestable (
            take requester_search_limit (
              e.by_name
                (select (is_hit (e.to_lower_case (trim_end (trim_start q))) exclude) users)))
  unfolding search_requesters
  search_requesters-literal q exclude users =
      let term : Text = trim_end (trim_start q) in
      ap
        (λ (p : Member → Bool).
          map requestable (take requester_search_limit (e.by_name (select p users))))
        (fun_ext (λ u.
          ap
            (λ b.
              is_requestable exclude u && (b || e.like (like_contains e term) (e.lower u.email)))
            (like_contains-occurs term (e.lower u.name))
          ∙ ap
              (λ b.
                is_requestable exclude u && (occurs (e.to_lower_case term) (e.lower u.name) || b))
              (like_contains-occurs term (e.lower u.email))))
