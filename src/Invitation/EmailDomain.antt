-- ===== src/Invitation/EmailDomain.antt =====
-- lib/email-domain.ts
use ufcim_backend_proto.Prelude.{
  ℕ, Bool, true, false, not, ◌&&◌, ◌||◌, Option, none, some, List, [], ◌∷◌, ◌==◌, any, first_some,
  if◌then◌else◌,
}
use ufcim_backend_proto.Errors.{
  Result, throw_if, app_error, email_domain_not_allowed, domain_not_allowed,
}
use ufcim_backend_proto.Schedule.Times.{Text, text_eq}
use ufcim_backend_proto.Auth.{Crypto, trim}

-- `.split(',')`
abbrev onto_first : ℕ → List Text → List Text
onto_first c [] = (c ∷ []) ∷ []
onto_first c (w ∷ ws) = (c ∷ w) ∷ ws

unfoldable pub split_commas : Text → List Text
split_commas [] = [] ∷ []
split_commas (c ∷ cs) = if c == 44 then [] ∷ split_commas cs else onto_first c (split_commas cs)

abbrev is_empty : Text → Bool
is_empty [] = true
is_empty (c ∷ cs) = false

abbrev clean : Crypto → List Text → List Text
clean crypto [] = []
clean crypto (w ∷ ws) =
    let d = crypto.to_lower_case (trim w) in
    let rest = clean crypto ws in if is_empty d then rest else d ∷ rest

unfoldable pub parse_allowed_domains : Crypto → Text → List Text
parse_allowed_domains crypto t = clean crypto (split_commas t)

-- `entry.startsWith('*.')`, with what follows.
abbrev pub wildcard_base : Text → Option Text
wildcard_base (c ∷ d ∷ base) = if c == 42 && d == 46 then some base else none
wildcard_base _ = none

unfoldable pub ends_with : Text → Text → Bool
ends_with [] suffix = text_eq [] suffix
ends_with (c ∷ cs) suffix = text_eq (c ∷ cs) suffix || ends_with cs suffix

unfoldable pub domain_matches : Text → Text → Bool
domain_matches domain entry = elim (wildcard_base entry) [
  | none ↦ text_eq domain entry
  | some base ↦ text_eq domain base || ends_with domain (46 ∷ base)
]

-- What follows the last at sign, or all.
abbrev after_last_at : Text → Option Text
after_last_at [] = none
after_last_at (c ∷ cs) = first_some (after_last_at cs) (if c == 64 then some cs else none)

abbrev pub domain_of : Text → Text
domain_of email = elim (after_last_at email) [ none ↦ email | some d ↦ d ]

abbrev pub is_allowed : Crypto → List Text → Text → Bool
is_allowed crypto [] email = true
is_allowed crypto entries email =
    any (domain_matches (crypto.to_lower_case (domain_of email))) entries

unfoldable pub assert_allowed_domain : Crypto → Text → Text → Result (Unit {0})
assert_allowed_domain crypto domains email =
    throw_if (not (is_allowed crypto (parse_allowed_domains crypto domains) email))
      (app_error 422 email_domain_not_allowed domain_not_allowed)
