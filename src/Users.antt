-- ===== src/Users.antt =====
-- services/user.service.ts `list`, `listForAdmin` and `searchRequesters`, with lib/department-name.ts.

pub mod Paging
pub mod Profile
pub mod Search
use ufcim_backend_proto.Prelude.{
  ℕ, zero, suc, ◌+◌, ◌-◌, ◌*◌, ◌/◌, max, Bool, true, false, not, ◌&&◌, ◌||◌, Option, none, some,
  List, [], ◌∷◌, map, length, ◌++◌, leb, ◌==◌, ◌≡◌, select, is_some, if◌then◌else◌,
}
use ufcim_backend_proto.Schema.{UserRole, is_maintenance}
use ufcim_backend_proto.Schedule.Times.{Text}
use ufcim_backend_proto.Texts.{trim_start, trim_end}

-- The joined relation, with or without a name, the raw identifier, or anything else.
pub data DepartmentField : Type 0 where
  relation slug : Text → DepartmentField
  nameless : DepartmentField

abbrev pub department_name : DepartmentField → Text
department_name (relation name) = name
department_name (slug id) = id
department_name nameless = []

pub record Member : Type 0 where
  pub id : ℕ
  pub name : Text
  pub email : Text
  pub role : UserRole
  pub department : DepartmentField
  pub disabled_at : Option ℕ
  pub deleted_at : Option ℕ

pub record Requestable : Type 0 where
  pub id : ℕ
  pub name : Text
  pub role : UserRole
  pub department : Text

abbrev pub take {ℓ} : {A : Type ℓ} → ℕ → List A → List A
take zero xs = []
take (suc n) [] = []
take (suc n) (x ∷ xs) = x ∷ take n xs

abbrev pub drop {ℓ} : {A : Type ℓ} → ℕ → List A → List A
drop zero xs = xs
drop (suc n) [] = []
drop (suc n) (x ∷ xs) = drop n xs

-- Two characters that LIKE takes for the same: ASCII letters up to case.
abbrev pub ascii_lower : ℕ → ℕ
ascii_lower c = if leb 65 c && leb c 90 then c + 32 else c

abbrev pub same_letter : ℕ → ℕ → Bool
same_letter c d = ascii_lower c == ascii_lower d

abbrev pub starts : ℕ → (Text → Bool) → Text → Bool
starts c rest [] = false
starts c rest (d ∷ ds) = same_letter c d && rest ds

abbrev pub anywhere : (Text → Bool) → Text → Bool
anywhere rest [] = rest []
anywhere rest (d ∷ ds) = rest (d ∷ ds) || anywhere rest ds

abbrev pub is_end : Text → Bool
is_end [] = true
is_end (c ∷ cs) = false

-- `\`, `%` and `_`
abbrev pub is_wildcard : ℕ → Bool
is_wildcard c = c == b'\\' || (c == b'%' || c == b'_')

-- What the queries use of the database and of the runtime: LIKE with the escape `\`, as SQLite documents
-- it, the order by name, and the two conversions to lower case.
pub record Engine : Type 0 where
  pub like : Text → Text → Bool
  pub by_name : List Member → List Member
  pub lower : Text → Text
  pub to_lower_case : Text → Text
  pub like_empty : (t : Text) → like [] t ≡ is_end t
  pub like_percent : (p t : Text) → like (b'%' ∷ p) t ≡ anywhere (like p) t
  pub like_escaped : (c : ℕ) (p t : Text) → like (b'\\' ∷ c ∷ p) t ≡ starts c (like p) t
  pub like_other :
      (c : ℕ) (p t : Text) → is_wildcard c ≡ false → like (c ∷ p) t ≡ starts c (like p) t

abbrev pub escape : Text → Text
escape [] = []
escape (c ∷ cs) = if is_wildcard c then b'\\' ∷ c ∷ escape cs else c ∷ escape cs

abbrev pub requester_search_limit : ℕ
requester_search_limit = 10

unfoldable pub like_contains : Engine → Text → Text
like_contains e term = b'%' ∷ escape (e.to_lower_case term) ++ b'%' ∷ []

-- The conditions of the search but the text.
abbrev pub is_requestable : ℕ → Member → Bool
is_requestable exclude u =
    not (is_some u.disabled_at)
    && (not (is_some u.deleted_at) && (not (is_maintenance u.role) && not (u.id == exclude)))

abbrev pub matches_pattern : Engine → Text → Member → Bool
matches_pattern e pattern u = e.like pattern (e.lower u.name) || e.like pattern (e.lower u.email)

abbrev pub requestable : Member → Requestable
requestable u = record {
  id = u.id;
  name = u.name;
  role = u.role;
  department = department_name u.department;
}

unfoldable pub search_requesters : Engine → Text → ℕ → List Member → List Requestable
search_requesters e q exclude users =
    let pattern = like_contains e (trim_end (trim_start q)) in
    map requestable (
      take requester_search_limit
        (e.by_name (select (λ u. is_requestable exclude u && matches_pattern e pattern u) users)))

pub record PaginatedUsers : Type 0 where
  pub data_rows : List Member
  pub page : ℕ
  pub limit : ℕ
  pub total : ℕ
  pub total_pages : ℕ

-- `slice (start, start + limit)`; page 0 would start before the list and end at its start.
abbrev pub page_of {ℓ} : {A : Type ℓ} → ℕ → ℕ → List A → List A
page_of zero limit rows = []
page_of (suc before) limit rows = take limit (drop (before * limit) rows)

-- The two queries read the users that are not marked as deleted.
unfoldable pub list_users : Engine → ℕ → ℕ → List Member → List Member
list_users e page limit users =
    take limit
      (drop ((page - 1) * limit) (e.by_name (select (λ u. not (is_some u.deleted_at)) users)))

abbrev pub all_for_admin : Engine → Bool → List Member → List Member
all_for_admin e include_deleted users =
    e.by_name (if include_deleted then users else select (λ u. not (is_some u.deleted_at)) users)

-- `Math.max (1, Math.ceil (total / limit))` of a limit that is not 0
abbrev pub page_count : ℕ → ℕ → ℕ
page_count total limit = max 1 ((total + (limit - 1)) / limit)

unfoldable pub list_for_admin : Engine → ℕ → ℕ → Bool → List Member → PaginatedUsers
list_for_admin e page limit include_deleted users =
    let all = all_for_admin e include_deleted users in
    record {
      data_rows = page_of page limit all;
      page = page;
      limit = limit;
      total = length all;
      total_pages = page_count (length all) limit;
    }
