-- ===== src/Tests/Members.antt =====
-- The lists of users at a small directory.
use ufcim_backend_proto.Prelude.{
  ℕ, ◌≤◌, ◌≡◌, refl, Bool, true, false, ◌==◌, if◌then◌else◌, List, [], ◌∷◌, length, map, select,
  Option, some, none, arith,
}
use ufcim_backend_proto.Schema.{confirmed_notice, UserRole, staff, student, maintenance}
use ufcim_backend_proto.Schedule.Times.{Text}
use ufcim_backend_proto.Texts.{trim_start, trim_end}
use ufcim_backend_proto.Users.{
  slug, Member, Requestable, Engine, take, starts, anywhere, is_end, is_wildcard, ascii_lower,
  requestable, requester_search_limit, like_contains, search_requesters, all_for_admin,
  list_for_admin, list_users,
}
use ufcim_backend_proto.Errors.{Result, ok, err}
use ufcim_backend_proto.Inbox.{Notice, unread_count}
use ufcim_backend_proto.Schedule.Times.{text_eq}
use ufcim_backend_proto.Users.Profile.{MeProfile, get_by_id, get_by_email, get_me_profile}
use ufcim_backend_proto.Users.Search.{is_hit, search_requesters-literal}
use ufcim_backend_proto.Users.Paging.{pages, list_for_admin-pages}

abbrev starts_any : (Text → Bool) → Text → Bool
starts_any rest [] = false
starts_any rest (d ∷ ds) = rest ds

abbrev like_from : Bool → Text → Text → Bool
like_from true [] t = false
like_from true (c ∷ p) t = starts c (like_from false p) t
like_from false [] t = is_end t
like_from false (c ∷ p) t =
    if c == b'%'
    then anywhere (like_from false p) t
    else (if c == b'\\'
        then like_from true p t
        else (if c == b'_'
            then starts_any (like_from false p) t
            else starts c (like_from false p) t))

plain_letter :
    (c : ℕ)
    → is_wildcard c ≡ false
    → (c == b'%' ≡ false) × (c == b'\\' ≡ false) × (c == b'_' ≡ false)
plain_letter c h = (ground (arith, h), ground (arith, h), ground (arith, h))

like_from-other :
    (c : ℕ) (p t : Text)
    → is_wildcard c ≡ false
    → like_from false (c ∷ p) t ≡ starts c (like_from false p) t
like_from-other c p t h = let (a, b, d) = plain_letter c h in rw (a, b, d) refl

abbrev engine : Engine
engine = record {
  like = like_from false;
  by_name = λ us. us;
  lower = map ascii_lower;
  to_lower_case = map ascii_lower;
  like_empty = λ t. refl;
  like_percent = λ p t. refl;
  like_escaped = λ c p t. refl;
  like_other = like_from-other;
}

abbrev member : ℕ → Text → UserRole → Member
member id name role = record {
  id = id;
  name = name;
  email = [];
  role = role;
  department = slug (b'i' ∷ []);
  disabled_at = none;
  deleted_at = none;
}

-- `A_b`, `Acb` and, in maintenance, `a_B`
abbrev directory : List Member
directory =
    member 1 (b'A' ∷ b'_' ∷ b'b' ∷ []) student
    ∷ member 2 (b'A' ∷ b'c' ∷ b'b' ∷ []) staff
    ∷ member 3 (b'a' ∷ b'_' ∷ b'B' ∷ []) maintenance
    ∷ []

-- `" a_"`
abbrev query : Text
query = b' ' ∷ b'a' ∷ b'_' ∷ []

abbrev found_ids : List ℕ
found_ids = map (λ (r : Requestable). r.id) (search_requesters engine query 9 directory)

finds_underscore : found_ids ≡ 1 ∷ []
unfolding search_requesters like_contains trim_start trim_end
finds_underscore = refl

second_page :
    (map (λ (u : Member). u.id) (list_for_admin engine 2 2 false directory).data_rows ≡ 3 ∷ [])
    × (map (λ (u : Member). u.id) (list_users engine 2 1 directory) ≡ 2 ∷ [])
unfolding list_for_admin list_users
second_page = (refl, refl)

search_requesters-literal_example :
    search_requesters engine query 9 directory
    ≡ map requestable (
        take requester_search_limit (
          engine.by_name (
            select
              (is_hit engine (engine.to_lower_case (trim_end (trim_start query))) 9)
              directory)))
search_requesters-literal_example = search_requesters-literal engine query 9 directory

list_for_admin-pages_example :
    (length (list_for_admin engine 1 2 true directory).data_rows ≤ 2)
    × (pages engine true directory 2 (list_for_admin engine 1 2 true directory).total_pages
        ≡ all_for_admin engine true directory)
list_for_admin-pages_example = list_for_admin-pages engine true directory 2 1 (omega arith)

abbrev notices : List Notice
notices =
    record { id = 1; user_id = 2; kind = confirmed_notice; read = false; created_at = 10 }
    ∷ record { id = 2; user_id = 2; kind = confirmed_notice; read = true; created_at = 11 }
    ∷ []

abbrev unread_of : Result MeProfile → Option ℕ
unread_of (ok p) = some p.unread
unread_of (err e) = none

shows_unread :
    (unread_of (get_me_profile 2 directory notices) ≡ some 1)
    × (unread_of (get_me_profile 7 directory notices) ≡ none)
    × (get_by_email (b'a' ∷ []) directory ≡ none)
unfolding get_me_profile get_by_id get_by_email unread_count text_eq
shows_unread = (refl, refl, refl)
