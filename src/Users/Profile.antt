-- ===== src/Users/Profile.antt =====
-- services/user.service.ts `getById`, `getByEmail` and `getMeProfile`.
use ufcim_backend_proto.Prelude.{ℕ, Option, none, some, List, ◌==◌, find}
use ufcim_backend_proto.Errors.{Result, ok, ◌>>=◌}
use ufcim_backend_proto.Reservation.Guards.{found}
use ufcim_backend_proto.Schedule.Times.{Text, text_eq}
use ufcim_backend_proto.Inbox.{Notice, unread_count}
use ufcim_backend_proto.Users.{Member, DepartmentField, relation, slug, nameless}

unfoldable pub get_by_id : ℕ → List Member → Result Member
get_by_id id users = found (find (λ u. u.id == id) users)

unfoldable pub get_by_email : Text → List Member → Option Member
get_by_email email users = find (λ u. text_eq u.email email) users

-- `user.department?.name ?? user.department`; no relation is `null`.
abbrev profile_department : DepartmentField → Option Text
profile_department (relation name) = some name
profile_department (slug id) = some id
profile_department nameless = none

pub record MeProfile : Type 0 where
  pub user : Member
  pub department : Option Text
  pub unread : ℕ

unfoldable pub get_me_profile : ℕ → List Member → List Notice → Result MeProfile
get_me_profile id users notices = do
  u ← get_by_id id users
  ok (record {
    user = u;
    department = profile_department u.department;
    unread = unread_count id notices;
  })
