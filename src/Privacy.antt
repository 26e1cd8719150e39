-- ===== src/Privacy.antt =====
-- lib/reservation-privacy.ts: whose name and contact a viewer gets to see.
pub mod Laws
use ufcim_backend_proto.Prelude.{
  ℕ, Bool, true, false, not, ◌&&◌, ◌||◌, Option, none, some, ◌==◌, if◌then◌else◌, holds_id,
}
use ufcim_backend_proto.Schema.{UserRole, student, is_staff}

-- `ownerId` is empty, here `none`, for a requester without an account.
pub record AuthorInput : Type 0 where
  pub owner_id : Option ℕ
  pub owner_name : ℕ
  pub owner_role : UserRole

pub record Viewer : Type 0 where
  pub user_id : ℕ
  pub role : UserRole

-- A person's name, or the label of a role (lib/role-labels.ts has one for each role).
pub data DisplayName : Type 0 where
  full_name : ℕ → DisplayName
  role_label : UserRole → DisplayName

pub record Author : Type 0 where
  pub display_name : DisplayName
  pub role : UserRole
  pub is_self : Bool

abbrev pub is_privileged : UserRole → Bool
is_privileged student = false
is_privileged _ = true

unfoldable pub format_reservation_author : AuthorInput → Viewer → Bool → Author
format_reservation_author owner viewer is_manager =
    if holds_id owner.owner_id viewer.user_id
    then record {
      display_name = full_name owner.owner_name;
      role = owner.owner_role;
      is_self = true;
    }
    else if is_privileged viewer.role || is_manager
    then record {
      display_name = full_name owner.owner_name;
      role = owner.owner_role;
      is_self = false;
    }
    else record {
      display_name = role_label owner.owner_role;
      role = owner.owner_role;
      is_self = false;
    }

pub record PersonRef : Type 0 where
  pub id : ℕ
  pub name : ℕ
  pub role : UserRole

-- A reservation row with its owner and its requester loaded.
pub record ReservationAuthorSource : Type 0 where
  pub user_id : ℕ
  pub user : Option PersonRef
  pub requester_user_id : Option ℕ
  pub requester : Option PersonRef
  pub requester_name : Option ℕ

abbrev owner_author : ℕ → Option ℕ → Option PersonRef → Option AuthorInput
owner_author user_id requester_name none = none
owner_author user_id (some name) (some user) =
    some (record { owner_id = none; owner_name = name; owner_role = user.role })
owner_author user_id none (some user) =
    some (record { owner_id = some user_id; owner_name = user.name; owner_role = user.role })

abbrev registered_author : Option ℕ → Option PersonRef → Option AuthorInput → Option AuthorInput
registered_author (some id) (some p) other =
    some (record { owner_id = some id; owner_name = p.name; owner_role = p.role })
registered_author (some id) none other = other
registered_author none p other = other

unfoldable pub reservation_author_input : ReservationAuthorSource → Option AuthorInput
reservation_author_input r =
    registered_author r.requester_user_id r.requester
      (owner_author r.user_id r.requester_name r.user)

-- A key that the answer leaves out, or the value that it has, perhaps `null`.
pub data ContactField : Type 0 where
  omitted : ContactField
  shown : Option ℕ → ContactField

abbrev pub requester_contact_for : UserRole → Option ℕ → ContactField
requester_contact_for role contact = if is_staff role then shown contact else omitted

pub record NamedRef : Type 0 where
  pub id : ℕ
  pub name : ℕ

pub record MineReservationRow : Type 0 where
  pub user_id : ℕ
  pub created_by : ℕ
  pub requester_user_id : Option ℕ
  pub requester_name : Option ℕ
  pub requester_contact : Option ℕ
  pub creator : Option NamedRef
  pub requester : Option NamedRef

-- A requester without an account has no identifier; an account that is not loaded has no name.
pub record RequesterRef : Type 0 where
  pub user_id : Option ℕ
  pub name : Option ℕ

pub record PresentedRow : Type 0 where
  pub user_id : ℕ
  pub created_by : ℕ
  pub requester_user_id : Option ℕ
  pub requester_name : Option ℕ
  pub requester_contact : ContactField
  pub requester : Option RequesterRef
  pub registered_by : Option NamedRef
  pub on_behalf_of_me : Bool

abbrev name_of_ref : Option NamedRef → Option ℕ
name_of_ref none = none
name_of_ref (some p) = some p.name

abbrev requester_ref : Option ℕ → Option ℕ → Option NamedRef → Option RequesterRef
requester_ref (some id) name p = some (record { user_id = some id; name = name_of_ref p })
requester_ref none (some name) p = some (record { user_id = none; name = some name })
requester_ref none none p = none

unfoldable pub present_reservation_for_viewer : MineReservationRow → Viewer → PresentedRow
present_reservation_for_viewer row viewer = record {
  user_id = row.user_id;
  created_by = row.created_by;
  requester_user_id = row.requester_user_id;
  requester_name = row.requester_name;
  requester_contact = requester_contact_for viewer.role row.requester_contact;
  requester = requester_ref row.requester_user_id row.requester_name row.requester;
  registered_by = row.creator;
  on_behalf_of_me =
      holds_id row.requester_user_id viewer.user_id && not (row.user_id == viewer.user_id);
}
