-- ===== src/Space/Details.antt =====
-- services/space.service.ts `enrichSlots` and the whole of `getAvailability`: what a viewer gets to know of an occupied slot.
use ufcim_backend_proto.Prelude.{
  ℕ, Bool, Option, none, some, List, [], ◌∷◌, map, find, select, is_some, or_else, first_some,
  option_map, ◌==◌,
}
use ufcim_backend_proto.Schedule.Times.{Text, intervals_overlap}
use ufcim_backend_proto.Schedule.Availability.{reserved, blocked}
use ufcim_backend_proto.Schema.{UserRole, Reservation, Blocking, BlockType, Db}
use ufcim_backend_proto.Space.{ViewStatus, of_status, ViewSlot, get_availability}
use ufcim_backend_proto.Reservation.Guards.{occupies, blocks}
use ufcim_backend_proto.Errors.{Result, ok, ◌>>=◌}
use ufcim_backend_proto.Privacy.{
  PersonRef, Viewer, AuthorInput, DisplayName, Author, ContactField, omitted, shown,
  format_reservation_author, reservation_author_input, requester_contact_for,
}

-- Rows with the relations that the query loads.
pub record LoadedReservation : Type 0 where
  pub row : Reservation
  pub user : Option PersonRef
  pub requester : Option PersonRef
  pub recurrence_description : Option Text

pub record LoadedBlocking : Type 0 where
  pub row : Blocking
  pub creator : Option PersonRef

-- `requesterContact` is there only if it is shown and not empty.
pub record ReservationDetail : Type 0 where
  pub id : ℕ
  pub purpose : Text
  pub description : Option Text
  pub is_recurring : Bool
  pub is_self : Bool
  pub display_name : DisplayName
  pub role : UserRole
  pub requester_contact : Option ℕ

pub record BlockingDetail : Type 0 where
  pub id : ℕ
  pub block_type : BlockType
  pub reason : Text
  pub range_start_date : ℕ
  pub range_end_date : ℕ
  pub display_name : DisplayName
  pub role : UserRole

pub data Detail : Type 0 where
  plain : Detail
  of_reservation : ReservationDetail → Detail
  of_blocking : BlockingDetail → Detail

pub record EnrichedSlot : Type 0 where
  pub slot : ViewSlot
  pub detail : Detail

abbrev pub contact_field : ContactField → Option ℕ
contact_field omitted = none
contact_field (shown c) = c

-- 'other'
abbrev other_purpose : Text
other_purpose = b'o' ∷ b't' ∷ b'h' ∷ b'e' ∷ b'r' ∷ []

abbrev pub author_input : LoadedReservation → Option AuthorInput
author_input r = reservation_author_input (record {
  user_id = r.row.user_id;
  user = r.user;
  requester_user_id = r.row.requester.requester_user_id;
  requester = r.requester;
  requester_name = r.row.requester.requester_name;
})

abbrev pub reservation_detail : Viewer → LoadedReservation → Author → ReservationDetail
reservation_detail viewer r author = record {
  id = r.row.id;
  purpose = or_else r.row.purpose other_purpose;
  description = first_some r.row.description r.recurrence_description;
  is_recurring = is_some r.row.recurrence_id;
  is_self = author.is_self;
  display_name = author.display_name;
  role = author.role;
  requester_contact =
      contact_field (requester_contact_for viewer.role r.row.requester.requester_contact);
}

abbrev pub describe_author : Viewer → Bool → LoadedReservation → Option AuthorInput → Detail
describe_author viewer is_manager r none = plain
describe_author viewer is_manager r (some a) =
    of_reservation (reservation_detail viewer r (format_reservation_author a viewer is_manager))

abbrev pub describe_reservation : Viewer → Bool → Option LoadedReservation → Detail
describe_reservation viewer is_manager none = plain
describe_reservation viewer is_manager (some r) =
    describe_author viewer is_manager r (author_input r)

abbrev pub creator_input : PersonRef → AuthorInput
creator_input p = record { owner_id = some p.id; owner_name = p.name; owner_role = p.role }

abbrev pub blocking_detail : Blocking → Author → BlockingDetail
blocking_detail b author = record {
  id = b.id;
  block_type = b.block_type;
  reason = b.reason;
  range_start_date = b.date;
  range_end_date = b.date;
  display_name = author.display_name;
  role = author.role;
}

abbrev pub describe_creator : Viewer → Bool → Blocking → Option PersonRef → Detail
describe_creator viewer is_manager b none = plain
describe_creator viewer is_manager b (some p) =
    of_blocking (blocking_detail b (format_reservation_author (creator_input p) viewer is_manager))

abbrev pub describe_blocking : Viewer → Bool → Option LoadedBlocking → Detail
describe_blocking viewer is_manager none = plain
describe_blocking viewer is_manager (some b) = describe_creator viewer is_manager b.row b.creator

-- The first row that overlaps the slot.
abbrev pub reservation_of : ViewSlot → List LoadedReservation → Option LoadedReservation
reservation_of s =
    find (λ r. intervals_overlap s.start_time s.end_time r.row.start_time r.row.end_time)

abbrev pub blocking_of : ViewSlot → List LoadedBlocking → Option LoadedBlocking
blocking_of s =
    find (λ b. intervals_overlap s.start_time s.end_time b.row.start_time b.row.end_time)

abbrev pub describe :
    Viewer → Bool → List LoadedReservation → List LoadedBlocking → ViewSlot → ViewStatus → Detail
describe viewer is_manager rs bs s (of_status reserved) =
    describe_reservation viewer is_manager (reservation_of s rs)
describe viewer is_manager rs bs s (of_status blocked) =
    describe_blocking viewer is_manager (blocking_of s bs)
describe viewer is_manager rs bs s _ = plain

abbrev pub detail_for :
    Option Viewer → Bool → List LoadedReservation → List LoadedBlocking → ViewSlot → Detail
detail_for none is_manager rs bs s = plain
detail_for (some viewer) is_manager rs bs s = describe viewer is_manager rs bs s s.status

unfoldable pub enrich_slots :
    List ViewSlot
    → List LoadedReservation
    → List LoadedBlocking
    → Option Viewer
    → Bool
    → List EnrichedSlot
enrich_slots slots rs bs viewer is_manager =
    map (λ s. record { slot = s; detail = detail_for viewer is_manager rs bs s }) slots

abbrev person : Db → ℕ → Option PersonRef
person db id =
    option_map (λ u. record { id = u.id; name = u.name; role = u.role })
      (find (λ u. u.id == id) db.users)

abbrev and_then {ℓ} : {A : Type ℓ} → Option ℕ → (ℕ → Option A) → Option A
and_then none f = none
and_then (some a) f = f a

abbrev pub load_reservation : Db → Reservation → LoadedReservation
load_reservation db r = record {
  row = r;
  user = person db r.user_id;
  requester = and_then r.requester.requester_user_id (person db);
  recurrence_description =
      and_then r.recurrence_id
        (λ id. option_map (λ s. s.description) (find (λ s. s.id == id) db.recurrences));
}

abbrev pub load_blocking : Db → Blocking → LoadedBlocking
load_blocking db b = record { row = b; creator = person db b.created_by }

-- The grid as `getAvailability` answers it. Whether the viewer manages the space is read from the
-- table of managers, which is not modelled.
unfoldable pub get_availability_for : Db → ℕ → ℕ → Option Viewer → Bool → Result (List EnrichedSlot)
get_availability_for db space_id date viewer is_manager = do
  slots ← get_availability db space_id date
  ok (
      enrich_slots slots
        (map (load_reservation db) (select (occupies space_id date) db.reservations))
        (map (load_blocking db) (select (blocks space_id date) db.blockings)) viewer is_manager)
