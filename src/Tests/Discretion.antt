-- ===== src/Tests/Discretion.antt =====
-- What a student sees of other people's reservations.
use ufcim_backend_proto.Prelude.{ℕ, ◌+◌, ◌≡◌, refl, ◌↔◌, false, none, some, [], ◌∷◌, All}
use ufcim_backend_proto.Schedule.Availability.{reserved}
use ufcim_backend_proto.Schema.{student, professor, staff, Reservation, confirmed}
use ufcim_backend_proto.Schedule.Times.{afternoon}
use ufcim_backend_proto.Space.{ViewSlot, of_status}
use ufcim_backend_proto.Space.Details.{LoadedReservation, enrich_slots}
use ufcim_backend_proto.Space.Discretion.{IsDiscreet, enrich_slots-IsDiscreet}
use ufcim_backend_proto.Privacy.{AuthorInput, Viewer, full_name, format_reservation_author}
use ufcim_backend_proto.Privacy.Laws.{
  MaySeeName, format_reservation_author_iff, format_reservation_author-hides,
}
use ufcim_backend_proto.Tests.Booking.{hour}

abbrev student_viewer : Viewer
student_viewer = record { user_id = 3; role = student }

abbrev teacher : ℕ → AuthorInput
teacher id = record { owner_id = some id; owner_name = 100 + id; owner_role = professor }

format_reservation_author_iff_example :
    ((format_reservation_author (teacher 4) student_viewer false).display_name ≡ full_name 104)
    ↔ MaySeeName (teacher 4) student_viewer false
format_reservation_author_iff_example =
    format_reservation_author_iff (teacher 4) student_viewer false

format_reservation_author-hides_example :
    format_reservation_author (teacher 4) student_viewer false
    ≡ format_reservation_author (teacher 5) student_viewer false
format_reservation_author-hides_example =
    format_reservation_author-hides (teacher 4) (teacher 5) student_viewer refl refl refl refl

abbrev seminar : Reservation
seminar = record {
  id = 1;
  space_id = 1;
  user_id = 4;
  created_by = 4;
  requester = record {
    requester_user_id = none;
    requester_name = some 9;
    requester_contact = some 8;
  };
  date = 100;
  time_slot = afternoon;
  start_time = hour b'1' b'4';
  end_time = hour b'1' b'6';
  status = confirmed;
  recurrence_id = none;
  change_origin = none;
  purpose = none;
  description = none;
  cancel_reason = none;
  created_at = 0;
  updated_at = 0;
}

abbrev loaded : LoadedReservation
loaded = record {
  row = seminar;
  user = some (record { id = 4; name = 104; role = staff });
  requester = none;
  recurrence_description = none;
}

abbrev taken_slot : ViewSlot
taken_slot = record {
  start_time = hour b'1' b'5';
  end_time = hour b'1' b'6';
  status = of_status reserved;
}

enrich_slots-IsDiscreet_example :
    All
      (λ s. IsDiscreet student_viewer (loaded ∷ []) s.detail)
      (enrich_slots (taken_slot ∷ []) (loaded ∷ []) [] (some student_viewer) false)
enrich_slots-IsDiscreet_example =
    enrich_slots-IsDiscreet student_viewer (taken_slot ∷ []) (loaded ∷ []) [] refl tt
