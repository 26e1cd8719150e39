-- ===== src/Tests/Changes.antt =====
-- A series that stays canceled, and an edited reservation.
use ufcim_backend_proto.Prelude.{none, true, arith, some, false, ◌≡◌, refl, true, none, some}
use ufcim_backend_proto.Schedule.Times.{
  intervals_overlap, time_to_minutes, is_hourly_time, is_boundary_time, text_eq,
}
use ufcim_backend_proto.Schedule.Days.{generate_recurring_dates}
use ufcim_backend_proto.Schema.{Reservation}
use ufcim_backend_proto.Reservation.Guards.{
  assert_can_manage, assert_department_access, check_slot_availability, enforce_active_limit,
  resolve_requester,
}
use ufcim_backend_proto.Reservation.Tables.{log, same_confirmed_slot, insert_reservation}
use ufcim_backend_proto.Texts.{trimmed}
use ufcim_backend_proto.Permissions.{can_manage_reservation}
use ufcim_backend_proto.Schedule.Closed.{
  overlaps_closed_hours, get_closed_intervals, normalize_closed_hours,
}
use ufcim_backend_proto.Reservation.Create
use ufcim_backend_proto.Reservation.Create.{Actor, admit_create, CreateReservationInput}
use ufcim_backend_proto.Reservation.Recurring.{
  book_date, book_dates, admit_recurring, create_recurring,
}
use ufcim_backend_proto.Reservation.Update.{update}
use ufcim_backend_proto.Reservation.Cancel.{cancel_series, admit_cancel_series}
use ufcim_backend_proto.Tests.Booking.{
  value_or, afternoon_request, booked, later, morning_clock, bia, ana, series_db, canceled_rows,
}
use ufcim_backend_proto.Errors.{is_ok}
use ufcim_backend_proto.Reservation.Create.{new_reservation}
use ufcim_backend_proto.Reservation.Edits.{Keeps, LastsAnHour, Stores, update-edits}
use ufcim_backend_proto.Reservation.Guards.{find_reservation, has_started, enforce_active_limit}
use ufcim_backend_proto.Reservation.Update.{find_editable, check_edit}
use ufcim_backend_proto.Reservation.Tables.{update_reservation, notify}
use ufcim_backend_proto.Schedule.Times.{meets_minimum_duration}
use ufcim_backend_proto.Schema.{is_confirmed}
use ufcim_backend_proto.Reservation.Finality.{cancel_series-once}

cancel_series-once_example :
    (is_ok
        (cancel_series morning_clock 70 bia none
          (cancel_series morning_clock 70 bia none series_db).1).0
      ≡ false)
    × ((cancel_series morning_clock 70 bia none
          (cancel_series morning_clock 70 bia none series_db).1).1
        ≡ (cancel_series morning_clock 70 bia none series_db).1)
unfolding create_recurring admit_recurring assert_department_access check_slot_availability
    resolve_requester insert_reservation trimmed overlaps_closed_hours get_closed_intervals
    normalize_closed_hours intervals_overlap time_to_minutes is_hourly_time is_boundary_time
    generate_recurring_dates cancel_series admit_cancel_series assert_can_manage
    can_manage_reservation book_dates book_date same_confirmed_slot log
cancel_series-once_example =
    cancel_series-once morning_clock morning_clock 70 bia bia none none series_db
      {rows = canceled_rows} refl (omega arith)

abbrev moved : Reservation
moved =
    value_or (new_reservation morning_clock 50 ana afternoon_request none)
      (update morning_clock 50 ana later booked).0

update-edits_example :
    (r : Reservation) × (find_reservation booked 50 ≡ some r)
    × (is_confirmed r.status ≡ true)
    × (has_started morning_clock r.date r.start_time ≡ false)
    × Keeps r moved
    × LastsAnHour moved
    × Stores 50 51 moved booked.reservations
        (update morning_clock 50 ana later booked).1.reservations
unfolding Create.create update find_editable admit_create resolve_requester assert_department_access
    check_slot_availability time_to_minutes overlaps_closed_hours get_closed_intervals
    normalize_closed_hours is_hourly_time is_boundary_time intervals_overlap enforce_active_limit
    insert_reservation notify log can_manage_reservation assert_can_manage has_started
    same_confirmed_slot update_reservation check_edit meets_minimum_duration text_eq trimmed
update-edits_example = update-edits morning_clock 50 51 ana later booked {next = moved} refl refl
