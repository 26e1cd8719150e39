-- ===== src/Tests.antt =====
-- Concrete runs of the model, and each theorem at a concrete input.
mod Administration
mod Booking
mod Changes
mod Discretion
mod Sessions
mod Inboxes
mod Maintenance
mod Managers
mod Members
mod Tickets
mod Timetable
mod Windows
