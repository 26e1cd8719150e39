-- ===== src/Reservation.antt =====
-- services/reservation.service.ts
pub mod Guards
pub mod Tables
pub mod Create
pub mod Recurring
pub mod Update
pub mod Cancel
pub mod Atomicity
pub mod Limits
pub mod Series
pub mod Cancellation
pub mod Finality
pub mod Edits
