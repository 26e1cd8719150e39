-- ===== src/Schedule.antt =====
-- lib/schedule.ts: times of day as texts, closed hours, and a day's availability.
pub mod Times
pub mod Days
pub mod Equality
pub mod Closed
pub mod Availability
pub mod Overlap
pub mod RoundTrip
pub mod DateRange
pub mod Slots
pub mod Occupancy
pub mod ClosedHours
