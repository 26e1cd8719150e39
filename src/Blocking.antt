-- ===== src/Blocking.antt =====
-- services/blocking.service.ts: blockings of a space, over a day or a range of days, which override
-- the reservations that they overlap.
pub mod Create
pub mod Remove
