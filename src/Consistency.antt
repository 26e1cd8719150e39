-- ===== src/Consistency.antt =====
-- The promise of services/reservation.service.ts and services/blocking.service.ts taken together:
-- which reservations and blockings may stand beside each other in the tables.
pub mod Rows
pub mod Booking
pub mod Withdrawing
pub mod Replacing
pub mod Editing
pub mod Canceling
pub mod OverrideRows
pub mod Rounds
pub mod Overriding
pub mod Removing
pub mod Reachable
use ufcim_backend_proto.Prelude.{ℕ, ◌≡◌, ◌≢◌, Bool, true, false, ◌&&◌, ◌==◌, All, Pairs}
use ufcim_backend_proto.Schedule.Times.{intervals_overlap}
use ufcim_backend_proto.Schema.{Reservation, is_confirmed, Blocking, is_active, Db}

-- Both confirmed, for one space and date, at overlapping hours.
abbrev pub clash : Reservation → Reservation → Bool
clash r s =
    is_confirmed r.status
    && (is_confirmed s.status
        && (r.space_id == s.space_id
            && (r.date == s.date
                && intervals_overlap r.start_time r.end_time s.start_time s.end_time)))

-- An active blocking over a confirmed reservation.
abbrev pub covers : Blocking → Reservation → Bool
covers b r =
    is_active b.status
    && (is_confirmed r.status
        && (b.space_id == r.space_id
            && (b.date == r.date
                && intervals_overlap b.start_time b.end_time r.start_time r.end_time)))

abbrev pub collide : Blocking → Blocking → Bool
collide b c =
    is_active b.status
    && (is_active c.status
        && (b.space_id == c.space_id
            && (b.date == c.date
                && intervals_overlap b.start_time b.end_time c.start_time c.end_time)))

abbrev pub Apart : Reservation → Reservation → Type 0
Apart r s = clash r s ≡ false

abbrev pub Uncovered : Db → Reservation → Type 0
Uncovered db r = All (λ b. covers b r ≡ false) db.blockings

-- No double booking, and no confirmed reservation under an active blocking.
pub record IsConsistent (db : Db) : Type 0 where
  pub ids : Pairs (λ r s. r.id ≢ s.id) db.reservations
  pub apart : Pairs Apart db.reservations
  pub uncovered : All (Uncovered db) db.reservations
  pub blockings_apart : Pairs (λ b c. collide b c ≡ false) db.blockings
