-- ===== src/Consistency/Rows.antt =====
-- Facts on rows and on single writes that the proofs of consistency share.
use ufcim_backend_proto.Prelude.{
  ℕ, ◌≡◌, ◌≢◌, refl, sym, ◌∙◌, subst, Bool, true, false, not, ◌&&◌, ◌||◌, Option, none, some, arith,
  ◌==◌, holds_id, All, All-map_pred, any-eq-false, any-select, Pairs-snoc, some_when-eq-some,
  not-eq-true, All-append,
}
use ufcim_backend_proto.Errors.{AppError, ok, throw_if, ◌>>◌}
use ufcim_backend_proto.Schedule.Times.{Text, time_to_minutes, num_lt, intervals_overlap}
use ufcim_backend_proto.Schedule.Closed.{overlaps_closed_hours}
use ufcim_backend_proto.Schedule.Days.{Clock}
use ufcim_backend_proto.Schema.{Space, Reservation, Blocking, Db, NotificationType, ActionType}
use ufcim_backend_proto.Reservation.Guards.{
  check_slot_availability, occupies, blocks, is_past, is_taken, is_blocked,
}
use ufcim_backend_proto.Reservation.Tables.{notify, log, insert_reservation, same_confirmed_slot}
use ufcim_backend_proto.Consistency.{covers, Apart, Uncovered, IsConsistent}

and_comm : (a b : Bool) → (a && b) ≡ (b && a)
and_comm true true = refl
and_comm true false = refl
and_comm false true = refl
and_comm false false = refl

pub intervals_overlap_comm :
    (a b c d : Text) → intervals_overlap a b c d ≡ intervals_overlap c d a b
unfolding intervals_overlap
intervals_overlap_comm a b c d = and_comm (num_lt (time_to_minutes a) (time_to_minutes d)) _

pub Apart_symm : (r s : Reservation) → Apart r s → Apart s r
Apart_symm r s h =
    ground (arith, intervals_overlap_comm r.start_time r.end_time s.start_time s.end_time)

pub IsConsistent-notify :
    (u : ℕ) (k : NotificationType) (db : Db) → IsConsistent db → IsConsistent (notify u k db)
unfolding notify
IsConsistent-notify u k db c = record {
  ids = c.ids;
  apart = c.apart;
  uncovered = c.uncovered;
  blockings_apart = c.blockings_apart;
}

pub IsConsistent-log :
    (u : ℕ) (a : ActionType) (i : ℕ) (db : Db) → IsConsistent db → IsConsistent (log u a i db)
unfolding log
IsConsistent-log u a i db c = record {
  ids = c.ids;
  apart = c.apart;
  uncovered = c.uncovered;
  blockings_apart = c.blockings_apart;
}

-- What a passed check says of each row.
abbrev pub FreeOf : ℕ → ℕ → Text → Text → Option ℕ → Reservation → Type 0
FreeOf space_id date start end exclude r =
    (occupies space_id date r
      && (not (holds_id exclude r.id) && intervals_overlap start end r.start_time r.end_time))
    ≡ false

abbrev pub OpenUnder : ℕ → ℕ → Text → Text → Blocking → Type 0
OpenUnder space_id date start end b =
    (blocks space_id date b && intervals_overlap start end b.start_time b.end_time) ≡ false

-- A chain of checks that ends well passed each of them.
pub checks_passed :
    (a b c d : Bool) (e f g h : AppError)
    → (throw_if a e >> (throw_if b f >> (throw_if c g >> throw_if d h))) ≡ ok tt
    → (a ≡ false) × (b ≡ false) × (c ≡ false) × (d ≡ false)
checks_passed a b c d e f g h k = ground arith

pub check-clear :
    (clock : Clock) (db : Db) (space : Space) (space_id date : ℕ) (start end : Text)
    (exclude : Option ℕ)
    → check_slot_availability clock db space space_id date start end exclude ≡ ok tt
    → All (FreeOf space_id date start end exclude) db.reservations
      × All (OpenUnder space_id date start end) db.blockings
unfolding check_slot_availability
check-clear clock db space space_id date start end exclude h =
    let (_, _, free, unblocked) =
      checks_passed (is_past clock date start)
        (overlaps_closed_hours start end space.closed_from space.closed_to)
        (is_taken db space_id date start end exclude) (is_blocked db space_id date start end) _ _ _
        _ h in
    (
      any-eq-false _ db.reservations (sym (any-select _ _ db.reservations) ∙ free),
      any-eq-false _ db.blockings (sym (any-select _ _ db.blockings) ∙ unblocked),
    )

pub clash_of_FreeOf :
    (row r : Reservation)
    → FreeOf row.space_id row.date row.start_time row.end_time none r
    → Apart r row
clash_of_FreeOf row r h =
    ground (arith, intervals_overlap_comm r.start_time r.end_time row.start_time row.end_time)

pub covers_of_OpenUnder :
    (row : Reservation) (b : Blocking)
    → OpenUnder row.space_id row.date row.start_time row.end_time b
    → covers b row ≡ false
covers_of_OpenUnder row b h =
    ground (arith, intervals_overlap_comm b.start_time b.end_time row.start_time row.end_time)

ne_of_unique :
    (row r : Reservation) → (r.id == row.id || same_confirmed_slot r row) ≡ false → r.id ≢ row.id
ne_of_unique row r h = ground arith

-- A row that fits what is there may be inserted.
pub IsConsistent-insert :
    (row : Reservation) (db db' : Db)
    → IsConsistent db
    → All (λ r. Apart r row) db.reservations
    → Uncovered db row
    → insert_reservation row db ≡ some db'
    → IsConsistent db'
unfolding insert_reservation
IsConsistent-insert row db db' c apart clear e =
    let (new, same) = some_when-eq-some _ _ db' e in
    let unique = any-eq-false _ db.reservations (not-eq-true _ new) in
    subst IsConsistent same (record {
      ids =
          Pairs-snoc _ db.reservations row c.ids
            (All-map_pred db.reservations (ne_of_unique row) unique);
      apart = Pairs-snoc _ db.reservations row c.apart apart;
      uncovered = All-append _ db.reservations _ c.uncovered (clear, tt);
      blockings_apart = c.blockings_apart;
    })
