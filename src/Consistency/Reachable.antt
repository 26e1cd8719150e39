-- ===== src/Consistency/Reachable.antt =====
-- Requests in any order, by any users and at any times: each runs on the tables that the one before
-- it left.
use ufcim_backend_proto.Prelude.{ℕ, Option}
use ufcim_backend_proto.Schedule.Times.{Text}
use ufcim_backend_proto.Schedule.Days.{Clock}
use ufcim_backend_proto.Schema.{Db}
use ufcim_backend_proto.Reservation.Create
use ufcim_backend_proto.Reservation.Create.{Actor, CreateReservationInput}
use ufcim_backend_proto.Reservation.Recurring.{CreateRecurringInput, create_recurring}
use ufcim_backend_proto.Reservation.Update.{UpdateReservationInput, update}
use ufcim_backend_proto.Reservation.Cancel.{cancel, cancel_series}
use ufcim_backend_proto.Blocking.Create as BlockingCreate
use ufcim_backend_proto.Blocking.Remove.{remove}
use ufcim_backend_proto.Consistency.{IsConsistent}
use ufcim_backend_proto.Consistency.Booking.{create-IsConsistent, create_recurring-IsConsistent}
use ufcim_backend_proto.Consistency.Editing.{update-IsConsistent}
use ufcim_backend_proto.Consistency.Canceling.{cancel-IsConsistent, cancel_series-IsConsistent}
use ufcim_backend_proto.Consistency.Overriding.{create-IsConsistent as blocking-IsConsistent}
use ufcim_backend_proto.Consistency.Removing.{remove-IsConsistent}

-- One request, granted or refused.
pub data Step (db : Db) : Db → Type 0 where
  creates :
      (clock : Clock) (id : ℕ) (actor : Actor) (input : CreateReservationInput)
      → Step db (Create.create clock id actor input db).1
  creates_series :
      (clock : Clock) (uuid : ℕ → ℕ) (actor : Actor) (input : CreateRecurringInput)
      → Step db (create_recurring clock uuid actor input db).1
  updates :
      (clock : Clock) (id : ℕ) (actor : Actor) (input : UpdateReservationInput)
      → Step db (update clock id actor input db).1
  cancels :
      (clock : Clock) (id : ℕ) (actor : Actor) (reason : Option Text)
      → Step db (cancel clock id actor reason db).1
  cancels_series :
      (clock : Clock) (id : ℕ) (actor : Actor) (reason : Option Text)
      → Step db (cancel_series clock id actor reason db).1
  creates_blocking :
      (clock : Clock) (uuid : ℕ → ℕ) (actor : Actor) (input : BlockingCreate.CreateBlockingInput)
      → Step db (BlockingCreate.create clock uuid actor input db).1
  removes_blocking : (clock : Clock) (id : ℕ) (actor : Actor) → Step db (remove clock id actor db).1

pub data Reach (start : Db) : Db → Type 0 where
  here : Reach start start
  next : {db db' : Db} → Reach start db → Step db db' → Reach start db'

Step-IsConsistent : {db db' : Db} → Step db db' → IsConsistent db → IsConsistent db'
Step-IsConsistent (creates clock id actor input) c = create-IsConsistent clock id actor input _ c
Step-IsConsistent (creates_series clock uuid actor input) c =
    create_recurring-IsConsistent clock uuid actor input _ c
Step-IsConsistent (updates clock id actor input) c = update-IsConsistent clock id actor input _ c
Step-IsConsistent (cancels clock id actor reason) c = cancel-IsConsistent clock id actor reason _ c
Step-IsConsistent (cancels_series clock id actor reason) c =
    cancel_series-IsConsistent clock id actor reason _ c
Step-IsConsistent (creates_blocking clock uuid actor input) c =
    blocking-IsConsistent clock uuid actor input _ c
Step-IsConsistent (removes_blocking clock id actor) c = remove-IsConsistent clock id actor _ c

-- From consistent tables, any sequence of requests to create, edit or cancel reservations and
-- series, and to create or remove blockings, ends in consistent tables: no two confirmed
-- reservations of a space overlap on a date, no active blocking overlaps a confirmed reservation
-- or another active blocking, and reservations keep distinct identifiers.
pub Reach-IsConsistent : {start db : Db} → Reach start db → IsConsistent start → IsConsistent db
Reach-IsConsistent here c = c
Reach-IsConsistent (next r s) c = Step-IsConsistent s (Reach-IsConsistent r c)
