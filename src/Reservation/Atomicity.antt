-- ===== src/Reservation/Atomicity.antt =====
-- services/reservation.service.ts and services/blocking.service.ts: what a refused request leaves
-- in the tables, where a blocking is for a single day.
use ufcim_backend_proto.Prelude.{ℕ, ◌≡◌, refl, ◌⊎◌, inl, inr, true, Option, arith}
use ufcim_backend_proto.Errors.{Thrown, Result, ok, err, is_ok}
use ufcim_backend_proto.Schedule.Times.{Text}
use ufcim_backend_proto.Schedule.Days.{Clock}
use ufcim_backend_proto.Schema.{Db}
use ufcim_backend_proto.Reservation.Create
use ufcim_backend_proto.Reservation.Create.{Actor, CreateReservationInput}
use ufcim_backend_proto.Reservation.Recurring.{CreateRecurringInput, create_recurring}
use ufcim_backend_proto.Reservation.Update.{UpdateReservationInput, update}
use ufcim_backend_proto.Reservation.Cancel.{cancel, cancel_series}
use ufcim_backend_proto.Blocking.Create as BlockingCreate
use ufcim_backend_proto.Blocking.Remove.{remove}

-- It never refuses and writes.
abbrev Refuses {ℓ} : {A : Type ℓ} → Db → Result A × Db → Type ℓ
Refuses db (r, db') = (e : Thrown) → r ≡ err e → db' ≡ db

-- The handler succeeds, or leaves the tables as they were.
abbrev pub IsAtomic {ℓ} : {A : Type ℓ} → Db → Result A × Db → Type 0
IsAtomic db (r, db') = (is_ok r ≡ true) ⊎ (db' ≡ db)

Refuses-IsAtomic {ℓ} :
    {A : Type ℓ} (db : Db) (run : Result A × Db) → Refuses db run → IsAtomic db run
Refuses-IsAtomic db (ok a, db') h = inl refl
Refuses-IsAtomic db (err e, db') h = inr (h e refl)

create-Refuses :
    (clock : Clock) (id : ℕ) (actor : Actor) (input : CreateReservationInput) (db : Db)
    → Refuses db (Create.create clock id actor input db)
unfolding Create.create
create-Refuses clock id actor input db e = ground arith

create_recurring-Refuses :
    (clock : Clock) (uuid : ℕ → ℕ) (actor : Actor) (input : CreateRecurringInput) (db : Db)
    → Refuses db (create_recurring clock uuid actor input db)
unfolding create_recurring
create_recurring-Refuses clock uuid actor input db e = ground arith

update-Refuses :
    (clock : Clock) (id : ℕ) (actor : Actor) (input : UpdateReservationInput) (db : Db)
    → Refuses db (update clock id actor input db)
unfolding update
update-Refuses clock id actor input db e = ground arith

cancel-Refuses :
    (clock : Clock) (id : ℕ) (actor : Actor) (reason : Option Text) (db : Db)
    → Refuses db (cancel clock id actor reason db)
unfolding cancel
cancel-Refuses clock id actor reason db e = ground arith

cancel_series-Refuses :
    (clock : Clock) (id : ℕ) (actor : Actor) (reason : Option Text) (db : Db)
    → Refuses db (cancel_series clock id actor reason db)
unfolding cancel_series
cancel_series-Refuses clock id actor reason db e = ground arith

-- A blocking of one day.
blocking-Refuses :
    (clock : Clock) (uuid : ℕ → ℕ) (actor : Actor) (input : BlockingCreate.CreateBlockingInput)
    (db : Db) (date : ℕ)
    → input.days ≡ BlockingCreate.single date
    → Refuses db (BlockingCreate.create clock uuid actor input db)
unfolding BlockingCreate.create BlockingCreate.block_dates BlockingCreate.block_date
    BlockingCreate.write_date
blocking-Refuses clock uuid actor input db date alone e = rw alone (ground arith)

remove-Refuses :
    (clock : Clock) (id : ℕ) (actor : Actor) (db : Db) → Refuses db (remove clock id actor db)
unfolding remove
remove-Refuses clock id actor db e = ground arith

-- Each request on reservations and blockings either succeeds or changes no table, where a statement
-- fails only by the primary key or the unique index of reservations, series and blockings: creating a
-- reservation or a series, editing, canceling one or a series, blocking for a single day, and
-- unblocking.
pub handlers-IsAtomic :
    (clock : Clock) (id : ℕ) (uuid : ℕ → ℕ) (actor : Actor) (reason : Option Text) (db : Db)
    (single : CreateReservationInput) (series : CreateRecurringInput)
    (edit : UpdateReservationInput) (block : BlockingCreate.CreateBlockingInput) (date : ℕ)
    → block.days ≡ BlockingCreate.single date
    → IsAtomic db (Create.create clock id actor single db)
      × IsAtomic db (create_recurring clock uuid actor series db)
      × IsAtomic db (update clock id actor edit db)
      × IsAtomic db (cancel clock id actor reason db)
      × IsAtomic db (cancel_series clock id actor reason db)
      × IsAtomic db (BlockingCreate.create clock uuid actor block db)
      × IsAtomic db (remove clock id actor db)
handlers-IsAtomic clock id uuid actor reason db single series edit block date alone = (
  Refuses-IsAtomic db (Create.create clock id actor single db)
      (create-Refuses clock id actor single db),
  Refuses-IsAtomic db (create_recurring clock uuid actor series db)
      (create_recurring-Refuses clock uuid actor series db),
  Refuses-IsAtomic db (update clock id actor edit db) (update-Refuses clock id actor edit db),
  Refuses-IsAtomic db (cancel clock id actor reason db) (cancel-Refuses clock id actor reason db),
  Refuses-IsAtomic db (cancel_series clock id actor reason db)
      (cancel_series-Refuses clock id actor reason db),
  Refuses-IsAtomic db (BlockingCreate.create clock uuid actor block db)
      (blocking-Refuses clock uuid actor block db date alone),
  Refuses-IsAtomic db (remove clock id actor db) (remove-Refuses clock id actor db),
)
