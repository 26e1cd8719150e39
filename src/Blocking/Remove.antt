-- ===== src/Blocking/Remove.antt =====
-- services/blocking.service.ts `remove`
use ufcim_backend_proto.Prelude.{ℕ, not, ◌&&◌, Option, ◌==◌, find, update_where}
use ufcim_backend_proto.Errors.{
  Result, ok, err, ◌>>=◌, ◌>>◌, throw_if, forbidden_error, only_own_blockings,
}
use ufcim_backend_proto.Schedule.Days.{Clock}
use ufcim_backend_proto.Schema.{is_staff, Blocking, removed, Db, remove_blocking}
use ufcim_backend_proto.Reservation.Guards.{found}
use ufcim_backend_proto.Reservation.Tables.{log}
use ufcim_backend_proto.Reservation.Create.{Actor}

abbrev pub find_blocking : Db → ℕ → Option Blocking
find_blocking db id = find (λ b. b.id == id) db.blockings

abbrev pub set_removed : Clock → Blocking → Blocking
set_removed clock b = record b { status = removed; updated_at = clock.now }

unfoldable pub admit_remove : Db → ℕ → Actor → Result Blocking
admit_remove db id actor = do
  b ← found (find_blocking db id)
  throw_if (not (is_staff actor.role) && not (b.created_by == actor.user_id))
      (forbidden_error only_own_blockings)
  ok b

abbrev run_remove : Clock → ℕ → Actor → Db → Result Blocking → Result Blocking × Db
run_remove clock id actor db (err e) = (err e, db)
run_remove clock id actor db (ok b) = (
  ok (set_removed clock b),
  log actor.user_id remove_blocking id
      (record db { blockings = update_where (λ x. x.id == id) (set_removed clock) db.blockings }),
)

unfoldable pub remove : Clock → ℕ → Actor → Db → Result Blocking × Db
remove clock id actor db = run_remove clock id actor db (admit_remove db id actor)
