-- ===== src/Consistency/Removing.antt =====
-- `BlockingService.remove` keeps the tables consistent.
use ufcim_backend_proto.Prelude.{
  ℕ, ◌≡◌, refl, Bool, false, arith, ◌==◌, inl, inr, All-map_pred, Pairs-update_where, written,
  All-update_where,
}
use ufcim_backend_proto.Errors.{Result-cases}
use ufcim_backend_proto.Schedule.Days.{Clock}
use ufcim_backend_proto.Schema.{remove_blocking, Blocking, Db}
use ufcim_backend_proto.Reservation.Create.{Actor}
use ufcim_backend_proto.Consistency.{covers, collide, IsConsistent}
use ufcim_backend_proto.Consistency.Rows.{IsConsistent-log}
use ufcim_backend_proto.Blocking.Remove.{set_removed, admit_remove, remove}

-- A removed blocking covers nothing and collides with nothing.
module _ (clock : Clock) (p : Blocking → Bool) where
  abbrev rewritten : Blocking → Blocking
  rewritten = written p (set_removed clock)

  collide-rewritten :
      (b c : Blocking) → collide b c ≡ false → collide (rewritten b) (rewritten c) ≡ false
  collide-rewritten b c h = ground arith

pub remove-IsConsistent :
    (clock : Clock) (id : ℕ) (actor : Actor) (db : Db)
    → IsConsistent db
    → IsConsistent (remove clock id actor db).1
unfolding remove
remove-IsConsistent clock id actor db c = elim (Result-cases (admit_remove db id actor)) [
  | inr (e, refused) ↦ rw refused c
  | inl (b, admitted) ↦ rw admitted (
      IsConsistent-log actor.user_id remove_blocking id _ (record {
        ids = c.ids;
        apart = c.apart;
        uncovered =
            All-map_pred db.reservations
              (λ r u.
                All-update_where (λ x. covers x r ≡ false) (λ x. x.id == id) (set_removed clock)
                  db.blockings u (λ x _ _. refl))
              c.uncovered;
        blockings_apart =
            Pairs-update_where (λ x y. collide x y ≡ false) (λ x. x.id == id) (set_removed clock)
              (collide-rewritten clock (λ x. x.id == id)) db.blockings c.blockings_apart;
      }))
]
