-- ===== src/Consistency/Replacing.antt =====
-- A write that replaces one reservation keeps the tables consistent, where the new row fits.
use ufcim_backend_proto.Prelude.{
  ℕ, ◌≡◌, ◌≢◌, sym, ◌∙◌, subst, Bool, true, false, not, ◌||◌, some, arith, ◌==◌, ==_iff, All,
  Pairs-map_pred, Pairs-update_where, Pairs-write_one, All-update_where, written, Fits,
  some_when-eq-some,
}
use ufcim_backend_proto.Schedule.Times.{text_eq}
use ufcim_backend_proto.Schedule.Equality.{eq_of_text_eq}
use ufcim_backend_proto.Schema.{Reservation, Blocking, Db}
use ufcim_backend_proto.Reservation.Tables.{update_reservation, with_id}
use ufcim_backend_proto.Reservation.Update.{schedule_changed}
use ufcim_backend_proto.Consistency.{covers, Apart, Uncovered, IsConsistent}
use ufcim_backend_proto.Consistency.Rows.{Apart_symm, FreeOf, intervals_overlap_comm}

-- What makes a row fit beside the others: the check, with the row itself excluded.
pub Apart_of_FreeOf :
    (row x : Reservation) (k : ℕ)
    → (x.id == k) ≡ false
    → FreeOf row.space_id row.date row.start_time row.end_time (some k) x
    → Apart x row
Apart_of_FreeOf row x k n h =
    ground (arith, intervals_overlap_comm x.start_time x.end_time row.start_time row.end_time)

not_changed :
    (a b c : Bool) → (not a || (not b || not c)) ≡ false → (a ≡ true) × (b ≡ true) × (c ≡ true)
not_changed a b c h = ground arith

-- A row at the old space, date and times, and of the old status, stands as the old one stood.
module _ (r next : Reservation) (same_space : next.space_id ≡ r.space_id)
    (same_status : next.status ≡ r.status) (unchanged : schedule_changed r next ≡ false) where
  same_schedule :
      (next.date ≡ r.date) × (next.start_time ≡ r.start_time) × (next.end_time ≡ r.end_time)
  same_schedule =
      let (d, s, e) =
        not_changed (next.date == r.date) (text_eq next.start_time r.start_time)
          (text_eq next.end_time r.end_time) unchanged in
      ((==_iff _ _).0 d, eq_of_text_eq _ _ s, eq_of_text_eq _ _ e)

  pub Apart-unchanged : (x : Reservation) → Apart x r → Apart x next
  Apart-unchanged x h = let (d, s, e) = same_schedule in rw (same_space, same_status, d, s, e) h

  pub covers-unchanged : (b : Blocking) → covers b r ≡ false → covers b next ≡ false
  covers-unchanged b h = let (d, s, e) = same_schedule in rw (same_space, same_status, d, s, e) h

pub id_of_with_id : (id : ℕ) (x : Reservation) → with_id id x ≡ true → x.id ≡ id
id_of_with_id id x h = (==_iff x.id id).0 h

one_with_id :
    (id : ℕ) (x y : Reservation) → x.id ≢ y.id → with_id id x ≡ true → with_id id y ≡ false
one_with_id id x y n h = ground arith

module _ (id : ℕ) (next : Reservation) (same_id : next.id ≡ id) where
  written_next-id : (x : Reservation) → (written (with_id id) (λ _. next) x).id ≡ x.id
  written_next-id x = ground (arith, id_of_with_id id x)

  pub IsConsistent-replace :
      (db db' : Db)
      → IsConsistent db
      → All (Fits Apart Apart_symm (with_id id) next) db.reservations
      → Uncovered db next
      → update_reservation id next db ≡ some db'
      → IsConsistent db'
  unfolding update_reservation
  IsConsistent-replace db db' c fits clear e =
      subst IsConsistent (some_when-eq-some _ _ db' e).1 (record {
        ids =
            Pairs-update_where (λ r s. r.id ≢ s.id) (with_id id) (λ _. next)
              (λ r s n q. n (sym (written_next-id r) ∙ q ∙ written_next-id s)) db.reservations
              c.ids;
        apart =
            Pairs-write_one Apart Apart_symm (with_id id) next db.reservations
              (Pairs-map_pred _ _ db.reservations (one_with_id id) c.ids) fits c.apart;
        uncovered =
            All-update_where (Uncovered db) (with_id id) (λ _. next) db.reservations c.uncovered
              (λ _ _ _. clear);
        blockings_apart = c.blockings_apart;
      })
