-- ===== src/Consistency/Withdrawing.antt =====
-- A write that withdraws reservations keeps the tables consistent.
use ufcim_backend_proto.Prelude.{
  ◌≡◌, ◌≢◌, sym, ◌∙◌, Bool, false, arith, All-map_pred, Pairs-update_where, All-update_where,
  update_where, written,
}
use ufcim_backend_proto.Schema.{Reservation, is_confirmed, Blocking, Db}
use ufcim_backend_proto.Consistency.{covers, Apart, Uncovered, IsConsistent}

-- A write that withdraws rows from the confirmed ones breaks nothing.
module _ (p : Reservation → Bool) (f : Reservation → Reservation)
    (same_id : (r : Reservation) → (f r).id ≡ r.id)
    (withdrawn : (r : Reservation) → is_confirmed (f r).status ≡ false) where
  written-Apart : (r s : Reservation) → Apart r s → Apart (written p f r) (written p f s)
  written-Apart r s h = ground (arith, withdrawn r, withdrawn s)

  written-id : (r : Reservation) → (written p f r).id ≡ r.id
  written-id r = ground (arith, same_id r)

  covers-withdrawn : (b : Blocking) (r : Reservation) → covers b (f r) ≡ false
  covers-withdrawn b r = ground (arith, withdrawn r)

  pub IsConsistent-withdraw :
      (db : Db)
      → IsConsistent db
      → IsConsistent (record db { reservations = update_where p f db.reservations })
  IsConsistent-withdraw db c = record {
    ids =
        Pairs-update_where (λ r s. r.id ≢ s.id) p f
          (λ r s n e. n (sym (written-id r) ∙ e ∙ written-id s)) db.reservations c.ids;
    apart = Pairs-update_where Apart p f written-Apart db.reservations c.apart;
    uncovered =
        All-update_where (Uncovered db) p f db.reservations c.uncovered
          (λ r _ u. All-map_pred db.blockings (λ b _. covers-withdrawn b r) u);
    blockings_apart = c.blockings_apart;
  }
