-- ===== src/Consistency/Rounds.antt =====
-- The rounds of `BlockingService.create`: each date's blocking overrides what it covers.
use ufcim_backend_proto.Prelude.{
  ℕ, ◌≡◌, ◌≢◌, false, List, [], ◌∷◌, ◌++◌, arith, All, All-map_pred, All-zip, All-append, Pairs,
  Pairs-snoc, Bool-cases, inl, inr,
}
use ufcim_backend_proto.Schedule.Days.{Clock}
use ufcim_backend_proto.Schema.{Reservation, Blocking, Db}
use ufcim_backend_proto.Reservation.Tables.{log}
use ufcim_backend_proto.Reservation.Create.{Actor}
use ufcim_backend_proto.Blocking.Create.{
  CreateBlockingInput, new_blocking, Progress, hit_on, is_used, write_date, block_date, block_dates,
}
use ufcim_backend_proto.Consistency.{collide, IsConsistent}
use ufcim_backend_proto.Consistency.OverrideRows.{
  override_all-tables, IsConsistent-override_rows, IsHit, override_rows-uncovered,
  IsHit-override_rows,
}

module _ (clock : Clock) (uuid : ℕ → ℕ) (actor : Actor) (input : CreateBlockingInput)
    (conflicting : List Reservation) where
  -- The blocking of a date; its identifier is of no matter below.
  abbrev pub blocking_on : ℕ → ℕ → Blocking
  blocking_on id date = new_blocking clock id (uuid 0) actor input date

  abbrev pub Foreseen : ℕ → Reservation → Type 0
  Foreseen date = IsHit clock (blocking_on 0 date) (hit_on clock uuid actor input conflicting date)

  abbrev pub Clear : ℕ → Blocking → Type 0
  Clear date b = collide b (blocking_on 0 date) ≡ false

  -- What holds between two rounds, of the dates that are left.
  pub record IsReady (dates : List ℕ) (db : Db) : Type 0 where
    pub sound : IsConsistent db
    pub foreseen : All (λ d. All (Foreseen d) db.reservations) dates
    pub clear : All (λ d. All (Clear d) db.blockings) dates
    pub distinct : Pairs (λ a b. ◌≢◌ {A = ℕ} a b) dates

  new-Clear : (id d e : ℕ) → d ≢ e → Clear e (blocking_on id d)
  new-Clear id d e n = ground arith

  write_date-IsReady :
      (d : ℕ) (ds : List ℕ) (p : Progress)
      → IsReady (d ∷ ds) p.db
      → IsReady ds (write_date clock uuid actor input conflicting d p).db
  unfolding write_date log
  write_date-IsReady d ds p ready =
      let hits = hit_on clock uuid actor input conflicting d in
      let row = blocking_on (uuid p.drawn) d in
      let (rows, kept) =
        override_all-tables clock actor.user_id hits
          (record p.db { blockings = p.db.blockings ++ row ∷ [] }) in
      let c = IsConsistent-override_rows clock hits p.db ready.sound in
      record {
        sound = record {
          ids = rw rows c.ids;
          apart = rw rows c.apart;
          uncovered =
              rw (rows, kept)
                (All-zip _ (λ r old new. All-append _ p.db.blockings _ old (new, tt)) c.uncovered
                  (override_rows-uncovered clock row hits p.db.reservations ready.foreseen.0));
          blockings_apart =
              rw kept (Pairs-snoc _ p.db.blockings row c.blockings_apart ready.clear.0);
        };
        foreseen = rw rows (
            All-map_pred ds
              (λ e h.
                IsHit-override_rows clock (blocking_on 0 e)
                  (hit_on clock uuid actor input conflicting e) hits p.db.reservations h)
              ready.foreseen.1);
        clear = rw kept (
            All-zip ds
              (λ e n h. All-append _ p.db.blockings _ h (new-Clear (uuid p.drawn) d e n, tt))
              ready.distinct.0 ready.clear.1);
        distinct = ready.distinct.1;
      }

  skip-IsReady : (d : ℕ) (ds : List ℕ) (db : Db) → IsReady (d ∷ ds) db → IsReady ds db
  skip-IsReady d ds db ready = record {
    sound = ready.sound;
    foreseen = ready.foreseen.1;
    clear = ready.clear.1;
    distinct = ready.distinct.1;
  }

  block_date-IsReady :
      (d : ℕ) (ds : List ℕ) (p : Progress)
      → IsReady (d ∷ ds) p.db
      → IsReady ds (block_date clock uuid actor input conflicting d p).db
  unfolding block_date write_date
  block_date-IsReady d ds p ready = elim (Bool-cases p.failed) [
    | inl ended ↦ rw ended (skip-IsReady d ds p.db ready)
    | inr going ↦ elim (Bool-cases (is_used (uuid p.drawn) p.db.blockings)) [
      | inl used ↦ rw (going, used) (skip-IsReady d ds p.db ready)
      | inr new ↦ rw (going, new) (write_date-IsReady d ds p ready)
    ]
  ]

  pub block_dates-IsConsistent :
      (ds : List ℕ) (p : Progress)
      → IsReady ds p.db
      → IsConsistent (block_dates clock uuid actor input conflicting ds p).db
  unfolding block_dates
  block_dates-IsConsistent [] p ready = ready.sound
  block_dates-IsConsistent (d ∷ ds) p ready =
      block_dates-IsConsistent ds _ (block_date-IsReady d ds p ready)
