-- ===== src/Consistency/Overriding.antt =====
-- `BlockingService.create` keeps the tables consistent.
use ufcim_backend_proto.Prelude.{
  ℕ, ◌≡◌, ◌∙◌, Bool, true, false, ◌&&◌, List, arith, ◌==◌, ==_refl, inl, inr, any, any_self,
  any-eq-false, any-select, All, All-map_pred,
}
use ufcim_backend_proto.Errors.{ok, Result-cases}
use ufcim_backend_proto.Schedule.Times.{intervals_overlap}
use ufcim_backend_proto.Schedule.Days.{Clock}
use ufcim_backend_proto.Schema.{Reservation, is_confirmed, Blocking, Db}
use ufcim_backend_proto.Reservation.Tables.{with_id}
use ufcim_backend_proto.Reservation.Create.{Actor}
use ufcim_backend_proto.Blocking.Create.{
  blocked_dates, CreateBlockingInput, among, already_blocks, admit_blocking,
  conflicting_reservations, hit_on, create,
}
use ufcim_backend_proto.Consistency.{covers, IsConsistent}
use ufcim_backend_proto.Consistency.Rows.{intervals_overlap_comm}
use ufcim_backend_proto.Consistency.OverrideRows.{blocked_dates-distinct}
use ufcim_backend_proto.Consistency.Rounds.{blocking_on, Foreseen, Clear, block_dates-IsConsistent}

among_cong : (dates : List ℕ) (a b : ℕ) → a ≡ b → among dates a ≡ true → among dates b ≡ true
among_cong dates a b e h = rw (← e) h

-- The reservations that were read before the loop hold every one that a new blocking covers.
module _ (clock : Clock) (uuid : ℕ → ℕ) (actor : Actor) (input : CreateBlockingInput) (db : Db)
    (dates : List ℕ) where
  abbrev read_before : List Reservation
  read_before = conflicting_reservations db input dates

  -- Whether a row read at `date` is the row `r`.
  abbrev is_hit_row : ℕ → Reservation → Reservation → Bool
  is_hit_row date c r =
      (c.space_id == input.space_id && (among dates c.date && is_confirmed c.status))
      && ((c.date == date
            && intervals_overlap input.start_time input.end_time c.start_time c.end_time)
          && with_id c.id r)

  hit_on-any :
      (date : ℕ) (r : Reservation)
      → any (λ c. with_id c.id r) (hit_on clock uuid actor input read_before date)
        ≡ any (λ c. is_hit_row date c r) db.reservations
  hit_on-any date r =
      any-select (λ c. with_id c.id r) _ read_before ∙ any-select _ _ db.reservations

  is_hit_row_self :
      (date : ℕ) (r : Reservation)
      → among dates date ≡ true
      → covers (blocking_on clock uuid actor input read_before 0 date) r ≡ true
      → is_hit_row date r r ≡ true
  is_hit_row_self date r m h = ground (arith, ==_refl r.id, among_cong dates date r.date)

  Foreseen-All :
      (date : ℕ)
      → among dates date ≡ true
      → All (Foreseen clock uuid actor input read_before date) db.reservations
  Foreseen-All date m =
      All-map_pred db.reservations (λ r h q. hit_on-any date r ∙ h (is_hit_row_self date r m q))
        (any_self (is_hit_row date) db.reservations)

  Clear-of_not_already :
      (date : ℕ) (b : Blocking)
      → among dates date ≡ true
      → already_blocks input dates b ≡ false
      → Clear clock uuid actor input read_before date b
  Clear-of_not_already date b m h = ground (
    arith,
    among_cong dates date b.date,
    intervals_overlap_comm input.start_time input.end_time b.start_time b.end_time,
  )

dates-among : (dates : List ℕ) → All (λ d. among dates d ≡ true) dates
dates-among dates = All-map_pred dates (λ d h. h (==_refl d)) (any_self (λ c d. c == d) dates)

admit-clear :
    (db : Db) (input : CreateBlockingInput) (dates : List ℕ)
    → admit_blocking db input dates ≡ ok tt
    → any (already_blocks input dates) db.blockings ≡ false
unfolding admit_blocking
admit-clear db input dates h = ground arith

pub create-IsConsistent :
    (clock : Clock) (uuid : ℕ → ℕ) (actor : Actor) (input : CreateBlockingInput) (db : Db)
    → IsConsistent db
    → IsConsistent (create clock uuid actor input db).1
unfolding create
create-IsConsistent clock uuid actor input db c =
    let dates = blocked_dates input.days in
    elim (Result-cases (admit_blocking db input dates)) [
      | inr (e, refused) ↦ rw refused c
      | inl (_, admitted) ↦
          let free = any-eq-false _ db.blockings (admit-clear db input dates admitted) in
          rw admitted (
            block_dates-IsConsistent clock uuid actor input
              (conflicting_reservations db input dates) dates _
              (record {
                sound = c;
                foreseen =
                    All-map_pred dates (λ d m. Foreseen-All clock uuid actor input db dates d m)
                      (dates-among dates);
                clear =
                    All-map_pred dates
                      (λ d m.
                        All-map_pred db.blockings
                          (λ b n. Clear-of_not_already clock uuid actor input db dates d b m n)
                          free)
                      (dates-among dates);
                distinct = blocked_dates-distinct input.days;
              }))
    ]
