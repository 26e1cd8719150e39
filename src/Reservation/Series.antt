-- ===== src/Reservation/Series.antt =====
-- services/reservation.service.ts: what `createRecurring` books and what `cancelSeries` cancels.
use ufcim_backend_proto.Prelude.{
  ℕ, ◌≡◌, refl, sym, ap, ◌∙◌, ◌⊎◌, ◌||◌, ◌&&◌, not, subst, select, holds_id, Bool, true, false,
  Option, none, some, inl, inr, List, [], ◌∷◌, ◌++◌, arith, ◌==◌, Bool-cases, any,
}
use mathlib.Core.List.{map, append_assoc, append-nil}
use ufcim_backend_proto.Errors.{
  AppError, conflict_error, slot_passed, slot_closed, slot_taken, slot_blocked, throw_if, ◌>>◌, ok,
  Result-cases, ok-ne-err,
}
use ufcim_backend_proto.Schedule.Closed.{overlaps_closed_hours}
use ufcim_backend_proto.Schedule.Times.{intervals_overlap}
use ufcim_backend_proto.Schedule.Days.{Clock, generate_recurring_dates}
use ufcim_backend_proto.Schema.{
  create_recurring_reservation, Space, Requester, Reservation, Blocking, Db,
}
use ufcim_backend_proto.Reservation.Guards.{
  requester_columns, is_past, is_taken, is_blocked, occupies, blocks, check_slot_availability,
}
use ufcim_backend_proto.Reservation.Tables.{notify, log, insert_reservation, same_confirmed_slot}
use ufcim_backend_proto.Reservation.Create.{Actor}
use ufcim_backend_proto.Reservation.Recurring.{
  CreateRecurringInput, Progress, occurrence, book_date, book_dates, create_recurring,
  admit_recurring, SeriesResult, begin_series, notify_if_created,
}

append_more :
    (xs ys zs : List Reservation) (a : Reservation)
    → zs ≡ xs ++ ys
    → zs ++ a ∷ [] ≡ xs ++ (ys ++ a ∷ [])
append_more xs ys zs a h = rw h (append_assoc xs ys (a ∷ []))

-- A list of dates dealt out in their order: each is booked, if it is free, or skipped.
pub data Splits (IsFree : ℕ → Type 0) : List ℕ → List ℕ → List ℕ → Type 0 where
  all_dealt : Splits IsFree [] [] []
  booked :
      {d : ℕ} {ds bs ss : List ℕ}
      → IsFree d
      → Splits IsFree ds bs ss
      → Splits IsFree (d ∷ ds) (d ∷ bs) ss
  skipped :
      {d : ℕ} {ds bs ss : List ℕ} → Splits IsFree ds bs ss → Splits IsFree (d ∷ ds) bs (d ∷ ss)

-- On that date no confirmed reservation and no active blocking of the space overlaps the series' hours.
abbrev pub IsFreeIn : Db → CreateRecurringInput → ℕ → Type 0
IsFreeIn db input date =
    (is_taken db input.space_id date input.start_time input.end_time none ≡ false)
    × (is_blocked db input.space_id date input.start_time input.end_time ≡ false)

no_hit :
    (a b c d : Bool) (e f g h : AppError)
    → (throw_if a e >> (throw_if b f >> (throw_if c g >> throw_if d h))) ≡ ok tt
    → (c ≡ false) × (d ≡ false)
no_hit a b c d e f g h checked = (ground (arith, checked), ground (arith, checked))

any_of-append :
    (p q : Reservation → Bool) (xs ys : List Reservation)
    → any q (select p (xs ++ ys)) ≡ false
    → any q (select p xs) ≡ false
any_of-append p q [] ys h = refl
any_of-append p q (x ∷ xs) ys h = elim (Bool-cases (p x)) [
  | inr dropped ↦ rw dropped (any_of-append p q xs ys (rw dropped at h))
  | inl kept ↦ elim (Bool-cases (q x)) [
    | inl hit ↦ let gone : true ≡ false = rw (kept, hit) at h in cc
    | inr miss ↦ rw (kept, miss) (any_of-append p q xs ys (rw (kept, miss) at h))
  ]
]

-- What is free in tables that hold more is free in the tables before.
check-IsFree :
    (clock : Clock) (before now : Db) (space : Space) (input : CreateRecurringInput) (d : ℕ)
    (more : List Reservation)
    → now.reservations ≡ before.reservations ++ more
    → now.blockings ≡ before.blockings
    → check_slot_availability clock now space input.space_id d input.start_time input.end_time none
      ≡ ok tt
    → IsFreeIn before input d
unfolding check_slot_availability
check-IsFree clock before now space input d more rows same_blocks checked =
    let (no_row, no_block) =
      no_hit (is_past clock d input.start_time)
        (overlaps_closed_hours input.start_time input.end_time space.closed_from space.closed_to)
        (is_taken now input.space_id d input.start_time input.end_time none)
        (is_blocked now input.space_id d input.start_time input.end_time)
        (conflict_error slot_passed) (conflict_error slot_closed) (conflict_error slot_taken)
        (conflict_error slot_blocked) checked in
    let hits : Reservation → Bool = λ r.
      not (holds_id none r.id)
      && intervals_overlap input.start_time input.end_time r.start_time r.end_time in
    (
      any_of-append (occupies input.space_id d) hits before.reservations more (
          subst
            (λ (rs : List Reservation). any hits (select (occupies input.space_id d) rs) ≡ false)
            rows no_row),
      subst
          (λ (bs : List Blocking).
            any (λ b. intervals_overlap input.start_time input.end_time b.start_time b.end_time)
              (select (blocks input.space_id d) bs)
            ≡ false)
          same_blocks no_block,
    )

module _ (clock : Clock) (uuid : ℕ → ℕ) (actor : Actor) (input : CreateRecurringInput)
    (requester : Option Requester) (space : Space) where
  abbrev run : List ℕ → Progress → Progress
  run = book_dates clock uuid actor input requester space

  -- The rows of the table are those from before and the created ones.
  abbrev Holds : List Reservation → Progress → Type 0
  Holds before p = p.db.reservations ≡ before ++ p.created

  book_date-Holds :
      (before : List Reservation) (d : ℕ) (p : Progress)
      → Holds before p
      → Holds before (book_date clock uuid actor input requester space d p)
  unfolding book_date insert_reservation
  book_date-Holds before d p h = ground (
    arith,
    append_more before p.created p.db.reservations
        (occurrence clock (uuid p.drawn) (uuid 0) actor input requester d),
  )

  book_dates-Holds :
      (before : List Reservation) (ds : List ℕ) (p : Progress)
      → Holds before p
      → Holds before (run ds p)
  unfolding book_dates
  book_dates-Holds before [] p h = h
  book_dates-Holds before (d ∷ ds) p h = book_dates-Holds before ds _ (book_date-Holds before d p h)

  -- A round books the date, which was free before the request, or skips it.
  abbrev Deals : Db → ℕ → Progress → Progress → Type 0
  Deals before d p q =
      (q.db.blockings ≡ p.db.blockings)
      × (((row : Reservation) × (q.created ≡ p.created ++ row ∷ [])
            × (q.skipped ≡ p.skipped)
            × (row.date ≡ d)
            × IsFreeIn before input d)
          ⊎ ((q.created ≡ p.created) × (q.skipped ≡ p.skipped ++ d ∷ [])))

  book_date-Deals :
      (before : Db) (d : ℕ) (p : Progress)
      → Holds before.reservations p
      → p.db.blockings ≡ before.blockings
      → Deals before d p (book_date clock uuid actor input requester space d p)
  unfolding book_date insert_reservation
  book_date-Deals before d p rows blocks =
      let row = occurrence clock (uuid p.drawn) (uuid 0) actor input requester d in
      elim (Result-cases (
        check_slot_availability clock p.db space input.space_id d input.start_time input.end_time
          none)) [
            | inr (e, refused) ↦ rw refused (refl, inr (refl, refl))
            | inl (_, checked) ↦
                elim (Bool-cases
                  (any (λ r. r.id == row.id || same_confirmed_slot r row) p.db.reservations)) [
                    | inl taken ↦ rw (checked, taken) (refl, inr (refl, refl))
                    | inr new ↦
                        rw (checked, new)
                          (
                            refl,
                            inl (
                              row,
                              refl,
                              refl,
                              refl,
                              check-IsFree clock before p.db space input d p.created rows blocks
                                  checked,
                            ),
                          )
                  ]
          ]

  -- The dates that the rest of the loop books and skips.
  abbrev Dealt : Db → List ℕ → Progress → Progress → Type 0
  Dealt before ds p q =
      (cs : List Reservation) × (ss : List ℕ) × (q.created ≡ p.created ++ cs)
      × (q.skipped ≡ p.skipped ++ ss)
      × Splits (IsFreeIn before input) ds (map (λ r. r.date) cs) ss

  book_dates-Dealt :
      (before : Db) (ds : List ℕ) (p : Progress)
      → Holds before.reservations p
      → p.db.blockings ≡ before.blockings
      → Dealt before ds p (run ds p)
  unfolding book_dates
  book_dates-Dealt before [] p rows blocks =
      ([], [], sym (append-nil p.created), sym (append-nil p.skipped), all_dealt)
  book_dates-Dealt before (d ∷ ds) p rows blocks =
      let q = book_date clock uuid actor input requester space d p in
      let (kept, dealt) = book_date-Deals before d p rows blocks in
      let (cs, ss, created, skips, split) =
        book_dates-Dealt before ds q (book_date-Holds before.reservations d p rows)
          (kept ∙ blocks) in
      elim dealt [
        | inl (row, one, same, on_d, free) ↦ (
          row ∷ cs,
          ss,
          created ∙ ap (λ xs. xs ++ cs) one ∙ append_assoc p.created (row ∷ []) cs,
          skips ∙ ap (λ xs. xs ++ ss) same,
          rw on_d (booked free split),
        )
        | inr (same, one) ↦ (
          cs,
          d ∷ ss,
          created ∙ ap (λ xs. xs ++ cs) same,
          skips ∙ ap (λ xs. xs ++ ss) one ∙ append_assoc p.skipped (d ∷ []) ss,
          skipped split,
        )
      ]

notify_if_created-rows :
    (rows : List Reservation) (o : Option ℕ) (db : Db)
    → (notify_if_created rows o db).reservations ≡ db.reservations
unfolding notify
notify_if_created-rows [] o db = refl
notify_if_created-rows (r ∷ rs) none db = refl
notify_if_created-rows (r ∷ rs) (some id) db = refl

logged-rows :
    (rows : List Reservation) (o : Option ℕ) (user_id id : ℕ) (db : Db)
    → (notify_if_created rows o (log user_id create_recurring_reservation id db)).reservations
      ≡ db.reservations
unfolding log
logged-rows rows o user_id id db = notify_if_created-rows rows o _

dealt_all :
    (clock : Clock) (uuid : ℕ → ℕ) (actor : Actor) (input : CreateRecurringInput)
    (requester : Option Requester) (space : Space) (db : Db) (dates : List ℕ)
    → let p =
        run clock uuid actor input requester space dates
          (begin_series clock (uuid 0) actor input requester db) in
      Splits (IsFreeIn db input) dates (map (λ r. r.date) p.created) p.skipped
dealt_all clock uuid actor input requester space db dates =
    let (cs, ss, created, skips, split) =
      book_dates-Dealt clock uuid actor input requester space db dates
        (begin_series clock (uuid 0) actor input requester db) (sym (append-nil db.reservations))
        refl in
    rw (created, skips) split

abbrev reported : ℕ → Progress → SeriesResult
reported id p = record { recurrence_id = id; created = p.created; skipped = p.skipped }

-- A series that is created deals out its dates in their order: each is the date of the next
-- reservation that it reports, or the next of the skipped dates. On a booked date no confirmed
-- reservation and no active blocking of the space overlapped its hours before the request. The table
-- gets exactly the reservations that are reported.
pub create_recurring-accounts :
    (clock : Clock) (uuid : ℕ → ℕ) (actor : Actor) (input : CreateRecurringInput) (db : Db)
    {result : SeriesResult}
    → (create_recurring clock uuid actor input db).0 ≡ ok result
    → Splits
        (IsFreeIn db input)
        (generate_recurring_dates input.start_date input.end_date input.days_of_week)
        (map (λ r. r.date) result.created)
        result.skipped
      × ((create_recurring clock uuid actor input db).1.reservations
          ≡ db.reservations ++ result.created)
unfolding create_recurring
create_recurring-accounts clock uuid actor input db {result} done =
    elim (Result-cases (admit_recurring db actor input)) [
      | inr (e, refused) ↦ absurd (ok-ne-err (sym (rw refused at done)))
      | inl ((requester, space), passed) ↦
          elim (Bool-cases (any (λ r. r.id == uuid 0) db.recurrences)) [
            | inl used ↦ absurd (ok-ne-err (sym (rw (passed, used) at done)))
            | inr fresh ↦
                let dates =
                  generate_recurring_dates input.start_date input.end_date input.days_of_week in
                let start = begin_series clock (uuid 0) actor input requester db in
                let p = run clock uuid actor input requester space dates start in
                let same : ok (reported (uuid 0) p) ≡ ok result = rw (passed, fresh) at done in
                let is_result : reported (uuid 0) p ≡ result = cc in
                rw (passed, fresh, ← is_result)
                  (
                    dealt_all clock uuid actor input requester space db dates,
                    logged-rows p.created (requester_columns requester).requester_user_id
                          actor.user_id (uuid 0) p.db
                        ∙ book_dates-Holds clock uuid actor input requester space db.reservations
                            dates start (sym (append-nil db.reservations)),
                  )
          ]
    ]
