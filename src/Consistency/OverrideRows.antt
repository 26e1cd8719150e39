-- ===== src/Consistency/OverrideRows.antt =====
-- What overriding does to the reservations, and that the blocked dates are distinct.
use ufcim_backend_proto.Prelude.{
  ℕ, suc, zero, ◌+◌, ◌-◌, ◌<◌, ◌≡◌, ◌≢◌, refl, true, false, List, [], ◌∷◌, arith, Bool-cases, inl,
  inr, any, All, All-map_pred, Pairs, update_where, All-update_where,
}
use ufcim_backend_proto.Schedule.Days.{Clock, days_from, dates_between}
use ufcim_backend_proto.Schema.{Reservation, Blocking, Db}
use ufcim_backend_proto.Reservation.Tables.{notify, log, with_id}
use ufcim_backend_proto.Blocking.Create.{
  BlockedDays, single, range, blocked_dates, set_overridden, override_all,
}
use ufcim_backend_proto.Consistency.{covers, IsConsistent}
use ufcim_backend_proto.Consistency.Withdrawing.{IsConsistent-withdraw}

-- The rows that `override_all` leaves.
pub override_rows : Clock → List Reservation → List Reservation → List Reservation
override_rows clock [] rows = rows
override_rows clock (r ∷ rs) rows =
    override_rows clock rs (update_where (with_id r.id) (set_overridden clock) rows)

pub override_all-tables :
    (clock : Clock) (user_id : ℕ) (hits : List Reservation) (db : Db)
    → ((override_all clock user_id hits db).reservations ≡ override_rows clock hits db.reservations)
      × ((override_all clock user_id hits db).blockings ≡ db.blockings)
unfolding override_all override_rows notify log
override_all-tables clock user_id [] db = (refl, refl)
override_all-tables clock user_id (r ∷ rs) db = override_all-tables clock user_id rs _

pub IsConsistent-override_rows :
    (clock : Clock) (hits : List Reservation) (db : Db)
    → IsConsistent db
    → IsConsistent (record db { reservations = override_rows clock hits db.reservations })
unfolding override_rows
IsConsistent-override_rows clock [] db c = c
IsConsistent-override_rows clock (r ∷ rs) db c =
    IsConsistent-override_rows clock rs _
      (IsConsistent-withdraw (with_id r.id) (set_overridden clock) (λ _. refl) (λ _. refl) db c)

-- Where each covered row is among the hits, none is covered in the end.
module _ (clock : Clock) (b : Blocking) where
  abbrev pub IsHit : List Reservation → Reservation → Type 0
  IsHit hits r = covers b r ≡ true → any (λ c. with_id c.id r) hits ≡ true

  pub override_rows-uncovered :
      (hits rows : List Reservation)
      → All (IsHit hits) rows
      → All (λ r. covers b r ≡ false) (override_rows clock hits rows)
  unfolding override_rows
  override_rows-uncovered [] rows h = All-map_pred rows (λ r k. ground (arith, k)) h
  override_rows-uncovered (c ∷ cs) rows h = override_rows-uncovered cs _ (later rows h)
    where
      later :
          (rows : List Reservation)
          → All (IsHit (c ∷ cs)) rows
          → All (IsHit cs) (update_where (with_id c.id) (set_overridden clock) rows)
      later [] h = tt
      later (r ∷ rs) (k, h) = elim (Bool-cases (with_id c.id r)) [
        | inl hit ↦ rw hit (λ q. ground arith, later rs h)
        | inr miss ↦ rw miss (λ q. ground (arith, k q), later rs h)
      ]

  pub IsHit-override_rows :
      (hits cs rows : List Reservation)
      → All (IsHit hits) rows
      → All (IsHit hits) (override_rows clock cs rows)
  unfolding override_rows
  IsHit-override_rows hits [] rows h = h
  IsHit-override_rows hits (c ∷ cs) rows h = IsHit-override_rows hits cs _ (
      All-update_where (IsHit hits) (with_id c.id) (set_overridden clock) rows h
        (λ r _ _ q. ground arith))

days_from-lt : (n k cursor : ℕ) → k < cursor → All (λ d. k ≢ d) (days_from cursor n)
days_from-lt zero k cursor h = tt
days_from-lt (suc n) k cursor h = (omega arith, days_from-lt n k (cursor + 1) (omega arith))

days_from-distinct : (n cursor : ℕ) → Pairs (λ a b. ◌≢◌ {A = ℕ} a b) (days_from cursor n)
days_from-distinct zero cursor = tt
days_from-distinct (suc n) cursor =
    (days_from-lt n cursor (cursor + 1) (omega arith), days_from-distinct n (cursor + 1))

pub blocked_dates-distinct :
    (days : BlockedDays) → Pairs (λ a b. ◌≢◌ {A = ℕ} a b) (blocked_dates days)
unfolding dates_between
blocked_dates-distinct (single date) = (tt, tt)
blocked_dates-distinct (range from to) = days_from-distinct (to + 1 - from) from
