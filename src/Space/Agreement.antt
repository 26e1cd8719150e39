-- ===== src/Space/Agreement.antt =====
-- services/space.service.ts `getAvailability` against services/reservation.service.ts
-- `checkSlotAvailability`: the grid offers what a booking may take.
use ufcim_backend_proto.Prelude.{
  ℕ, zero, suc, Option, true, subst, sym, ◌∙◌, ◌≡◌, refl, ◌↔◌, Bool, false, none, some, List, [],
  ◌∷◌, map, arith, if◌then◌else◌, any, select, filter_map, All,
}
use ufcim_backend_proto.Errors.{AppError, ok, throw_if, ◌>>◌}
use ufcim_backend_proto.Schedule.Times.{Text, slot_minutes, is_hourly_time, is_boundary_time}
use ufcim_backend_proto.Schedule.Closed.{
  Interval, normalize_closed_hours, get_closed_intervals, overlaps_closed_hours,
}
use ufcim_backend_proto.Schedule.Days.{Clock}
use ufcim_backend_proto.Schedule.Availability.{
  SlotStatus, Slot, closed, blocked, reserved, available, slot_status, hits_any, normalize_interval,
}
use ufcim_backend_proto.Schema.{Space, Db}
use ufcim_backend_proto.Reservation.Guards.{
  check_slot_availability, find_space, is_past, is_taken, is_blocked, occupies, blocks,
}
use ufcim_backend_proto.Schedule.Slots.{Tiles-status, build_availability-Tiles}
use ufcim_backend_proto.Space.{
  of_status, ViewSlot, view_status, view, get_availability, reservation_interval, blocking_interval,
  day_reservations, day_blockings,
}

-- Normalised closed hours stay as they are.
normalize_idem :
    (from to : Text)
    → let h = normalize_closed_hours (some from) (some to) in
      normalize_closed_hours (some h.closed_from) (some h.closed_to) ≡ h
unfolding normalize_closed_hours is_hourly_time is_boundary_time
normalize_idem from to = ground arith

overlaps-normalize :
    (start end from to : Text)
    → let h = normalize_closed_hours (some from) (some to) in
      overlaps_closed_hours start end h.closed_from h.closed_to
      ≡ overlaps_closed_hours start end from to
unfolding overlaps_closed_hours get_closed_intervals
overlaps-normalize start end from to = rw (normalize_idem from to)

-- A stored row keeps its interval: its times have the accepted formats, in order.
abbrev pub IsStored : Interval → Type 0
IsStored i = normalize_interval i ≡ some i

module _ (start end : Text) where
  hits-stored :
      (xs : List Interval)
      → All IsStored xs
      → hits_any start end (filter_map normalize_interval xs) ≡ hits_any start end xs
  hits-stored [] h = refl
  hits-stored (x ∷ xs) (s, h) = rw (s, hits-stored xs h)

any-map {ℓ κ} :
    {A : Type ℓ} {B : Type κ} (p : B → Bool) (f : A → B) (xs : List A)
    → any p (map f xs) ≡ any (λ x. p (f x)) xs
any-map p f [] = refl
any-map p f (x ∷ xs) = rw (any-map p f xs)

status_available :
    (a b c : Bool)
    → ((if a then closed else if b then blocked else if c then reserved else available) ≡ available)
      ↔ ((a ≡ false) × (b ≡ false) × (c ≡ false))
status_available a b c = ground arith

checks_pass :
    (a b c d : Bool) (e f g h : AppError)
    → a ≡ false
    → ((throw_if a e >> (throw_if b f >> (throw_if c g >> throw_if d h))) ≡ ok tt)
      ↔ ((b ≡ false) × (d ≡ false) × (c ≡ false))
checks_pass a b c d e f g h past = ground arith

-- The status that the grid computes is available exactly when the check passes.
slot_status-check :
    (clock : Clock) (db : Db) (space : Space) (space_id date : ℕ) (start end : Text)
    → is_past clock date start ≡ false
    → All IsStored (day_reservations db space_id date)
    → All IsStored (day_blockings db space_id date)
    → (slot_status
          (normalize_closed_hours (some space.closed_from) (some space.closed_to))
          (filter_map normalize_interval (day_reservations db space_id date))
          (filter_map normalize_interval (day_blockings db space_id date))
          start
          end
        ≡ available)
      ↔ (check_slot_availability clock db space space_id date start end none ≡ ok tt)
unfolding slot_status check_slot_availability
slot_status-check clock db space space_id date start end past rs bs =
    let (to, from) =
      checks_pass (is_past clock date start)
        (overlaps_closed_hours start end space.closed_from space.closed_to)
        (is_taken db space_id date start end none) (is_blocked db space_id date start end) _ _ _ _
        past in
    let grid =
      status_available (overlaps_closed_hours start end space.closed_from space.closed_to)
        (is_blocked db space_id date start end) (is_taken db space_id date start end none) in
    rw
      (
        overlaps-normalize start end space.closed_from space.closed_to,
        hits-stored start end _ rs,
        hits-stored start end _ bs,
        any-map _ reservation_interval (select (occupies space_id date) db.reservations),
        any-map _ blocking_interval (select (blocks space_id date) db.blockings),
      )
      (λ h. from (grid.0 h), λ h. grid.1 (to h))

-- `slots[i]`
abbrev pub nth {ℓ} : {A : Type ℓ} → ℕ → List A → Option A
nth i [] = none
nth zero (x ∷ xs) = some x
nth (suc i) (x ∷ xs) = nth i xs

nth-map {ℓ κ} :
    {A : Type ℓ} {B : Type κ} (f : A → B) (i : ℕ) (xs : List A) {y : B}
    → nth i (map f xs) ≡ some y
    → (x : A) × (nth i xs ≡ some x) × (f x ≡ y)
nth-map f i [] h = cc
nth-map f zero (x ∷ xs) h = (x, refl, cc)
nth-map f (suc i) (x ∷ xs) h = nth-map f i xs h

nth-All {ℓ κ} :
    {A : Type ℓ} (P : A → Type κ) (i : ℕ) (xs : List A) {x : A} → All P xs → nth i xs ≡ some x → P x
nth-All P i [] h e = cc
nth-All P zero (x ∷ xs) {x = y} (p, h) e = let same : x ≡ y = cc in subst P same p
nth-All P (suc i) (x ∷ xs) (p, h) e = nth-All P i xs h e

view-available :
    (reservable : Bool) (s : SlotStatus)
    → (view_status reservable s ≡ of_status available) ↔ ((reservable ≡ true) × (s ≡ available))
view-available true closed = (λ h. cc, λ h. cc)
view-available true blocked = (λ h. cc, λ h. cc)
view-available true reserved = (λ h. cc, λ h. cc)
view-available true available = (λ h. (refl, refl), λ h. refl)
view-available false closed = (λ h. cc, λ h. cc)
view-available false blocked = (λ h. cc, λ h. cc)
view-available false reserved = (λ h. cc, λ h. cc)
view-available false available = (λ h. cc, λ h. cc)

-- What the theorem below says of one slot.
abbrev Agrees : Clock → Db → Space → ℕ → ℕ → ViewSlot → Type 0
Agrees clock db space space_id date slot =
    is_past clock date slot.start_time ≡ false
    → (slot.status ≡ of_status available) ↔ (
        (space.reservable ≡ true)
        × (check_slot_availability clock db space space_id date slot.start_time slot.end_time none
            ≡ ok tt))

slot-Agrees :
    (clock : Clock) (db : Db) (space : Space) (space_id date : ℕ) (s : Slot)
    → s.status
      ≡ slot_status
          (normalize_closed_hours (some space.closed_from) (some space.closed_to))
          (filter_map normalize_interval (day_reservations db space_id date))
          (filter_map normalize_interval (day_blockings db space_id date))
          s.start_time
          s.end_time
    → All IsStored (day_reservations db space_id date)
    → All IsStored (day_blockings db space_id date)
    → Agrees clock db space space_id date (view space.reservable s)
slot-Agrees clock db space space_id date s status rs bs past =
    let shown = view-available space.reservable s.status in
    let checked =
      slot_status-check clock db space space_id date s.start_time s.end_time past rs bs in
    (
      λ h. ((shown.0 h).0, checked.0 (sym status ∙ (shown.0 h).1)),
      λ h. shown.1 (h.0, status ∙ checked.1 h.1),
    )

-- A slot of the grid is a slot of the day, as it is shown.
grid-slot :
    (db : Db) (space : Space) (space_id date i : ℕ) {slots : List ViewSlot} {slot : ViewSlot}
    → find_space db space_id ≡ some space
    → get_availability db space_id date ≡ ok slots
    → nth i slots ≡ some slot
    → (s : Slot) × (view space.reservable s ≡ slot)
      × (s.status
          ≡ slot_status
              (normalize_closed_hours (some space.closed_from) (some space.closed_to))
              (filter_map normalize_interval (day_reservations db space_id date))
              (filter_map normalize_interval (day_blockings db space_id date))
              s.start_time
              s.end_time)
unfolding get_availability
grid-slot db space space_id date i {slots} {slot} there answered at_i =
    let rs = day_reservations db space_id date in
    let bs = day_blockings db space_id date in
    let (day, built, tiles) =
      build_availability-Tiles space.closed_from space.closed_to rs bs slot_minutes (omega arith) in
    let same : ok (map (view space.reservable) day) ≡ ok slots = rw (there, built) at answered in
    let shown : map (view space.reservable) day ≡ slots = cc in
    let (s, in_day, is_slot) =
      nth-map (view space.reservable) i day
        (subst (λ (v : List ViewSlot). nth i v ≡ some slot) (sym shown) at_i) in
    (s, is_slot, nth-All _ i day (Tiles-status _ _ _ 0 day tiles) in_day)

-- At a time that has not passed, and where the day's rows have accepted times, a slot of the grid that
-- `getAvailability` returns for a space is available exactly when the space is open to reservations
-- and a booking of the slot passes the check for conflicts.
pub available_iff-check :
    (clock : Clock) (db : Db) (space : Space) (space_id date i : ℕ) {slots : List ViewSlot}
    {slot : ViewSlot}
    → find_space db space_id ≡ some space
    → get_availability db space_id date ≡ ok slots
    → nth i slots ≡ some slot
    → is_past clock date slot.start_time ≡ false
    → All IsStored (day_reservations db space_id date)
    → All IsStored (day_blockings db space_id date)
    → (slot.status ≡ of_status available) ↔ (
        (space.reservable ≡ true)
        × (check_slot_availability clock db space space_id date slot.start_time slot.end_time none
            ≡ ok tt))
available_iff-check clock db space space_id date i {slots} {slot} there answered at_i past rs bs =
    let (s, is_slot, status) = grid-slot db space space_id date i there answered at_i in
    subst (Agrees clock db space space_id date) is_slot
      (slot-Agrees clock db space space_id date s status rs bs) past
