-- ===== src/Reservation/Tables.antt =====
-- db/schema.ts: the constraints on `reservations`, and the writes that the services share
-- (services/notification.service.ts `create`, services/audit-log.service.ts `log`).
use ufcim_backend_proto.Prelude.{
  ℕ, Bool, not, ◌&&◌, ◌||◌, Option, [], ◌∷◌, ◌++◌, ◌==◌, any, update_where, some_when,
}
use ufcim_backend_proto.Schedule.Times.{text_eq}
use ufcim_backend_proto.Schema.{Reservation, is_confirmed, Db, NotificationType, ActionType}

unfoldable pub notify : ℕ → NotificationType → Db → Db
notify user_id kind db = record db {
  notifications = db.notifications ++ record { user_id = user_id; kind = kind } ∷ [];
}

unfoldable pub log : ℕ → ActionType → ℕ → Db → Db
log user_id action reference db = record db {
  audit_logs =
      db.audit_logs
      ++ record { user_id = user_id; action_type = action; reference_id = reference } ∷ [];
}

-- The partial unique index `reservations_confirmed_slot_unq`.
unfoldable pub same_confirmed_slot : Reservation → Reservation → Bool
same_confirmed_slot r s =
    is_confirmed r.status
    && (is_confirmed s.status
        && (r.space_id == s.space_id
            && (r.date == s.date
                && (text_eq r.start_time s.start_time && text_eq r.end_time s.end_time))))

-- `none`: "UNIQUE constraint failed", of the primary key or of the index.
unfoldable pub insert_reservation : Reservation → Db → Option Db
insert_reservation row db =
    some_when (not (any (λ r. r.id == row.id || same_confirmed_slot r row) db.reservations))
      (record db { reservations = db.reservations ++ row ∷ [] })

abbrev pub with_id : ℕ → Reservation → Bool
with_id id r = r.id == id

-- The row becomes `next`; only the index can fail, as the key stays.
unfoldable pub update_reservation : ℕ → Reservation → Db → Option Db
update_reservation id next db =
    some_when (not (any (λ r. not (with_id id r) && same_confirmed_slot r next) db.reservations))
      (record db { reservations = update_where (with_id id) (λ _. next) db.reservations })
