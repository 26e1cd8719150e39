-- ===== src/Inbox.antt =====
-- services/notification.service.ts: the notifications of a user, and the count of unread ones that
-- services/user.service.ts `getMeProfile` reports.

pub mod Unread
use ufcim_backend_proto.Prelude.{
  any, ℕ, Bool, true, false, not, ◌&&◌, ◌||◌, List, ◌∷◌, [], ◌++◌, ◌==◌, length, find, select,
  update_where,
}
use ufcim_backend_proto.Errors.{
  internal, Result, ok, err, ◌>>=◌, ◌>>◌, throw_if, forbidden_error, no_permission,
}
use ufcim_backend_proto.Reservation.Guards.{found}
use ufcim_backend_proto.Schema.{NotificationType}

pub record Notice : Type 0 where
  pub id : ℕ
  pub user_id : ℕ
  pub kind : NotificationType
  pub read : Bool
  pub created_at : ℕ

abbrev insert_notice : Notice → List Notice → Bool → Result Notice × List Notice
insert_notice n rows true = (err internal, rows)
insert_notice n rows false = (ok n, rows ++ n ∷ [])

-- The primary key.
unfoldable pub create_notification :
    ℕ → ℕ → ℕ → NotificationType → List Notice → Result Notice × List Notice
create_notification now id user_id kind rows =
    let n : Notice = record {
      id = id;
      user_id = user_id;
      kind = kind;
      read = false;
      created_at = now;
    } in
    insert_notice n rows (any (λ m. m.id == id) rows)

abbrev pub is_unread_of : ℕ → Notice → Bool
is_unread_of user_id n = n.user_id == user_id && not n.read

-- The order by `createdAt` is the database's.
unfoldable pub list_for_user : (List Notice → List Notice) → ℕ → Bool → List Notice → List Notice
list_for_user newest_first user_id unread_only rows =
    newest_first (select (λ n. n.user_id == user_id && (not unread_only || not n.read)) rows)

abbrev pub set_read : Notice → Notice
set_read n = record n { read = true }

abbrev pub admit_read : ℕ → ℕ → List Notice → Result Notice
admit_read id user_id rows = do
  n ← found (find (λ n. n.id == id) rows)
  throw_if (not (n.user_id == user_id)) (forbidden_error no_permission)
  ok n

abbrev pub run_read : ℕ → List Notice → Result Notice → Result Notice × List Notice
run_read id rows (err e) = (err e, rows)
run_read id rows (ok n) = (ok (set_read n), update_where (λ m. m.id == id) set_read rows)

unfoldable pub mark_as_read : ℕ → ℕ → List Notice → Result Notice × List Notice
mark_as_read id user_id rows = run_read id rows (admit_read id user_id rows)

-- The number of rows that the update returns, and the rows after it.
unfoldable pub mark_all_read : ℕ → List Notice → ℕ × List Notice
mark_all_read user_id rows =
    (length (select (is_unread_of user_id) rows), update_where (is_unread_of user_id) set_read rows)

unfoldable pub unread_count : ℕ → List Notice → ℕ
unread_count user_id rows = length (select (is_unread_of user_id) rows)
