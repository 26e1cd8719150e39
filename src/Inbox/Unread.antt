-- ===== src/Inbox/Unread.antt =====
-- services/notification.service.ts `markAllRead`: what is unread afterwards.
use ufcim_backend_proto.Prelude.{
  ℕ, suc, ◌≡◌, refl, ap, true, false, List, [], ◌∷◌, length, ◌==◌, select, update_where, Bool-cases,
  inl, inr, arith,
}
use ufcim_backend_proto.Inbox.{Notice, is_unread_of, set_read, mark_all_read, unread_count}

read_other : (other : ℕ) (n : Notice) → is_unread_of other (set_read n) ≡ false
read_other other n = ground arith

select-read :
    (user_id : ℕ) (rows : List Notice)
    → length (select (is_unread_of user_id) (update_where (is_unread_of user_id) set_read rows)) ≡ 0
select-read user_id [] = refl
select-read user_id (n ∷ ns) = elim (Bool-cases (is_unread_of user_id n)) [
  | inl unread ↦ rw (unread, read_other user_id n) (select-read user_id ns)
  | inr other ↦ rw (other, other) (select-read user_id ns)
]

other_user :
    (user_id other : ℕ) (n : Notice)
    → user_id == other ≡ false
    → is_unread_of user_id n ≡ true
    → is_unread_of other n ≡ false
other_user user_id other n h unread = ground (arith, h, unread)

select-read_other :
    (user_id other : ℕ) (rows : List Notice)
    → user_id == other ≡ false
    → length (select (is_unread_of other) (update_where (is_unread_of user_id) set_read rows))
      ≡ length (select (is_unread_of other) rows)
select-read_other user_id other [] h = refl
select-read_other user_id other (n ∷ ns) h = elim (Bool-cases (is_unread_of user_id n)) [
  | inl unread ↦
      rw (unread, read_other other n, other_user user_id other n h unread)
        (select-read_other user_id other ns h)
  | inr kept ↦
      let rest = select-read_other user_id other ns h in
      elim (Bool-cases (is_unread_of other n)) [
        | inl counted ↦ rw (kept, counted) (ap suc rest)
        | inr skipped ↦ rw (kept, skipped) rest
      ]
]

-- `markAllRead` answers with the count of unread notifications that the profile showed; afterwards the
-- user's count is 0 and any other user's is what it was.
mark_all_read-clears :
    (user_id other : ℕ) (rows : List Notice)
    → user_id == other ≡ false
    → ((mark_all_read user_id rows).0 ≡ unread_count user_id rows)
      × (unread_count user_id (mark_all_read user_id rows).1 ≡ 0)
      × (unread_count other (mark_all_read user_id rows).1 ≡ unread_count other rows)
unfolding mark_all_read unread_count
mark_all_read-clears user_id other rows h =
    (refl, select-read user_id rows, select-read_other user_id other rows h)
