-- ===== src/Tests/Inboxes.antt =====
-- Runs of the notifications and of the departments.
use ufcim_backend_proto.Prelude.{◌≡◌, refl, true, false, none, some, List, [], ◌∷◌, map}
use ufcim_backend_proto.Schema.{confirmed_notice}
use ufcim_backend_proto.Errors.{
  ok, err, app, not_found_error, forbidden_error, no_permission, conflict_error, department_exists,
}
use ufcim_backend_proto.Inbox.{
  Notice, create_notification, mark_as_read, mark_all_read, unread_count, list_for_user,
}
use ufcim_backend_proto.Departments.{
  CreateDepartmentInput, UpdateDepartmentInput, new_department, create_department,
  update_department, validate_id,
}

abbrev notices : List Notice
notices =
    record { id = 1; user_id = 4; kind = confirmed_notice; read = false; created_at = 10 }
    ∷ record { id = 2; user_id = 5; kind = confirmed_notice; read = false; created_at = 11 }
    ∷ record { id = 3; user_id = 4; kind = confirmed_notice; read = true; created_at = 12 }
    ∷ []

reads_own :
    ((mark_as_read 2 4 notices).0 ≡ err (app (forbidden_error no_permission)))
    × ((mark_as_read 7 4 notices).0 ≡ err (app not_found_error))
    × (unread_count 4 (mark_as_read 1 4 notices).1 ≡ 0)
    × (unread_count 4 (mark_all_read 4 (create_notification 13 8 4 confirmed_notice notices).1).1
        ≡ 0)
    × ((mark_all_read 4 (create_notification 13 8 4 confirmed_notice notices).1).0 ≡ 2)
    × (map (λ (n : Notice). n.id) (list_for_user (λ ns. ns) 4 true notices) ≡ 1 ∷ [])
unfolding mark_as_read mark_all_read create_notification unread_count list_for_user
reads_own = (refl, refl, refl, refl, refl, refl)

abbrev iaud : CreateDepartmentInput
iaud = record { id = 1; name = 20; campus = 30 }

abbrev renamed : UpdateDepartmentInput
renamed = record { name = some 21; campus = none }

creates_once :
    ((create_department 5 iaud (new_department 4 iaud ∷ [])).0
      ≡ err (app (conflict_error department_exists)))
    × (validate_id 1 (create_department 5 iaud []).1 ≡ true)
    × (validate_id 2 (create_department 5 iaud []).1 ≡ false)
    × ((update_department 6 2 renamed (new_department 4 iaud ∷ [])).0 ≡ err (app not_found_error))
    × ((update_department 6 1 renamed (new_department 4 iaud ∷ [])).0
        ≡ ok (some (record { id = 1; name = 21; campus = 30; created_at = 4; updated_at = 6 })))
unfolding create_department update_department validate_id
creates_once = (refl, refl, refl, refl, refl)
