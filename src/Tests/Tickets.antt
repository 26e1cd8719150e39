-- ===== src/Tests/Tickets.antt =====
-- Runs of equipment and tickets.
use ufcim_backend_proto.Prelude.{◌≡◌, refl, true, none, some, [], ◌∷◌, any, ◌&&◌, ◌==◌}
use ufcim_backend_proto.Equipment.{
  working, major, is_open_status, Equipment, EquipmentDb, insert_report, with_history,
}
use ufcim_backend_proto.Equipment.OpenStatus.{
  lookup, number_code, merge_rows, get_open_status_by_equipment_ids,
}
use ufcim_backend_proto.Equipment.Reports.{
  CreateReportInput, FreshIds, create, admit_equipment_report, create_equipment_report_for,
  break_if_serious,
}
use ufcim_backend_proto.Equipment.Review.{acknowledge, resolve}
use ufcim_backend_proto.Equipment.Requests.{creates_report, acknowledges, resolves, here, next}
use ufcim_backend_proto.Equipment.Merging.{
  verdict, is_ticket_of, is_acknowledged, lookup-get_open_status,
}
use ufcim_backend_proto.Equipment.NewTickets.{HasOneOpen}
use ufcim_backend_proto.Equipment.OneOpen.{Reach-HasOneOpen}
use ufcim_backend_proto.Equipment.Replay.{IsTracked, replay}
use ufcim_backend_proto.Equipment.Tracking.{Reach-IsTracked}

abbrev pub projector : Equipment
projector = record {
  id = 1;
  asset_id = 49 ∷ [];
  space_id = 4;
  name = 7;
  kind = 2;
  status = working;
  notes = none;
  updated_by = none;
  updated_at = 5;
}

abbrev pub bare : EquipmentDb
bare = record {
  users = [];
  spaces = [];
  equipment = projector ∷ [];
  reports = [];
  history = [];
  notifications = [];
  audit_logs = [];
}

abbrev it_is_dark : CreateReportInput
it_is_dark = record {
  equipment_id = some 1;
  space_id = none;
  category = none;
  description = [];
  severity = major;
}

abbrev ids : FreshIds
ids = record { report_id = 10; history_id = 20 }

abbrev reported : EquipmentDb
reported = (create 100 ids 3 it_is_dark bare).1

abbrev seen : EquipmentDb
seen = (acknowledge 200 10 9 reported).1

abbrev done : EquipmentDb
done = (resolve 300 10 9 seen).1

lookup-get_open_status_example :
    lookup number_code (get_open_status_by_equipment_ids (1 ∷ []) seen.reports) 1
    ≡ verdict
        (any (λ r. is_ticket_of 1 r && is_acknowledged r.status) seen.reports)
        (any (λ r. is_ticket_of 1 r && is_open_status r.status) seen.reports)
lookup-get_open_status_example = lookup-get_open_status (1 ∷ []) seen.reports 1 refl

Reach-HasOneOpen_example : HasOneOpen done
unfolding create create_equipment_report_for admit_equipment_report get_open_status_by_equipment_ids
    merge_rows insert_report break_if_serious with_history
Reach-HasOneOpen_example =
    Reach-HasOneOpen {start = bare} {db = done}
      (next
        (next (next here (creates_report 100 ids 3 it_is_dark))
          (acknowledges 200 10 9 ((λ own. refl), tt)))
        (resolves 300 10 9))
      tt

Reach-IsTracked_example : IsTracked 1 working done
unfolding replay
Reach-IsTracked_example =
    Reach-IsTracked 1 working {start = bare} {db = done}
      (next (next (next here (creates_report 100 ids 3 it_is_dark)) (acknowledges 200 10 9 tt))
        (resolves 300 10 9))
      ((tt, tt), tt, ((working, refl), tt), (projector, refl, refl))

-- A resolved ticket that is acknowledged is open again.
acknowledge-reopens :
    any (λ r. r.id == 10 && is_open_status r.status) (acknowledge 400 10 9 done).1.reports ≡ true
unfolding create create_equipment_report_for admit_equipment_report get_open_status_by_equipment_ids
    merge_rows insert_report break_if_serious with_history acknowledge resolve
acknowledge-reopens = refl
