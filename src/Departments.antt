-- ===== src/Departments.antt =====
-- services/department.service.ts: the departments by their identifiers.
use ufcim_backend_proto.Prelude.{
  ℕ, Bool, Option, List, [], ◌∷◌, ◌++◌, ◌==◌, find, is_some, or_else, update_where,
}
use ufcim_backend_proto.Errors.{Result, ok, err, ◌>>=◌, throw_if, conflict_error, department_exists}
use ufcim_backend_proto.Reservation.Guards.{found}

pub record Department : Type 0 where
  pub id : ℕ
  pub name : ℕ
  pub campus : ℕ
  pub created_at : ℕ
  pub updated_at : ℕ

pub record CreateDepartmentInput : Type 0 where
  pub id : ℕ
  pub name : ℕ
  pub campus : ℕ

-- `Partial<Omit<CreateDepartmentInput, 'id'>>`: an absent field keeps its column.
pub record UpdateDepartmentInput : Type 0 where
  pub name : Option ℕ
  pub campus : Option ℕ

abbrev pub find_department : ℕ → List Department → Option Department
find_department id rows = find (λ d. d.id == id) rows

abbrev pub new_department : ℕ → CreateDepartmentInput → Department
new_department now input = record {
  id = input.id;
  name = input.name;
  campus = input.campus;
  created_at = now;
  updated_at = now;
}

abbrev pub run_department :
    List Department
    → (ℕ × List Department)
    → Result (Unit {0})
    → Result (Option Department) × List Department
run_department rows (id, written) (err e) = (err e, rows)
run_department rows (id, written) (ok admitted) = (ok (find_department id written), written)

-- Each of the two reads back the row it wrote.
unfoldable pub create_department :
    ℕ → CreateDepartmentInput → List Department → Result (Option Department) × List Department
create_department now input rows =
    run_department rows (input.id, rows ++ new_department now input ∷ [])
      (throw_if (is_some (find_department input.id rows)) (conflict_error department_exists))

abbrev pub set_department : ℕ → UpdateDepartmentInput → Department → Department
set_department now input d = record d {
  name = or_else input.name d.name;
  campus = or_else input.campus d.campus;
  updated_at = now;
}

abbrev pub admit_update : ℕ → List Department → Result (Unit {0})
admit_update id rows = do d ← found (find_department id rows); ok tt

unfoldable pub update_department :
    ℕ → ℕ → UpdateDepartmentInput → List Department → Result (Option Department) × List Department
update_department now id input rows =
    run_department rows (id, update_where (λ d. d.id == id) (set_department now input) rows)
      (admit_update id rows)

unfoldable pub validate_id : ℕ → List Department → Bool
validate_id id rows = is_some (find_department id rows)
