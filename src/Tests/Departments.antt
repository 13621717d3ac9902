-- ===== src/Tests/Departments.antt =====
-- A company with two departments, one below the other, and one that is made its own parent.
use one_auth.Base.{
  ◌≡◌, refl, none, some, [], ◌∷◌, List, str, text_eq, arith, first_byte, ne_of_first_byte,
}
use one_auth.DirectorySync.State.{Department}
use one_auth.Handler.Departments.{
  get_department, DepartmentChange, runs_on, move_department, update_department,
}
use one_auth.Handler.Departments.Acyclic.{IsRanked, IsTree, move_department-IsTree}
use one_auth.Handler.Departments.Endless.{move_department-runs_on}

abbrev company : List Department
company =
    record { id = str "a"; name = str "A"; parent_id = none }
    ∷ (record { id = str "b"; name = str "B"; parent_id = some (str "a") } ∷ [])

-- The first byte of a key ranks it.
company-IsRanked : IsRanked first_byte company
unfolding get_department text_eq
company-IsRanked c d p f q = ground arith

move_department-IsTree_example :
    IsTree first_byte company company-IsRanked
      (move_department 98 (str "b") (some (str "a")) company)
move_department-IsTree_example =
    move_department-IsTree first_byte company company-IsRanked 98 (str "b") (some (str "a"))
      (λ p e. ground arith)

abbrev own_parent : DepartmentChange
own_parent = record { name = none; parent_id = some (some (str "a")) }

move_department-runs_on_example :
    (move_department 1000
      (str "b")
      (some (str "a"))
      (update_department (str "a") own_parent company).1).0
    ≡ runs_on
unfolding get_department text_eq
move_department-runs_on_example =
    move_department-runs_on (str "a") (str "b") own_parent company
      (record { id = str "a"; name = str "A"; parent_id = none })
      (record { id = str "b"; name = str "B"; parent_id = some (str "a") }) refl refl
      (ne_of_first_byte _ _ (omega arith)) refl 1000
