-- ===== src/Handler/Departments.antt =====
-- internal/handler/misc_handler.go, DepartmentHandler, and DepartmentRepository of
-- internal/repository/misc_repo.go: the tree of departments. The path parameter and the body are
-- given parsed; errors of SQL are not modelled.
pub mod Acyclic
pub mod Endless
use one_auth.Base.{
  ℕ, zero, suc, Bool, true, false, not, ◌&&◌, Option, none, some, or_else, List, [], ◌∷◌, ◌++◌,
  Text, str, text_eq, if◌then◌else◌,
}
use one_auth.DirectorySync.State.{Department, Binding}

-- The row of a key
unfoldable pub get_department : Text → List Department → Option Department
get_department id [] = none
get_department id (d ∷ ds) =
    let rest = get_department id ds in if text_eq d.id id then some d else rest

unfoldable pub put_department : Department → List Department → List Department
put_department v [] = []
put_department v (d ∷ ds) =
    let rest = put_department v ds in if text_eq d.id v.id then v ∷ rest else d ∷ rest

unfoldable pub remove_department : Text → List Department → List Department
remove_department id [] = []
remove_department id (d ∷ ds) =
    let rest = remove_department id ds in if text_eq d.id id then rest else d ∷ rest

-- DepartmentRepository.Delete: the bindings of the department go with it.
unfoldable pub remove_bindings : Text → List Binding → List Binding
remove_bindings id [] = []
remove_bindings id (b ∷ bs) =
    let rest = remove_bindings id bs in
    if text_eq b.external_type (str "department") && text_eq b.local_id id then rest else b ∷ rest

pub data DepartmentReply : Type 0 where
  not_found : DepartmentReply
  onto_itself : DepartmentReply
  below_itself : DepartmentReply
  ok : DepartmentReply
  -- the loop of Move does not end within the fuel
  runs_on : DepartmentReply

-- DepartmentHandler.Create
abbrev pub create_department : Department → List Department → DepartmentReply × List Department
create_department d ds = (ok, ds ++ (d ∷ []))

-- The fields of the body of Update: left out, or a value
pub record DepartmentChange : Type 0 where
  pub name : Option Text
  pub parent_id : Option (Option Text)

-- DepartmentHandler.Update
unfoldable pub update_department :
    Text → DepartmentChange → List Department → DepartmentReply × List Department
update_department id change ds = elim (get_department id ds) [
  | none ↦ (not_found, ds)
  | some d ↦ (
    ok,
    put_department
        (record d {
          name = or_else change.name d.name;
          parent_id = or_else change.parent_id d.parent_id;
        })
        ds,
  )
]

-- DepartmentHandler.Delete
unfoldable pub delete_department :
    Text → List Binding → List Department → DepartmentReply × (List Binding × List Department)
delete_department id bs ds = (ok, (remove_bindings id bs, remove_department id ds))

-- What the walk up from the new parent meets
pub data Climb : Type 0 where
  meets : Climb
  ends : Climb
  goes_on : Climb

-- for cursor != nil { … }, on fuel
unfoldable pub climb : ℕ → Text → Option Text → List Department → Climb
climb zero id none ds = ends
climb (suc k) id none ds = ends
climb zero id (some c) ds = goes_on
climb (suc k) id (some c) ds =
    if text_eq c id
    then meets
    else elim (get_department c ds) [ none ↦ ends | some d ↦ climb k id d.parent_id ds ]

abbrev pub after_climb :
    Climb → Text → Department → List Department → DepartmentReply × List Department
after_climb meets p d ds = (below_itself, ds)
after_climb ends p d ds = (ok, put_department (record d { parent_id = some p }) ds)
after_climb goes_on p d ds = (runs_on, ds)

-- DepartmentHandler.Move
unfoldable pub move_department :
    ℕ → Text → Option Text → List Department → DepartmentReply × List Department
move_department fuel id parent ds = elim (get_department id ds) [
  | none ↦ (not_found, ds)
  | some d ↦ elim parent [
    | none ↦ (ok, put_department (record d { parent_id = none }) ds)
    | some p ↦
        if text_eq p id then (onto_itself, ds) else after_climb (climb fuel id (some p) ds) p d ds
  ]
]
