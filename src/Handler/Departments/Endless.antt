-- ===== src/Handler/Departments/Endless.antt =====
-- With a department that is its own parent the walk of Move does not end.
use one_auth.Base.{
  ℕ, zero, suc, ◌≡◌, ◌≢◌, refl, ap, ◌∙◌, true, false, some, or_else, List, Text, text_eq,
  text_eq_iff, text_eq_ne, arith,
}
use one_auth.DirectorySync.State.{Department}
use one_auth.Handler.Departments.{
  get_department, put_department, runs_on, DepartmentChange, update_department, goes_on, climb,
  move_department,
}
use one_auth.Handler.Departments.Acyclic.{get_department-key, get_department-put}

climb-loop :
    (k : ℕ) (id c : Text) (d : Department) (ds : List Department)
    → get_department c ds ≡ some d
    → d.parent_id ≡ some c
    → text_eq c id ≡ false
    → climb k id (some c) ds ≡ goes_on
unfolding climb
climb-loop zero id c d ds f q n = refl
climb-loop (suc k) id c d ds f q n = rw (n, f, q) (climb-loop k id c d ds f q n)

put-own :
    (v : Department) (c : Text) (ds : List Department) (d : Department)
    → get_department c ds ≡ some d
    → v.id ≡ c
    → get_department c (put_department v ds) ≡ some v
put-own v c ds d f i =
    let row = get_department-put v c ds in
    let there : get_department v.id ds ≡ some d = ap (λ x. get_department x ds) i ∙ f in
    let same : text_eq v.id c ≡ true = (text_eq_iff v.id c).1 i in ground (arith, row, there, same)

put-other :
    (v : Department) (c : Text) (ds : List Department)
    → text_eq v.id c ≡ false
    → get_department c (put_department v ds) ≡ get_department c ds
put-other v c ds n = let row = get_department-put v c ds in ground (arith, row)

move_department-goes_on :
    (fuel : ℕ) (id c : Text) (e : Department) (ds : List Department)
    → get_department id ds ≡ some e
    → text_eq c id ≡ false
    → climb fuel id (some c) ds ≡ goes_on
    → (move_department fuel id (some c) ds).0 ≡ runs_on
unfolding move_department
move_department-goes_on fuel id c e ds f n g = rw (move_department, f, n, g) refl

-- Update lets a department be its own parent; then the walk of Move, of any other department to
-- below that one, never ends.
pub move_department-runs_on :
    (c id : Text) (change : DepartmentChange) (ds : List Department) (d e : Department)
    → get_department c ds ≡ some d
    → get_department id ds ≡ some e
    → c ≢ id
    → change.parent_id ≡ some (some c)
    → (fuel : ℕ) → (move_department fuel id (some c) (update_department c change ds).1).0 ≡ runs_on
unfolding update_department put_department
move_department-runs_on c id change ds d e f g n h fuel =
    let key = get_department-key c ds d f in
    let v : Department = record d { name = or_else change.name d.name; parent_id = some c } in
    let loop =
      climb-loop fuel id c v (put_department v ds) (put-own v c ds d f key) refl
        (text_eq_ne c id n) in
    let apart : text_eq d.id id ≡ false = rw (key) (text_eq_ne c id n) in
    let moved = put-other v id ds apart ∙ g in
    let updated : (update_department c change ds).1 ≡ put_department v ds =
      rw (update_department, f, h) refl in
    ap (λ t. (move_department fuel id (some c) t).0) updated
    ∙ move_department-goes_on fuel id c e (put_department v ds) moved (text_eq_ne c id n) loop
