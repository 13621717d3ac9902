-- ===== src/Handler/Departments/Acyclic.antt =====
-- Move keeps the tree of departments free of cycles, in which its walk up ends.
use one_auth.Base.{
  ℕ, zero, suc, ◌+◌, ◌<◌, ◌≡◌, ◌≢◌, refl, ap, sym, ◌∙◌, subst, inl, inr, ◌⊎◌, Bool, true, false,
  Option, none, some, List, [], ◌∷◌, Text, text_eq, text_eq_refl, text_eq_iff, arith, Bool-cases,
  Option-cases, if_intro, if◌then◌else◌,
}
use one_auth.DirectorySync.State.{Department}
use one_auth.Handler.Departments.{
  get_department, put_department, DepartmentReply, runs_on, Climb, meets, ends, goes_on, climb,
  after_climb, move_department,
}

-- Each department is ranked above its parent.
abbrev pub IsRanked : (Text → ℕ) → List Department → Type 0
IsRanked rank ds =
    (c : Text) (d : Department) (p : Text)
    → get_department c ds ≡ some d
    → d.parent_id ≡ some p
    → rank p < rank c

pub get_department-key :
    (id : Text) (ds : List Department) (d : Department) → get_department id ds ≡ some d → d.id ≡ id
unfolding get_department
get_department-key id [] d h = cc
get_department-key id (e ∷ ds) d h = ground (arith, get_department-key id ds d, text_eq_iff e.id id)

Climb-cases : (x : Climb) → (x ≡ meets) ⊎ ((x ≡ ends) ⊎ (x ≡ goes_on))
Climb-cases meets = inl refl
Climb-cases ends = inr (inl refl)
Climb-cases goes_on = inr (inr refl)

climb-nil : (k : ℕ) (id : Text) (ds : List Department) → climb k id none ds ≡ ends
unfolding climb
climb-nil zero id ds = refl
climb-nil (suc k) id ds = refl

climb-more :
    (rank : Text → ℕ) (ds : List Department)
    → IsRanked rank ds
    → (k j : ℕ) (id c : Text) → rank c < k
    → rank c < j
    → climb k id (some c) ds ≡ climb j id (some c) ds
unfolding climb
climb-more rank ds ranked zero j id c h i = absurd (omega arith)
climb-more rank ds ranked (suc k) zero id c h i = absurd (omega arith)
climb-more rank ds ranked (suc k) (suc j) id c h i = elim (Bool-cases (text_eq c id)) [
  | inl e ↦ rw (e) refl
  | inr e ↦ elim (Option-cases (get_department c ds)) [
    | inl n ↦ rw (e, n) refl
    | inr (d, f) ↦ elim (Option-cases d.parent_id) [
      | inl n ↦ rw (e, f, n) (climb-nil k id ds ∙ sym (climb-nil j id ds))
      | inr (p, q) ↦
          let lower = ranked c d p f q in
          rw (e, f, q) (climb-more rank ds ranked k j id p (omega arith) (omega arith))
    ]
  ]
]

-- With fuel above the rank the walk ends.
climb-stops :
    (rank : Text → ℕ) (ds : List Department)
    → IsRanked rank ds
    → (k : ℕ) (id c : Text) → rank c < k
    → climb k id (some c) ds ≢ goes_on
unfolding climb
climb-stops rank ds ranked zero id c h = absurd (omega arith)
climb-stops rank ds ranked (suc k) id c h = elim (Bool-cases (text_eq c id)) [
  | inl e ↦ rw (e) (λ x. cc)
  | inr e ↦ elim (Option-cases (get_department c ds)) [
    | inl n ↦ rw (e, n) (λ x. cc)
    | inr (d, f) ↦ elim (Option-cases d.parent_id) [
      | inl n ↦ rw (e, f, n, climb-nil k id ds) (λ x. cc)
      | inr (p, q) ↦
          let lower = ranked c d p f q in
          rw (e, f, q) (climb-stops rank ds ranked k id p (omega arith))
    ]
  ]
]

pub get_department-put :
    (v : Department) (c : Text) (ds : List Department)
    → get_department c (put_department v ds) ≡ (
        if text_eq v.id c
        then (elim (get_department v.id ds) [ none ↦ none | some d ↦ some v ])
        else get_department c ds)
unfolding get_department put_department
get_department-put v c [] = ground arith
get_department-put v c (d ∷ ds) = ground (
  arith,
  get_department-put v c ds,
  text_eq_iff v.id c,
  text_eq_iff d.id v.id,
  text_eq_iff d.id c,
  text_eq_refl v.id,
)

abbrev is_meets : Climb → Bool
is_meets meets = true
is_meets ends = false
is_meets goes_on = false

module _ (rank : Text → ℕ) (ds : List Department) (ranked : IsRanked rank ds) where
  -- Does the walk up from c meet id?
  abbrev below : Text → Text → Bool
  below id c = is_meets (climb (suc (rank c)) id (some c) ds)

  below-parent :
      (id c p : Text) (d : Department)
      → get_department c ds ≡ some d
      → d.parent_id ≡ some p
      → text_eq c id ≡ false
      → below id c ≡ below id p
  unfolding climb
  below-parent id c p d f q n =
      let lower = ranked c d p f q in
      rw (n, f, q)
        (ap is_meets
          (climb-more rank ds ranked (rank c) (suc (rank p)) id p (omega arith) (omega arith)))

  below_self : (id : Text) → below id id ≡ true
  unfolding climb
  below_self id = rw (text_eq_refl id) refl

  -- What is below id is ranked above p.
  abbrev raised : Text → Text → Text → ℕ
  raised id p c = if below id c then rank c + rank p + 1 else rank c

  IsRanked-put :
      (id p : Text) (d : Department)
      → get_department id ds ≡ some d
      → d.id ≡ id
      → below id p ≡ false
      → IsRanked (raised id p) (put_department (record d { parent_id = some p }) ds)
  IsRanked-put id p d f i apart c v q g h = elim (Bool-cases (text_eq d.id c)) [
    | inl e ↦
        let same : id ≡ c = sym i ∙ (text_eq_iff d.id c).0 e in
        let row = get_department-put (record d { parent_id = some p }) c ds in
        let there : get_department d.id ds ≡ some d = ap (λ x. get_department x ds) i ∙ f in
        let new_parent : p ≡ q = ground (arith, row, there) in
        let own = below_self id in
        subst (λ x. raised id p x < raised id p c) new_parent
          (subst (λ x. raised id p p < raised id p x) same (rw (own, apart) (omega arith)))
    | inr e ↦
        let row = get_department-put (record d { parent_id = some p }) c ds in
        let old : get_department c ds ≡ some v = ground (arith, row) in
        let lower = ranked c v q old h in
        let other : text_eq c id ≡ false = ground (arith, text_eq_iff c id, text_eq_iff d.id c) in
        let both = below-parent id c q v old h other in ground (arith, lower, both)
  ]

  IsRanked-root :
      (d : Department) → IsRanked rank (put_department (record d { parent_id = none }) ds)
  IsRanked-root d c v q g h = elim (Bool-cases (text_eq d.id c)) [
    | inl e ↦
        let row = get_department-put (record d { parent_id = none }) c ds in
        absurd (ground (arith, row))
    | inr e ↦
        let row = get_department-put (record d { parent_id = none }) c ds in
        let old : get_department c ds ≡ some v = ground (arith, row) in ranked c v q old h
  ]

  -- The outcome of Move: an answer, and a table in which each department is ranked above its parent
  abbrev pub IsTree : DepartmentReply × List Department → Type 0
  IsTree x = (x.0 ≢ runs_on) × ((rank' : Text → ℕ) × IsRanked rank' x.1)

  climbed :
      (fuel : ℕ) (id p : Text) (d : Department)
      → get_department id ds ≡ some d
      → d.id ≡ id
      → rank p < fuel
      → IsTree (after_climb (climb fuel id (some p) ds) p d ds)
  climbed fuel id p d f i enough =
      let same = climb-more rank ds ranked fuel (suc (rank p)) id p enough (omega arith) in
      elim (Climb-cases (climb fuel id (some p) ds)) [
        | inl m ↦ rw (m) ((λ x. cc), (rank, ranked))
        | inr (inl e) ↦
            rw (e) ((λ x. cc), (raised id p, IsRanked-put id p d f i (ap is_meets (sym same ∙ e))))
        | inr (inr g) ↦ absurd (climb-stops rank ds ranked fuel id p enough g)
      ]

  -- In a table without cycles, where each department is ranked above its parent, Move answers, with
  -- fuel above the rank of the new parent, and leaves a table without cycles.
  pub move_department-IsTree :
      (fuel : ℕ) (id : Text) (parent : Option Text)
      → ((p : Text) → parent ≡ some p → rank p < fuel)
      → IsTree (move_department fuel id parent ds)
  unfolding move_department
  move_department-IsTree fuel id none enough = elim (Option-cases (get_department id ds)) [
    | inl n ↦ rw (move_department, n) ((λ x. cc), (rank, ranked))
    | inr (d, f) ↦ rw (move_department, f) ((λ x. cc), (rank, IsRanked-root d))
  ]
  move_department-IsTree fuel id (some p) enough = elim (Option-cases (get_department id ds)) [
    | inl n ↦ rw (move_department, n) ((λ x. cc), (rank, ranked))
    | inr (d, f) ↦
        rw (move_department, f)
          (if_intro IsTree (text_eq p id) (λ _. ((λ x. cc), (rank, ranked)))
            (λ _. climbed fuel id p d f (get_department-key id ds d f) (enough p refl)))
  ]
