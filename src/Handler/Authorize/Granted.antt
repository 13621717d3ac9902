-- ===== src/Handler/Authorize/Granted.antt =====
-- internal/repository/app_grant_repo.go, UserAllowed: what its three queries find.
use mathlib.Core.List.{Memᴰ}
use one_auth.Base.{
  ◌≡◌, ◌↔◌, inl, inr, refl, ap, ◌∙◌, true, ◌&&◌, some, List, [], ◌∷◌, Text, str, text_eq,
  text_eq_iff, arith, Option-cases, Bool-cases,
}
use one_auth.Model.User.{User}
use one_auth.Handler.Env.{
  Env, AppGrant, is_member, in_department, grant_hits, any_grant, user_allowed,
}

-- A row of a grant that is for the user: by name, through a group, or through the department.
pub data IsFor (env : Env) (uid : Text) (g : AppGrant) : Type 0 where
  by_name : g.principal_type ≡ str "user" → g.principal_id ≡ uid → IsFor env uid g
  by_group :
      g.principal_type ≡ str "group"
      → Memᴰ (g.principal_id, uid) env.group_members
      → IsFor env uid g
  by_department :
      (u : User)
      → g.principal_type ≡ str "org"
      → Memᴰ u env.users
      → u.id ≡ uid
      → u.department_id ≡ some g.principal_id
      → IsFor env uid g

-- A row for the application and the user
abbrev pub HasGrant : Env → Text → Text → Type 0
HasGrant env client_id uid =
    (g : AppGrant) × (Memᴰ g env.app_grants × ((g.client_id ≡ client_id) × IsFor env uid g))

is_member-Mem :
    (group uid : Text) (ms : List (Text × Text))
    → is_member group uid ms ≡ true
    → Memᴰ (group, uid) ms
unfolding is_member
is_member-Mem group uid [] h = cc
is_member-Mem group uid ((g, u) ∷ ms) h = elim (Bool-cases (text_eq g group && text_eq u uid)) [
  | inl e ↦
      let a : g ≡ group = ground (arith, text_eq_iff g group) in
      let b : u ≡ uid = ground (arith, text_eq_iff u uid) in Memᴰ.head (cc)
  | inr e ↦ Memᴰ.tail (is_member-Mem group uid ms (ground arith))
]

Mem-is_member :
    (group uid : Text) (ms : List (Text × Text))
    → Memᴰ (group, uid) ms
    → is_member group uid ms ≡ true
unfolding is_member
Mem-is_member group uid [] m = elim m [ ]
Mem-is_member group uid ((g, u) ∷ ms) m = elim m [
  | Memᴰ.head q ↦ ground (arith, text_eq_iff g group, text_eq_iff u uid)
  | Memᴰ.tail m ↦ ground (arith, Mem-is_member group uid ms m)
]

abbrev Works : Text → Text → List User → Type 0
Works dept uid us = (u : User) × (Memᴰ u us × ((u.id ≡ uid) × (u.department_id ≡ some dept)))

in_department-Works :
    (dept uid : Text) (us : List User) → in_department dept uid us ≡ true → Works dept uid us
unfolding in_department
in_department-Works dept uid [] h = cc
in_department-Works dept uid (u ∷ us) h = elim (Bool-cases (in_department dept uid us)) [
  | inl e ↦ let (v, (m, rest)) = in_department-Works dept uid us e in (v, (Memᴰ.tail m, rest))
  | inr e ↦ elim (Option-cases u.department_id) [
    | inl n ↦ absurd (ground arith)
    | inr (d, k) ↦
        let a : u.id ≡ uid = ground (arith, text_eq_iff u.id uid) in
        let b : d ≡ dept = ground (arith, text_eq_iff d dept) in
        (u, (Memᴰ.head refl, (a, k ∙ ap some b)))
  ]
]

Works-in_department :
    (dept uid : Text) (us : List User) (u : User)
    → Memᴰ u us
    → u.id ≡ uid
    → u.department_id ≡ some dept
    → in_department dept uid us ≡ true
unfolding in_department
Works-in_department dept uid [] u m i d = elim m [ ]
Works-in_department dept uid (v ∷ us) u m i d = elim m [
  | Memᴰ.head q ↦ ground (arith, text_eq_iff v.id uid, text_eq_iff dept dept, q)
  | Memᴰ.tail m ↦ ground (arith, Works-in_department dept uid us u m i d)
]

grant_hits-IsFor :
    (env : Env) (uid : Text) (g : AppGrant) → grant_hits env uid g ≡ true → IsFor env uid g
unfolding grant_hits
grant_hits-IsFor env uid g h =
    elim (Bool-cases (text_eq g.principal_type (str "user") && text_eq g.principal_id uid)) [
      | inl e ↦
          by_name (ground (arith, text_eq_iff g.principal_type (str "user")))
            (ground (arith, text_eq_iff g.principal_id uid))
      | inr e ↦
          elim (Bool-cases (
            text_eq g.principal_type (str "group")
            && is_member g.principal_id uid env.group_members)) [
              | inl f ↦
                  by_group (ground (arith, text_eq_iff g.principal_type (str "group")))
                    (is_member-Mem g.principal_id uid env.group_members (ground arith))
              | inr f ↦
                  let (u, (m, (i, d))) =
                    in_department-Works g.principal_id uid env.users (ground arith) in
                  by_department u (ground (arith, text_eq_iff g.principal_type (str "org"))) m i d
            ]
    ]

IsFor-grant_hits :
    {env : Env} {uid : Text} {g : AppGrant} → IsFor env uid g → grant_hits env uid g ≡ true
unfolding grant_hits
IsFor-grant_hits {env} {uid} {g} (by_name t i) =
    ground (arith, text_eq_iff g.principal_type (str "user"), text_eq_iff g.principal_id uid)
IsFor-grant_hits {env} {uid} {g} (by_group t m) = ground (
  arith,
  text_eq_iff g.principal_type (str "group"),
  Mem-is_member g.principal_id uid env.group_members m,
)
IsFor-grant_hits {env} {uid} {g} (by_department u t m i d) = ground (
  arith,
  text_eq_iff g.principal_type (str "org"),
  Works-in_department g.principal_id uid env.users u m i d,
)

any_grant-Mem :
    (env : Env) (client_id uid : Text) (gs : List AppGrant)
    → any_grant env client_id uid gs ≡ true
    → (g : AppGrant) × (Memᴰ g gs × ((g.client_id ≡ client_id) × IsFor env uid g))
unfolding any_grant
any_grant-Mem env client_id uid [] h = cc
any_grant-Mem env client_id uid (g ∷ gs) h =
    elim (Bool-cases (text_eq g.client_id client_id && grant_hits env uid g)) [
      | inl e ↦ (
        g,
        (
          Memᴰ.head refl,
          (
            ground (arith, text_eq_iff g.client_id client_id),
            grant_hits-IsFor env uid g (ground arith),
          ),
        ),
      )
      | inr e ↦
          let (x, (m, rest)) = any_grant-Mem env client_id uid gs (ground arith) in
          (x, (Memᴰ.tail m, rest))
    ]

Mem-any_grant :
    (env : Env) (client_id uid : Text) (gs : List AppGrant) (g : AppGrant)
    → Memᴰ g gs
    → g.client_id ≡ client_id
    → grant_hits env uid g ≡ true
    → any_grant env client_id uid gs ≡ true
unfolding any_grant
Mem-any_grant env client_id uid [] g m c h = elim m [ ]
Mem-any_grant env client_id uid (x ∷ gs) g m c h = elim m [
  | Memᴰ.head q ↦ ground (arith, text_eq_iff x.client_id client_id, q)
  | Memᴰ.tail m ↦ ground (arith, Mem-any_grant env client_id uid gs g m c h)
]

-- UserAllowed finds a row exactly when there is a grant of the application for the user.
pub user_allowed_iff :
    (env : Env) (client_id uid : Text)
    → (user_allowed env client_id uid ≡ true) ↔ HasGrant env client_id uid
unfolding user_allowed
user_allowed_iff env client_id uid = (
  λ h. any_grant-Mem env client_id uid env.app_grants h,
  λ (g, (m, (c, f))). Mem-any_grant env client_id uid env.app_grants g m c (IsFor-grant_hits f),
)
