-- ===== src/Middleware/Gates.antt =====
-- Who passes the gates of the administration.
use mathlib.Core.List.{Memᴰ}
use one_auth.Base.{
  ℕ, ◌≡◌, ◌⊎◌, inl, inr, refl, ap, sym, ◌∙◌, ne_of_first_byte, >>=-eq-next, not, ◌&&◌, true, some,
  List, [], ◌∷◌, Text, str, text_eq, text_eq_sound, arith, Option-cases, Bool-cases, if_elim, next,
  ◌>>=◌,
}
use one_auth.Model.User.{User}
use one_auth.Store.{StoreOps}
use one_auth.Oauth.Jwt.{AccessTokenClaims}
use one_auth.Oauth.Token.{validate_access_token}
use one_auth.Handler.Env.{Env, Request, user_of_claims}
use one_auth.Middleware.{
  AuthContext, is_none, request_token, jwt_auth, require_staff, grants, has_code, permissions,
  permissions_of, require_permission,
}

-- The code that a list grants a permission by
grants-Mem :
    (perm : Text) (ps : List Text)
    → grants perm ps ≡ true
    → (code : Text) × Memᴰ code ps × ((code ≡ str "*") ⊎ (code ≡ perm))
unfolding grants
grants-Mem perm [] h = cc
grants-Mem perm (p ∷ ps) h = elim (Bool-cases (text_eq p (str "*"))) [
  | inl e ↦ (p, Memᴰ.head refl, inl (text_eq_sound p (str "*") e))
  | inr n ↦ elim (Bool-cases (text_eq p perm)) [
    | inl e ↦ (p, Memᴰ.head refl, inr (text_eq_sound p perm e))
    | inr n' ↦ let (code, m, e) = grants-Mem perm ps (ground arith) in (code, Memᴰ.tail m, e)
  ]
]

permissions_of-Mem :
    (roles : List Text) (table : List (Text × Text)) (perm : Text)
    → Memᴰ perm (permissions_of roles table)
    → (role : Text) × (has_code role roles ≡ true) × Memᴰ (role, perm) table
unfolding permissions_of
permissions_of-Mem roles [] perm m = elim m [ ]
permissions_of-Mem roles ((r, p) ∷ table) perm m =
    let rest = permissions_of roles table in
    elim (if_elim (λ (l : List Text). Memᴰ perm l) (has_code r roles && not (has_code p rest)) m) [
      | inl (b, m) ↦ elim m [
        | Memᴰ.head e ↦ (r, ground arith, Memᴰ.head (ap (λ (x : Text). (r, x)) e))
        | Memᴰ.tail m ↦
            let (role, h, n) = permissions_of-Mem roles table perm m in (role, h, Memᴰ.tail n)
      ]
      | inr (b, m) ↦
          let (role, h, n) = permissions_of-Mem roles table perm m in (role, h, Memᴰ.tail n)
    ]

-- Why a user has a permission: the role of a super administrator, a role that carries it or "*", or
-- the dashboard of staff
abbrev pub IsEntitled : List (Text × Text) → Text → User → Type 0
IsEntitled table perm u =
    (has_code (str "super_admin") u.roles ≡ true)
    ⊎ (((role : Text) × (code : Text) × (has_code role u.roles ≡ true)
          × (Memᴰ (role, code) table)
          × ((code ≡ str "*") ⊎ (code ≡ perm)))
        ⊎ ((u.is_staff ≡ true) × (perm ≡ str "dashboard")))

dashboard-code :
    (code perm : Text)
    → Memᴰ code (str "dashboard" ∷ [])
    → (code ≡ str "*") ⊎ (code ≡ perm)
    → perm ≡ str "dashboard"
dashboard-code code perm m e = elim m [
  | Memᴰ.tail m ↦ elim m [ ]
  | Memᴰ.head q ↦ elim e [
    | inr p ↦ sym p ∙ q
    | inl p ↦ absurd (ne_of_first_byte (str "dashboard") (str "*") (omega arith) (sym q ∙ p))
  ]
]

permissions-IsEntitled :
    (table : List (Text × Text)) (perm : Text) (u : User)
    → grants perm (permissions table u) ≡ true
    → IsEntitled table perm u
unfolding permissions
permissions-IsEntitled table perm u h =
    let (code, m, e) = grants-Mem perm (permissions table u) h in
    elim (if_elim (λ (l : List Text). Memᴰ code l) (has_code (str "super_admin") u.roles) m) [
      | inl (a, _) ↦ inl a
      | inr (_, m) ↦
          elim (if_elim (λ (l : List Text). Memᴰ code l)
            (u.is_staff && is_none (permissions_of u.roles table)) m) [
              | inl (b, m) ↦ inr (inr (ground arith, dashboard-code code perm m e))
              | inr (_, m) ↦
                  let (role, r, n) = permissions_of-Mem u.roles table code m in
                  inr (inl (role, code, r, n, e))
            ]
    ]

module _ {S : Type 0} (o : StoreOps S) (env : Env) (now : ℕ) (r : Request) (s : S) where
  -- The user that a valid token names
  abbrev pub IsAuthenticated : User → Type 0
  IsAuthenticated u =
      (c : AccessTokenClaims) × (validate_access_token o env.jwt now (request_token r) s ≡ some c)
      × (user_of_claims o env c ≡ some u)

  jwt_auth-user :
      (k : AuthContext) (u : User)
      → jwt_auth o env now r s ≡ next k
      → k.user ≡ some u
      → IsAuthenticated u
  unfolding jwt_auth
  jwt_auth-user k u e m =
      elim (Option-cases (validate_access_token o env.jwt now (request_token r) s)) [
        | inl n ↦ absurd (ground arith)
        | inr (c, v) ↦ (c, v, ground arith)
      ]

  require_permission-next :
      (table : List (Text × Text)) (perm : Text) (k k' : AuthContext)
      → require_permission table perm k ≡ next k'
      → (u : User) × (k.user ≡ some u) × IsEntitled table perm u
  unfolding require_permission
  require_permission-next table perm k k' e = elim (Option-cases k.user) [
    | inl n ↦ absurd (ground arith)
    | inr (u, v) ↦ (u, v, permissions-IsEntitled table perm u (ground arith))
  ]

  require_staff-next :
      (k k' : AuthContext)
      → require_staff k ≡ next k'
      → (u : User) × (k.user ≡ some u) × (u.is_staff ≡ true)
  unfolding require_staff
  require_staff-next k k' e = elim (Option-cases k.user) [
    | inl n ↦ absurd (ground arith)
    | inr (u, v) ↦ (u, v, ground arith)
  ]

  -- A request that passes JWTAuth and the gate of a permission has a token that validates and names
  -- a user of the table, who is entitled to the permission: as a super administrator, by a role that
  -- carries it or "*", or, for the dashboard, as staff.
  pub gates-IsEntitled :
      (table : List (Text × Text)) (perm : Text) (k : AuthContext)
      → (jwt_auth o env now r s >>= require_permission table perm) ≡ next k
      → (u : User) × IsAuthenticated u × IsEntitled table perm u
  gates-IsEntitled table perm k e =
      let (k', a, b) = >>=-eq-next (jwt_auth o env now r s) (require_permission table perm) e in
      let (u, m, i) = require_permission-next table perm k' k b in (u, jwt_auth-user k' u a m, i)

  -- A request that passes JWTAuth and the gate of staff has a token that validates and names a user
  -- of the table who is staff.
  pub gates-is_staff :
      (k : AuthContext)
      → (jwt_auth o env now r s >>= require_staff) ≡ next k
      → (u : User) × IsAuthenticated u × (u.is_staff ≡ true)
  gates-is_staff k e =
      let (k', a, b) = >>=-eq-next (jwt_auth o env now r s) require_staff e in
      let (u, m, i) = require_staff-next k' k b in (u, jwt_auth-user k' u a m, i)
