-- ===== src/Middleware.antt =====
-- internal/middleware/auth.go: the gates before the administration and portal handlers, with the
-- permissions of internal/service/user_service.go. What a gin context carries is a record.
pub mod Gates
use one_auth.Base.{
  ℕ, Bool, true, false, not, ◌&&◌, ◌||◌, Option, none, some, List, [], ◌∷◌, Text, str, text_eq,
  is_empty, has_prefix, drop_prefix, if◌then◌else◌, Flow, next, reply, require, or_reply, ◌>>◌,
  ◌>>=◌,
}
use one_auth.Model.User.{User, get_by_id}
use one_auth.Store.{StoreOps}
use one_auth.Oauth.Jwt.{AccessTokenClaims}
use one_auth.Oauth.Token.{text_or, validate_access_token}
use one_auth.Handler.Env.{Env, Request, text_of, user_of_claims}

pub data Refusal : Type 0 where
  not_logged_in : Refusal
  invalid_token : Refusal
  staff_only : Refusal
  missing_permission : Text → Refusal

-- What JWTAuth sets: the claims, and the user with what is derived
pub record AuthContext : Type 0 where
  pub user_id : Text
  pub client_id : Text
  pub scope : Text
  pub username : Text
  pub user : Option User

-- The token of the header, or else of the cookie; "" for none
unfoldable pub request_token : Request → Text
request_token r =
    if has_prefix r.authorization (str "Bearer ")
    then drop_prefix r.authorization (str "Bearer ")
    else text_of r.token_cookie

-- sso_role_permissions: codes of roles and of their permissions, and Distinct
unfoldable pub has_code : Text → List Text → Bool
has_code code [] = false
has_code code (c ∷ cs) = text_eq c code || has_code code cs

unfoldable pub permissions_of : List Text → List (Text × Text) → List Text
permissions_of roles [] = []
permissions_of roles ((role, perm) ∷ rs) =
    let rest = permissions_of roles rs in
    if has_code role roles && not (has_code perm rest) then perm ∷ rest else rest

abbrev pub is_none : List Text → Bool
is_none [] = true
is_none (c ∷ cs) = false

-- UserService.Permissions
unfoldable pub permissions : List (Text × Text) → User → List Text
permissions table u =
    if has_code (str "super_admin") u.roles
    then str "*" ∷ []
    else (let perms = permissions_of u.roles table in
        if u.is_staff && is_none perms then str "dashboard" ∷ [] else perms)

module _ {S : Type 0} (o : StoreOps S) where
  -- JWTAuth
  unfoldable pub jwt_auth : Env → ℕ → Request → S → Flow Refusal AuthContext
  jwt_auth env now r s = do
    require (not (is_empty (request_token r))) not_logged_in
    c ← or_reply (validate_access_token o env.jwt now (request_token r) s) invalid_token
    next (record {
      user_id = text_or c.uid c.registered.subject;
      client_id = c.client_id;
      scope = c.scope;
      username = c.username;
      user = user_of_claims o env c;
    })

-- RequireStaff
unfoldable pub require_staff : AuthContext → Flow Refusal AuthContext
require_staff k = elim k.user [
  | none ↦ reply staff_only
  | some u ↦ if u.is_staff then next k else reply staff_only
]

unfoldable pub grants : Text → List Text → Bool
grants perm [] = false
grants perm (p ∷ ps) = (text_eq p (str "*") || text_eq p perm) || grants perm ps

-- RequirePermission
unfoldable pub require_permission :
    List (Text × Text) → Text → AuthContext → Flow Refusal AuthContext
require_permission table perm k = elim k.user [
  | none ↦ reply (missing_permission perm)
  | some u ↦ if grants perm (permissions table u) then next k else reply (missing_permission perm)
]
