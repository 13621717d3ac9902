-- ===== src/Handler/Env.antt =====
-- What a handler reads and changes, the session of a request (handler/session_helpers.go), and the
-- small functions of handler/oauth_handler.go. The database rows and the configuration are `Env`;
-- the key/value store, the session index, the consents and the access log are `World`.
use one_auth.Base.{
  ℕ, Bool, false, or_else, ◌&&◌, ◌||◌, Option, none, some, List, [], ◌∷◌, Text, str, text_eq,
  is_empty, ℤ, if◌then◌else◌,
}
use one_auth.Model.Payload.{SessionData}
use one_auth.Model.User.{User, get_by_id}
use one_auth.Model.Client.{OAuth2Client, AuthorizationGrant}
use one_auth.Store.{StoreOps}
use one_auth.Oauth.Jwt.{JwtOps, AccessTokenClaims}
use one_auth.Oauth.Token.{TokenService, UserInfo, IdTokenOptions, text_or, validate_access_token}
use one_auth.Session.{create, get_session}

-- model.AppGrant: who may use an `assigned` application
pub record AppGrant : Type 0 where
  pub client_id : Text
  pub principal_type : Text
  pub principal_id : Text

-- model.AccessLog, without the region that is looked up for the address
pub record AccessLog : Type 0 where
  pub user_id : Text
  pub username : Text
  pub client_id : Text
  pub client_name : Text
  pub ip : Text

-- The functions from `parse_uuid` on are those of packages uuid, bcrypt, sha256 with base64, and
-- url.
pub record Env : Type 0 where
  pub ts : TokenService
  pub jwt : JwtOps
  pub users : List User
  pub clients : List OAuth2Client
  pub app_grants : List AppGrant
  pub group_members : List (Text × Text)
  pub code_ttl : ℤ
  pub session_ttl : ℤ
  pub frontend_base : Text
  pub parse_uuid : Text → Option Text
  pub compare_hash : Text → Text → Bool
  pub s256 : Text → Text
  pub query_escape : Text → Text
  pub query_unescape : Text → Option Text
  pub encode_query : List (Text × Text) → Text

pub record World (S : Type 0) : Type 0 where
  pub kv : S
  pub index : List Text
  pub consents : List AuthorizationGrant
  pub access_log : List AccessLog

-- What is drawn at random while a request is served.
pub record Fresh : Type 0 where
  pub session_id : Text
  pub code : Text
  pub access_jti : Text
  pub id_jti : Text
  pub refresh_token : Text

-- A request: its query string or form, and its cookies and headers.
pub record Request : Type 0 where
  pub param : Text → Option Text
  pub basic_auth : Option (Text × Text)
  pub authorization : Text
  pub session_cookie : Option Text
  pub token_cookie : Option Text
  pub client_ip : Text
  pub user_agent : Text
  pub request_uri : Text

-- c.DefaultQuery(key, default)
abbrev pub query_or : Request → Text → Text → Text
query_or r key default = elim (r.param key) [ none ↦ default | some v ↦ v ]

-- c.Query(key), FormValue(key)
abbrev pub query : Request → Text → Text
query r key = query_or r key []

abbrev pub nil_uuid : Text
nil_uuid = str "00000000-0000-0000-0000-000000000000"

-- uid, _ := uuid.Parse(s)
abbrev pub parse_or_nil : Env → Text → Text
parse_or_nil env s = or_else (env.parse_uuid s) nil_uuid

-- the value of a *string, "" for nil
abbrev pub text_of : Option Text → Text
text_of none = []
text_of (some s) = s

unfoldable pub session_display_name : User → Text
session_display_name u = text_or u.nickname u.username

unfoldable pub verify_pkce : Env → Text → Text → Text → Bool
verify_pkce env verifier challenge method =
    if text_eq method (str "S256") then text_eq (env.s256 verifier) challenge else false

unfoldable pub resolve_subject : User → Text → Text
resolve_subject u subject_type =
    if text_eq subject_type (str "user_id")
    then u.id
    else if text_eq subject_type (str "email")
    then text_or (text_of u.email) u.id
    else if text_eq subject_type (str "mobile")
    then text_or (text_of u.phone) u.id
    else u.username

unfoldable pub user_to_info : User → UserInfo
user_to_info u = record {
  username = u.username;
  name = text_or u.nickname u.username;
  email = text_of u.email;
  phone = text_of u.phone;
  roles = u.roles;
  groups = u.groups;
  is_staff = u.is_staff;
}

unfoldable pub build_id_token_options : OAuth2Client → IdTokenOptions
build_id_token_options c = record {
  issuer = c.oidc_issuer;
  audience = c.oidc_audience;
  signing_alg = c.oidc_id_token_signing_alg;
  allow_claims = c.oidc_claims;
}

-- repository.AppGrantRepository.UserAllowed: the user, a group of the user, or the department
unfoldable pub is_member : Text → Text → List (Text × Text) → Bool
is_member group uid [] = false
is_member group uid ((g, u) ∷ ms) = (text_eq g group && text_eq u uid) || is_member group uid ms

unfoldable pub in_department : Text → Text → List User → Bool
in_department dept uid [] = false
in_department dept uid (u ∷ us) =
    (text_eq u.id uid && elim u.department_id [ none ↦ false | some d ↦ text_eq d dept ])
    || in_department dept uid us

unfoldable pub grant_hits : Env → Text → AppGrant → Bool
grant_hits env uid g =
    (text_eq g.principal_type (str "user") && text_eq g.principal_id uid)
    || (text_eq g.principal_type (str "group") && is_member g.principal_id uid env.group_members)
    || (text_eq g.principal_type (str "org") && in_department g.principal_id uid env.users)

unfoldable pub any_grant : Env → Text → Text → List AppGrant → Bool
any_grant env client_id uid [] = false
any_grant env client_id uid (g ∷ gs) =
    (text_eq g.client_id client_id && grant_hits env uid g) || any_grant env client_id uid gs

unfoldable pub user_allowed : Env → Text → Text → Bool
user_allowed env client_id uid = any_grant env client_id uid env.app_grants

-- repository.GrantRepository.Has and Grant; a consent is looked up by user and client
unfoldable pub has_consent : Text → Text → Text → List AuthorizationGrant → Bool
has_consent user_id client_id scope [] = false
has_consent user_id client_id scope (g ∷ gs) =
    (text_eq g.user_id user_id && text_eq g.client_id client_id)
    || has_consent user_id client_id scope gs

unfoldable pub record_consent :
    Text → Text → Text → List AuthorizationGrant → List AuthorizationGrant
record_consent user_id client_id scope [] =
    record { user_id = user_id; client_id = client_id; scope = scope } ∷ []
record_consent user_id client_id scope (g ∷ gs) =
    let rest = record_consent user_id client_id scope gs in
    if text_eq g.user_id user_id && text_eq g.client_id client_id
    then record g { scope = scope } ∷ gs
    else g ∷ rest

module _ {S : Type 0} (o : StoreOps S) where
  -- currentSessionFromCookie
  unfoldable pub session_from_cookie : ℕ → Request → World S → Option SessionData
  session_from_cookie now r w = elim r.session_cookie [
    | none ↦ none
    | some sid ↦ get_session o now sid w.kv
  ]

  -- The user whom a token's claims name: `uid`, or the subject of an old token.
  unfoldable pub user_of_claims : Env → AccessTokenClaims → Option User
  user_of_claims env c = elim (env.parse_uuid (text_or c.uid c.registered.subject)) [
    | none ↦ none
    | some uid ↦ get_by_id uid env.users
  ]

  unfoldable pub new_session :
      Env → ℕ → Fresh → Request → User → World S → Option SessionData × World S
  new_session env now fresh r u w =
      elim (create o env.session_ttl now fresh.session_id u.id u.username (session_display_name u)
        r.client_ip r.user_agent u.is_staff w.index w.kv) [
          | none ↦ (none, w)
          | some (d, index, kv) ↦ (some d, record w { kv = kv; index = index })
        ]

  -- recoverSessionFromAccessToken
  unfoldable pub recover_session :
      Env → ℕ → Fresh → Request → World S → Option SessionData × World S
  recover_session env now fresh r w =
      let token = text_of r.token_cookie in
      if is_empty token then (none, w) else elim (validate_access_token o env.jwt now token w.kv) [
        | none ↦ (none, w)
        | some c ↦ elim (user_of_claims env c) [
          | none ↦ (none, w)
          | some u ↦ new_session env now fresh r u w
        ]
      ]

  -- currentSession
  unfoldable pub current_session :
      Env → ℕ → Fresh → Request → World S → Option SessionData × World S
  current_session env now fresh r w = elim (session_from_cookie now r w) [
    | some d ↦ (some d, w)
    | none ↦ recover_session env now fresh r w
  ]
