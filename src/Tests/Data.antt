-- ===== src/Tests/Data.antt =====
-- A user, a client, a configuration and a JWT library that knows two tokens.
use mathlib.Core.Logic.{if_pos, if_neg}
use one_auth.Base.{
  ℕ, ◌≡◌, ◌≢◌, refl, sym, Bool, true, false, Option, none, some, [], ◌∷◌, Text, str, text_eq, pos,
  if◌then◌else◌, arith, ℕ_discrete,
}
use mathlib.Core.Logic.{ite}
use one_auth.Model.User.{User}
use one_auth.Model.Client.{OAuth2Client}
use one_auth.Oauth.Jwt.{
  Registered, AccessTokenClaims, IdTokenClaims, Claims, access, identity, Method, as_access,
  in_force, JwtOps, IsJwt,
}
use one_auth.Oauth.Token.{TokenService}

Claims-discrete : Discrete Claims
Claims-discrete = hlevel ℕ_discrete

module _ (a : AccessTokenClaims) (i : IdTokenClaims) where
  abbrev pub read_back : ℕ → Registered → AccessTokenClaims → Option AccessTokenClaims
  read_back now r c = if in_force now r then some c else none

  pub sign_known : Method → Claims → Option Text
  sign_known m c =
      ite (Claims-discrete c (access a)) (some (1 ∷ []))
        (ite (Claims-discrete c (identity i)) (some (2 ∷ [])) none)

  pub parse_known : (Method → Bool) → ℕ → Text → Option AccessTokenClaims
  parse_known accepts now token =
      if text_eq token (1 ∷ [])
      then read_back now a.registered a
      else if text_eq token (2 ∷ [])
      then read_back now i.registered (as_access (identity i))
      else none

  abbrev pub known_jwt : JwtOps
  known_jwt = record { sign = sign_known; parse = parse_known }

  pub sign_known-access : (m : Method) → sign_known m (access a) ≡ some (1 ∷ [])
  unfolding sign_known
  sign_known-access m = rw (if_pos (Claims-discrete (access a) (access a)) refl)

  access-ne-identity : access a ≢ identity i
  access-ne-identity e = cc

  pub sign_known-identity : (m : Method) → sign_known m (identity i) ≡ some (2 ∷ [])
  unfolding sign_known
  sign_known-identity m = rw (
    if_neg (Claims-discrete (identity i) (access a)) (λ e. access-ne-identity (sym e)),
    if_pos (Claims-discrete (identity i) (identity i)) refl,
  )

  sign_known-cases :
      (accepts : Method → Bool) (now : ℕ) (m : Method) (c : Claims) (token : Text)
      → sign_known m c ≡ some token
      → parse_known accepts now token ≡ read_back now (as_access c).registered (as_access c)
  unfolding sign_known parse_known text_eq
  sign_known-cases accepts now m c token h = elim (Claims-discrete c (access a)) [
    | yes e ↦ ground arith
    | no n ↦ elim (Claims-discrete c (identity i)) [
      | yes e ↦ ground arith
      | no n' ↦ absurd (ground arith)
    ]
  ]

  known_jwt-parse_in_force :
      (accepts : Method → Bool) (now : ℕ) (token : Text) (c : AccessTokenClaims)
      → parse_known accepts now token ≡ some c
      → in_force now c.registered ≡ true
  unfolding parse_known
  known_jwt-parse_in_force accepts now token c h = ground arith

  pub known_jwt-IsJwt : IsJwt known_jwt
  known_jwt-IsJwt = record {
    parse-sign = λ accepts now m c token h _. sign_known-cases accepts now m c token h;
    parse_in_force = known_jwt-parse_in_force;
  }

-- A first-party client that wants PKCE from a public client, for access lifetimes of two hours.
abbrev pub alice : User
alice = record {
  id = str "a1";
  username = str "alice";
  nickname = [];
  email = some (str "alice@example.com");
  phone = none;
  password_hash = str "hash";
  avatar = [];
  employee_no = [];
  position = [];
  domain_account = [];
  user_source = str "local";
  profile_manually_edited = false;
  hire_status = str "active";
  is_active = true;
  is_staff = false;
  is_locked = false;
  lock_until = none;
  lock_reason = [];
  last_login = none;
  department_id = none;
  department = none;
  roles = [];
  groups = [];
}

abbrev pub portal : OAuth2Client
portal = record {
  client_id = str "portal";
  client_secret_hash = [];
  client_name = str "Portal";
  client_type = str "public";
  protocol = str "oidc";
  is_active = true;
  is_builtin = false;
  access_policy = str "all";
  allow_sp_initiated = true;
  redirect_uris = str "https://p/cb/" ∷ [];
  subject_type = str "user_id";
  require_pkce = true;
  require_consent = false;
  access_token_ttl = pos 7200;
  refresh_token_ttl = pos 0;
  id_token_ttl = pos 3600;
  issue_refresh_token = false;
  oidc_issuer = [];
  oidc_audience = [];
  oidc_id_token_signing_alg = [];
  oidc_userinfo_response = [];
  oidc_claims = str "email" ∷ [];
  cas_service = [];
  cas_callback_url = [];
  cas_user_attribute = [];
  cas_expires_seconds = pos 300;
  cas_return_attributes = true;
}

abbrev pub service : TokenService
service = record {
  issuer = str "https://sso";
  access_ttl = pos 3_600_000_000_000;
  refresh_ttl = pos 604_800_000_000_000;
}
