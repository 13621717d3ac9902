-- ===== src/Oauth/Token.antt =====
-- internal/oauth/token.go: TokenService.
pub mod Refresh
pub mod Revocation
pub mod Blacklist
pub mod Identity
use one_auth.Base.{
  ℕ, ◌++◌, Bool, true, false, not, Option, none, some, List, [], ◌∷◌, Text, str, text_eq, is_empty,
  ℤ, is_positive, add_duration, unix, if◌then◌else◌,
}
use one_auth.Model.Payload.{RefreshTokenData, refresh, number, as_refresh}
use one_auth.Store.{StoreOps}
use one_auth.Oauth.Jwt.{
  JwtOps, AccessTokenClaims, IdTokenClaims, access, identity, Method, rs256, rs384, rs512, hs256,
}

-- TokenService: the store and the keys are arguments; `issuer` is what Issuer() returns.
pub record TokenService : Type 0 where
  pub issuer : Text
  pub access_ttl : ℤ
  pub refresh_ttl : ℤ

pub record UserInfo : Type 0 where
  pub username : Text
  pub name : Text
  pub email : Text
  pub phone : Text
  pub roles : List Text
  pub groups : List Text
  pub is_staff : Bool

pub record IdTokenOptions : Type 0 where
  pub issuer : Text
  pub audience : Text
  pub signing_alg : Text
  pub allow_claims : List Text

abbrev pub revoked_key : Text → Text
revoked_key jti = str "revoked:jti:" ++ jti

abbrev pub refresh_key : Text → Text
refresh_key token = str "refresh:" ++ token

-- if ttl <= 0 { ttl = default }
abbrev pub positive_or : ℤ → ℤ → ℤ
positive_or ttl default = if is_positive ttl then ttl else default

-- if s == "" { s = default }
abbrev pub text_or : Text → Text → Text
text_or s default = if is_empty s then default else s

unfoldable pub pick_rs_alg : Text → Method
pick_rs_alg alg =
    if text_eq alg (str "RS384") then rs384 else if text_eq alg (str "RS512") then rs512 else rs256

-- allow[c]
unfoldable pub listed : Text → List Text → Bool
listed key [] = false
listed key (c ∷ cs) = let rest = listed key cs in if text_eq c key then true else rest

-- allow == nil || allow[key], where the set is nil exactly for no listed claim
unfoldable pub pick : List Text → Text → Bool
pick [] key = true
pick (c ∷ cs) key = listed key (c ∷ cs)

-- The claims of IssueAccessToken; `jti` is the fresh UUID.
unfoldable pub access_claims :
    TokenService → ℕ → Text → Text → Text → Text → Text → Text → ℤ → AccessTokenClaims
access_claims ts now jti subject user_id client_id username scope ttl = record {
  registered = record {
    issuer = ts.issuer;
    subject = text_or subject user_id;
    audience = client_id;
    expires_at = some (unix (add_duration now (positive_or ttl ts.access_ttl)));
    issued_at = some (unix now);
    not_before = some (unix now);
    jti = jti;
  };
  scope = scope;
  client_id = client_id;
  username = username;
  uid = user_id;
  typ = str "access";
}

-- `if pick(key) { claims.X = info.X }` on a zero value
abbrev pub filtered {ℓ} : {A : Type ℓ} → Bool → A → A → A
filtered b zero_value value = if b then value else zero_value

abbrev pub no_info : UserInfo
no_info = record {
  username = [];
  name = [];
  email = [];
  phone = [];
  roles = [];
  groups = [];
  is_staff = false;
}

-- The claims of IssueIDToken, for options and an info that are not nil.
unfoldable pub id_claims :
    TokenService
    → ℕ
    → Text
    → Text
    → Text
    → Text
    → Text
    → ℕ
    → UserInfo
    → ℤ
    → IdTokenOptions
    → IdTokenClaims
id_claims ts now jti subject user_id client_id nonce auth_time info ttl opt = record {
  registered = record {
    issuer = text_or opt.issuer ts.issuer;
    subject = text_or subject user_id;
    audience = text_or opt.audience client_id;
    expires_at = some (unix (add_duration now (positive_or ttl ts.access_ttl)));
    issued_at = some (unix now);
    not_before = none;
    jti = jti;
  };
  nonce = nonce;
  auth_time = auth_time;
  acr = str "0";
  amr = str "pwd" ∷ [];
  preferred_username = filtered (pick opt.allow_claims (str "preferred_username")) [] info.username;
  name = filtered (pick opt.allow_claims (str "name")) [] info.name;
  email = filtered (pick opt.allow_claims (str "email")) [] info.email;
  phone = filtered (pick opt.allow_claims (str "phone")) [] info.phone;
  roles = filtered (pick opt.allow_claims (str "roles")) [] info.roles;
  groups = filtered (pick opt.allow_claims (str "groups")) [] info.groups;
  is_staff = filtered (pick opt.allow_claims (str "is_staff")) false info.is_staff;
}

-- `t.Method.(*jwt.SigningMethodRSA)`
abbrev pub accepts_rsa : Method → Bool
accepts_rsa rs256 = true
accepts_rsa rs384 = true
accepts_rsa rs512 = true
accepts_rsa hs256 = false

module _ (j : JwtOps) where
  unfoldable pub issue_access_token :
      TokenService → ℕ → Text → Text → Text → Text → Text → Text → ℤ → Option Text
  issue_access_token ts now jti subject user_id client_id username scope ttl =
      j.sign rs256 (access (access_claims ts now jti subject user_id client_id username scope ttl))

  unfoldable pub issue_id_token :
      TokenService
      → ℕ
      → Text
      → Text
      → Text
      → Text
      → Text
      → ℕ
      → UserInfo
      → ℤ
      → IdTokenOptions
      → Option Text
  issue_id_token ts now jti subject user_id client_id nonce auth_time info ttl opt =
      j.sign (pick_rs_alg opt.signing_alg)
        (identity (id_claims ts now jti subject user_id client_id nonce auth_time info ttl opt))

module _ {S : Type 0} (o : StoreOps S) where
  -- `token` is the fresh opaque token; the result is the new store, and an error is `none`.
  unfoldable pub save_refresh_token :
      TokenService → ℕ → Text → Text → Text → Text → ℤ → S → Option S
  save_refresh_token ts now token user_id client_id scope ttl s =
      o.set now (refresh_key token)
        (refresh
          (record { token = token; user_id = user_id; client_id = client_id; scope = scope }))
        (positive_or ttl ts.refresh_ttl) s

  unfoldable pub load_refresh_token : ℕ → Text → S → Option RefreshTokenData
  load_refresh_token now token s = elim (o.get now (refresh_key token) s) [
    | none ↦ none
    | some b ↦ as_refresh b
  ]

  unfoldable pub delete_refresh_token : Text → S → S
  delete_refresh_token token s = o.del (refresh_key token) s

  -- An error of Set is passed on, and dropped by every caller.
  unfoldable pub revoke_jti : TokenService → ℕ → Text → S → S
  revoke_jti ts now jti s = elim (o.set now (revoked_key jti) (number 1) ts.access_ttl s) [
    | none ↦ s
    | some t ↦ t
  ]

  -- A revoked jti is one that the store still holds.
  unfoldable pub is_revoked : ℕ → Text → S → Bool
  is_revoked now jti s = elim (o.get now (revoked_key jti) s) [
    | none ↦ false
    | some b ↦ not (is_empty jti)
  ]

  unfoldable pub validate_access_token : JwtOps → ℕ → Text → S → Option AccessTokenClaims
  validate_access_token j now token s = elim (j.parse accepts_rsa now token) [
    | none ↦ none
    | some c ↦ if is_revoked now c.registered.jti s then none else some c
  ]
