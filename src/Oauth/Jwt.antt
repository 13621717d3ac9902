-- ===== src/Oauth/Jwt.antt =====
-- The JWT library (github.com/golang-jwt/jwt/v5) as an interface, and the claims that
-- internal/oauth/token.go signs with it. Times in claims are whole seconds.
use one_auth.Base.{
  ℕ, ◌≡◌, Bool, true, ◌&&◌, Option, none, some, List, [], Text, unix, ltb, leb, if◌then◌else◌,
}

-- The claims of jwt.RegisteredClaims; an absent one is `none`, or the empty text.
pub record Registered : Type 0 where
  pub issuer : Text
  pub subject : Text
  pub audience : Text
  pub expires_at : Option ℕ
  pub issued_at : Option ℕ
  pub not_before : Option ℕ
  pub jti : Text

pub record AccessTokenClaims : Type 0 where
  pub registered : Registered
  pub scope : Text
  pub client_id : Text
  pub username : Text
  pub uid : Text
  pub typ : Text

pub record IdTokenClaims : Type 0 where
  pub registered : Registered
  pub nonce : Text
  pub auth_time : ℕ
  pub acr : Text
  pub amr : List Text
  pub preferred_username : Text
  pub name : Text
  pub email : Text
  pub phone : Text
  pub roles : List Text
  pub groups : List Text
  pub is_staff : Bool

-- A value of a claims map.
pub data Json : Type 0 where
  text : Text → Json
  flag : Bool → Json
  texts : List Text → Json

pub data Claims : Type 0 where
  access : AccessTokenClaims → Claims
  identity : IdTokenClaims → Claims
  -- jwt.MapClaims: the registered claims, `sub` among them, and the others
  mapped : Registered → List (Text × Json) → Claims

-- The signing methods: those that the program signs with, and the HMAC family that the library
-- knows too.
pub data Method : Type 0 where
  rs256 rs384 rs512 hs256 : Method

-- The payload decoded into an AccessTokenClaims: fields go by their JSON names, and neither an ID
-- token nor a user info token has any of `scope`, `client_id`, `username`, `uid` and `typ`.
abbrev pub as_access : Claims → AccessTokenClaims
as_access (access c) = c
as_access (identity c) = record {
  registered = c.registered;
  scope = [];
  client_id = [];
  username = [];
  uid = [];
  typ = [];
}
as_access (mapped r m) = record {
  registered = r;
  scope = [];
  client_id = [];
  username = [];
  uid = [];
  typ = [];
}

-- The library's time checks: `exp` lies ahead, `nbf` does not.
abbrev pub before_expiry : ℕ → Option ℕ → Bool
before_expiry now none = true
before_expiry now (some exp) = ltb (unix now) exp

abbrev pub after_start : ℕ → Option ℕ → Bool
after_start now none = true
after_start now (some nbf) = leb nbf (unix now)

unfoldable pub in_force : ℕ → Registered → Bool
in_force now r = before_expiry now r.expires_at && after_start now r.not_before

-- SignedString with the server's key, and ParseWithClaims into an AccessTokenClaims with that key
-- wherever the key function accepts the token's method.
pub record JwtOps : Type 0 where
  pub sign : Method → Claims → Option Text
  pub parse : (Method → Bool) → ℕ → Text → Option AccessTokenClaims

-- A token that the server signed parses to its claims while it is in force, and not otherwise.
pub record IsJwt (j : JwtOps) : Type 0 where
  pub parse-sign :
      (accepts : Method → Bool) (now : ℕ) (m : Method) (c : Claims) (token : Text)
      → j.sign m c ≡ some token
      → accepts m ≡ true
      → j.parse accepts now token
        ≡ (if in_force now (as_access c).registered then some (as_access c) else none)
  pub parse_in_force :
      (accepts : Method → Bool) (now : ℕ) (token : Text) (c : AccessTokenClaims)
      → j.parse accepts now token ≡ some c
      → in_force now c.registered ≡ true
