-- ===== src/Tests/Tokens.antt =====
-- Tokens and redirect URIs at concrete values.
use one_auth.Base.{ℕ, ◌+◌, ◌≡◌, refl, none, some, [], ◌∷◌, ◌++◌, Text, str, pos, ℤ, arith}
use one_auth.Model.Client.Redirect.{listed}
use one_auth.Store.Memory.{MemoryStore, new_memory_store}
use one_auth.Store.Memory.Laws.{memory_ops, memory_ops-IsStore}
use one_auth.Oauth.Jwt.{AccessTokenClaims, IdTokenClaims, JwtOps, identity, as_access, rs256}
use one_auth.Oauth.Token.{
  UserInfo, IdTokenOptions, access_claims, id_claims, issue_access_token, issue_id_token,
  validate_access_token, revoke_jti, is_revoked, pick_rs_alg,
}
use one_auth.Oauth.Token.Blacklist.{revocation_final, revocation_lapses}
use one_auth.Oauth.Token.Identity.{validate-issue_id_token}
use one_auth.Tests.Data.{
  service, known_jwt, known_jwt-IsJwt, sign_known-access, sign_known-identity,
}

-- 100 seconds after the epoch
abbrev pub noon : ℕ
noon = 100_000_000_000

abbrev pub claims_for : ℤ → AccessTokenClaims
claims_for ttl =
    access_claims service noon (str "j1") (str "a1") (str "a1") (str "portal") (str "alice")
      (str "openid") ttl

abbrev pub info : UserInfo
info = record {
  username = str "alice";
  name = str "alice";
  email = str "alice@example.com";
  phone = [];
  roles = [];
  groups = [];
  is_staff = one_auth.Base.false;
}

abbrev pub options : IdTokenOptions
options = record { issuer = []; audience = []; signing_alg = []; allow_claims = str "email" ∷ [] }

abbrev pub identity_claims : IdTokenClaims
identity_claims =
    id_claims service noon (str "j2") (str "a1") (str "a1") (str "portal") [] 100 info
      (pos 3_600_000_000_000) options

abbrev pub jwt_for : ℤ → JwtOps
jwt_for ttl = known_jwt (claims_for ttl) identity_claims

-- The lifetime of an hour is the server's own.
abbrev hour : ℤ
hour = pos 3_600_000_000_000

abbrev two_hours : ℤ
two_hours = pos 7_200_000_000_000

issued_for :
    (ttl : ℤ)
    → issue_access_token
        (jwt_for ttl)
        service
        noon
        (str "j1")
        (str "a1")
        (str "a1")
        (str "portal")
        (str "alice")
        (str "openid")
        ttl
      ≡ some (1 ∷ [])
unfolding issue_access_token
issued_for ttl = sign_known-access (claims_for ttl) identity_claims rs256

-- One hour and a second after noon plus ten minutes
revocation_final_example :
    validate_access_token memory_ops
      (jwt_for hour)
      (noon + 5)
      (1 ∷ [])
      (revoke_jti memory_ops service (noon + 2) (str "j1") new_memory_store)
    ≡ none
revocation_final_example =
    revocation_final memory_ops memory_ops-IsStore (jwt_for hour)
      (known_jwt-IsJwt (claims_for hour) identity_claims) service noon (noon + 2) (noon + 5)
      (str "j1") (str "a1") (str "a1") (str "portal") (str "alice") (str "openid") hour (1 ∷ [])
      new_memory_store _ (issued_for hour) (λ e. cc) refl refl (omega arith) (omega arith)
      (omega arith)

-- A token for two hours, revoked at once, is good again after 4000 seconds.
revocation_lapses_example :
    validate_access_token memory_ops
      (jwt_for two_hours)
      4_100_000_000_000
      (1 ∷ [])
      (revoke_jti memory_ops service noon (str "j1") new_memory_store)
    ≡ some (claims_for two_hours)
revocation_lapses_example =
    revocation_lapses memory_ops memory_ops-IsStore (jwt_for two_hours)
      (known_jwt-IsJwt (claims_for two_hours) identity_claims) service noon noon 4_100_000_000_000
      (str "j1") (str "a1") (str "a1") (str "portal") (str "alice") (str "openid") two_hours
      (1 ∷ []) new_memory_store _ (issued_for two_hours) (λ e. cc) refl refl (omega arith)
      (omega arith) (omega arith) (omega arith)

issued_identity :
    issue_id_token
      (jwt_for hour)
      service
      noon
      (str "j2")
      (str "a1")
      (str "a1")
      (str "portal")
      []
      100
      info
      hour
      options
    ≡ some (2 ∷ [])
unfolding issue_id_token
issued_identity = sign_known-identity (claims_for hour) identity_claims (pick_rs_alg [])

nothing_revoked : is_revoked memory_ops noon (str "j2") new_memory_store ≡ one_auth.Base.false
unfolding is_revoked one_auth.Store.Memory.get one_auth.Store.Memory.find
nothing_revoked = refl

validate-issue_id_token_example :
    validate_access_token memory_ops (jwt_for hour) noon (2 ∷ []) new_memory_store
    ≡ some (as_access (identity identity_claims))
validate-issue_id_token_example =
    (validate-issue_id_token memory_ops (jwt_for hour)
      (known_jwt-IsJwt (claims_for hour) identity_claims) service noon noon (str "j2") (str "a1")
      (str "a1") (str "portal") [] 100 info hour options (2 ∷ []) new_memory_store issued_identity
      (omega arith) nothing_revoked).0

-- The portal's list has the email and not the name.
name_withheld : identity_claims.name ≡ []
unfolding id_claims one_auth.Oauth.Token.pick one_auth.Oauth.Token.listed one_auth.Base.text_eq
name_withheld = refl
