-- ===== src/Oauth/Token/Blacklist.antt =====
-- What RevokeJTI does to a token that the server issued. The blacklist entry lives for the server's
-- access lifetime, and the token for its own.
use one_auth.Base.{
  ℕ, ◌+◌, ◌≤◌, ◌<◌, ◌≡◌, ◌≢◌, inl, inr, true, none, some, [], Text, ℤ, is_positive, pos_part,
  add_duration-le, unix, arith, Bool-cases, ltb, ltb→ge,
}
use one_auth.Model.Payload.{number}
use one_auth.Store.{StoreOps, IsStore}
use one_auth.Oauth.Jwt.{JwtOps, IsJwt}
use one_auth.Oauth.Token.{
  TokenService, positive_or, revoked_key, access_claims, issue_access_token, revoke_jti,
  validate_access_token,
}
use one_auth.Oauth.Token.Revocation.{
  lifetime_end, validate-issue, validate-issue_late, is_revoked-revoke, is_revoked-revoke_late,
}

module _ {S : Type 0} (o : StoreOps S) (laws : IsStore o) (j : JwtOps) (jwt : IsJwt j)
    (ts : TokenService) (now at later : ℕ) (jti subject user_id client_id username scope : Text)
    (ttl : ℤ) (token : Text) (s t : S)
    (issued : issue_access_token j ts now jti subject user_id client_id username scope ttl
      ≡ some token)
    (named : jti ≢ []) (stored : o.set at (revoked_key jti) (number 1) ts.access_ttl s ≡ some t)
    (positive : is_positive ts.access_ttl ≡ true) (issued_before : now ≤ at)
    (revoked_before : at ≤ later) where
  -- A token issued for at most the server's access lifetime never validates again once its jti is
  -- revoked, at any later time.
  pub revocation_final :
      pos_part (positive_or ttl ts.access_ttl) ≤ pos_part ts.access_ttl
      → validate_access_token o j later token (revoke_jti o ts at jti s) ≡ none
  revocation_final short = elim (Bool-cases (ltb (unix later) (unix (lifetime_end ts now ttl)))) [
    | inr over ↦
        validate-issue_late o laws j jwt ts now later jti subject user_id client_id username scope
          ttl token issued (revoke_jti o ts at jti s) (ltb→ge _ _ over)
    | inl running ↦ ground (
      arith,
      validate-issue o laws j jwt ts now later jti subject user_id client_id username scope ttl
          token issued (revoke_jti o ts at jti s),
      is_revoked-revoke o laws j jwt ts at later jti s t named stored positive,
      add_duration-le now (positive_or ttl ts.access_ttl),
      running_before_end,
    )
  ]
    where
      running_before_end :
          unix later < unix (lifetime_end ts now ttl)
          → later ≤ now + pos_part (positive_or ttl ts.access_ttl)
      running_before_end h = omega (arith, add_duration-le now (positive_or ttl ts.access_ttl))

  -- A token issued for longer is accepted again, with all its claims, as soon as the blacklist entry
  -- has run out: at every time after that and before the token's own end.
  pub revocation_lapses :
      at + pos_part ts.access_ttl < later
      → unix later < unix (lifetime_end ts now ttl)
      → validate_access_token o j later token (revoke_jti o ts at jti s)
        ≡ some (access_claims ts now jti subject user_id client_id username scope ttl)
  revocation_lapses gone running = ground (
    arith,
    validate-issue o laws j jwt ts now later jti subject user_id client_id username scope ttl token
        issued (revoke_jti o ts at jti s),
    is_revoked-revoke_late o laws j jwt ts at later jti s t named stored positive gone,
  )
