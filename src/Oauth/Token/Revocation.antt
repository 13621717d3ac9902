-- ===== src/Oauth/Token/Revocation.antt =====
-- Access tokens: what validates, and how far a revocation reaches.
use one_auth.Base.{
  ℕ, ◌+◌, ◌≤◌, ◌<◌, ◌≡◌, refl, ◌≢◌, true, false, none, some, [], ◌∷◌, Text, is_empty, ℤ,
  is_positive, pos_part, add_duration, unix, arith, if◌then◌else◌,
}
use one_auth.Model.Payload.{number}
use one_auth.Store.{StoreOps, IsStore}
use one_auth.Oauth.Jwt.{JwtOps, IsJwt, access, rs256, in_force}
use one_auth.Oauth.Token.{
  TokenService, positive_or, revoked_key, access_claims, accepts_rsa, issue_access_token,
  revoke_jti, is_revoked, validate_access_token,
}

abbrev pub lifetime_end : TokenService → ℕ → ℤ → ℕ
lifetime_end ts now ttl = add_duration now (positive_or ttl ts.access_ttl)

is_empty-ne : (s : Text) → s ≢ [] → is_empty s ≡ false
unfolding is_empty
is_empty-ne [] h = absurd (h refl)
is_empty-ne (c ∷ s) h = refl

module _ {S : Type 0} (o : StoreOps S) (laws : IsStore o) (j : JwtOps) (jwt : IsJwt j) where
  module _ (ts : TokenService) (now later : ℕ) (jti subject user_id client_id username scope : Text)
      (ttl : ℤ) (token : Text)
      (issued : issue_access_token j ts now jti subject user_id client_id username scope ttl
        ≡ some token) where
    -- An issued token validates to its claims from its issue to its end, unless it is revoked.
    pub validate-issue :
        (s : S)
        → now ≤ later
        → unix later < unix (lifetime_end ts now ttl)
        → validate_access_token o j later token s ≡ (
            if is_revoked o later jti s
            then none
            else some (access_claims ts now jti subject user_id client_id username scope ttl))
    unfolding validate_access_token issue_access_token access_claims in_force
    validate-issue s h k = ground (
      arith,
      jwt.parse-sign accepts_rsa later rs256
          (access (access_claims ts now jti subject user_id client_id username scope ttl)) token
          issued,
    )

    pub validate-issue_late :
        (s : S)
        → unix (lifetime_end ts now ttl) ≤ unix later
        → validate_access_token o j later token s ≡ none
    unfolding validate_access_token issue_access_token access_claims in_force
    validate-issue_late s k = ground (
      arith,
      jwt.parse-sign accepts_rsa later rs256
          (access (access_claims ts now jti subject user_id client_id username scope ttl)) token
          issued,
    )

  module _ (ts : TokenService) (at later : ℕ) (jti : Text) (s t : S) (named : jti ≢ [])
      (stored : o.set at (revoked_key jti) (number 1) ts.access_ttl s ≡ some t)
      (positive : is_positive ts.access_ttl ≡ true) where
    pub is_revoked-revoke :
        later ≤ at + pos_part ts.access_ttl
        → is_revoked o later jti (revoke_jti o ts at jti s) ≡ true
    unfolding is_revoked revoke_jti
    is_revoked-revoke h = ground (
      arith,
      laws.get-set_live at later (revoked_key jti) (number 1) ts.access_ttl s t stored positive h,
      is_empty-ne jti named,
    )

    pub is_revoked-revoke_late :
        at + pos_part ts.access_ttl < later
        → is_revoked o later jti (revoke_jti o ts at jti s) ≡ false
    unfolding is_revoked revoke_jti
    is_revoked-revoke_late h = ground (
      arith,
      laws.get-set_expired at later (revoked_key jti) (number 1) ts.access_ttl s t stored positive
          h,
    )
