-- ===== src/Oauth/Token/Identity.antt =====
-- ID tokens: the claims that a client is given, and what the access token check makes of them.
use one_auth.Base.{
  ℕ, ◌<◌, ◌≡◌, refl, ◌≢◌, inl, inr, true, false, some, List, [], ◌∷◌, Text, str, ℤ, unix, arith,
  if◌then◌else◌, Bool-cases,
}
use one_auth.Store.{StoreOps}
use one_auth.Oauth.Jwt.{JwtOps, IsJwt, identity, as_access, in_force}
use one_auth.Oauth.Token.{
  TokenService, UserInfo, IdTokenOptions, id_claims, pick, listed, pick_rs_alg, accepts_rsa,
  text_or, issue_id_token, is_revoked, validate_access_token,
}
use one_auth.Oauth.Token.Revocation.{lifetime_end}

-- The claim is on the client's list, where it has one.
abbrev pub Permitted : List Text → Text → Type 0
Permitted [] key = Unit {0}
Permitted (c ∷ cs) key = listed key (c ∷ cs) ≡ true

pick-Permitted : (allow : List Text) (key : Text) → pick allow key ≡ true → Permitted allow key
unfolding pick
pick-Permitted [] key h = tt
pick-Permitted (c ∷ cs) key h = h

filtered-Permitted {ℓ} :
    {A : Type ℓ} (allow : List Text) (key : Text) (zero_value value : A)
    → (if pick allow key then value else zero_value) ≢ zero_value
    → Permitted allow key
filtered-Permitted allow key z v h = elim (Bool-cases (pick allow key)) [
  | inl e ↦ pick-Permitted allow key e
  | inr e ↦ absurd (h (rw e))
]

-- An ID token carries a claim about the user only where the client's list allows it, and the list
-- that is empty allows all.
pub id_claims-Permitted :
    (ts : TokenService) (now : ℕ) (jti subject user_id client_id nonce : Text) (auth_time : ℕ)
    (info : UserInfo) (ttl : ℤ) (opt : IdTokenOptions)
    → let c = id_claims ts now jti subject user_id client_id nonce auth_time info ttl opt in
      (c.preferred_username ≢ [] → Permitted opt.allow_claims (str "preferred_username"))
      × (c.name ≢ [] → Permitted opt.allow_claims (str "name"))
      × (c.email ≢ [] → Permitted opt.allow_claims (str "email"))
      × (c.phone ≢ [] → Permitted opt.allow_claims (str "phone"))
      × (c.roles ≢ [] → Permitted opt.allow_claims (str "roles"))
      × (c.groups ≢ [] → Permitted opt.allow_claims (str "groups"))
      × (c.is_staff ≢ false → Permitted opt.allow_claims (str "is_staff"))
unfolding id_claims
id_claims-Permitted ts now jti subject user_id client_id nonce auth_time info ttl opt =
    let allow = opt.allow_claims in
    (
      filtered-Permitted allow (str "preferred_username") [] info.username,
      filtered-Permitted allow (str "name") [] info.name,
      filtered-Permitted allow (str "email") [] info.email,
      filtered-Permitted allow (str "phone") [] info.phone,
      filtered-Permitted allow (str "roles") [] info.roles,
      filtered-Permitted allow (str "groups") [] info.groups,
      filtered-Permitted allow (str "is_staff") false info.is_staff,
    )

module _ {S : Type 0} (o : StoreOps S) (j : JwtOps) (jwt : IsJwt j) (ts : TokenService)
    (now later : ℕ) (jti subject user_id client_id nonce : Text) (auth_time : ℕ) (info : UserInfo)
    (ttl : ℤ) (opt : IdTokenOptions) (token : Text) (s : S)
    (issued : issue_id_token j ts now jti subject user_id client_id nonce auth_time info ttl opt
      ≡ some token) where
  accepts-pick_rs_alg : (alg : Text) → accepts_rsa (pick_rs_alg alg) ≡ true
  unfolding pick_rs_alg
  accepts-pick_rs_alg alg = ground arith

  -- The access token check accepts an ID token whose id is not revoked, until the ID token expires:
  -- it looks at the signature and the times, and not at the claim `typ`. The claims that it returns have no `uid`,
  -- so the subject stands for the user, and no `typ`.
  pub validate-issue_id_token :
      unix later < unix (lifetime_end ts now ttl)
      → is_revoked o later jti s ≡ false
      → let c = as_access (
          identity (id_claims ts now jti subject user_id client_id nonce auth_time info ttl opt)) in
        (validate_access_token o j later token s ≡ some c)
        × (c.registered.subject ≡ text_or subject user_id)
        × (c.uid ≡ [])
        × (c.typ ≡ [])
  unfolding validate_access_token issue_id_token id_claims in_force
  validate-issue_id_token running kept = (
    ground (
      arith,
      jwt.parse-sign accepts_rsa later (pick_rs_alg opt.signing_alg)
          (identity (id_claims ts now jti subject user_id client_id nonce auth_time info ttl opt))
          token issued (accepts-pick_rs_alg opt.signing_alg),
    ),
    refl,
    refl,
    refl,
  )
