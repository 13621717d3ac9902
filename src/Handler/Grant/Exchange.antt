-- ===== src/Handler/Grant/Exchange.antt =====
-- The exchange of an authorization code.
use one_auth.Base.{
  ℕ, ◌≡◌, ◌≢◌, inl, inr, sym, ap, ◌∙◌, subst, true, none, some, [], Text, str, text_eq_iff,
  is_empty, ℤ, seconds, next, reply, arith, Option-cases, Flow-cases, ne_of_first_byte,
}
use one_auth.Model.Payload.{AuthCodeData, as_auth_code}
use one_auth.Model.User.{User, get_by_id}
use one_auth.Model.Client.{OAuth2Client, normalize_redirect_uri}
use one_auth.Store.{StoreOps, IsStore}
use one_auth.Oauth.Code.{
  code_key, CodeError, Fetched-cases, fetched, refused, not_found, fetch, delete,
}
use one_auth.Oauth.Code.Laws.{fetch-missing}
use one_auth.Oauth.Token.{positive_or, refresh_key, save_refresh_token}
use one_auth.Handler.Env.{Env, World, Fresh, Request, query, parse_or_nil, verify_pkce}
use one_auth.Handler.Grant.{
  TokenReply, TokenResponse, tokens, bad_code, verify_exchange, log_access, access_for, id_for,
  finish_code, issue_for_code, redeem, auth_code_grant,
}

-- The proof key: nothing to prove, or the verifier's hash under S256.
abbrev pub Proved : Env → Request → AuthCodeData → Type 0
Proved env r d =
    d.code_challenge ≢ []
    → (d.code_challenge_method ≡ str "S256")
      × (env.s256 (query r (str "code_verifier")) ≡ d.code_challenge)

verify_pkce-S256 :
    (env : Env) (verifier challenge method : Text)
    → verify_pkce env verifier challenge method ≡ true
    → (method ≡ str "S256") × (env.s256 verifier ≡ challenge)
unfolding verify_pkce
verify_pkce-S256 env verifier challenge method h =
    ground (arith, text_eq_iff method (str "S256"), text_eq_iff (env.s256 verifier) challenge)

verify_exchange-next :
    (env : Env) (r : Request) (d : AuthCodeData) (u : User)
    → verify_exchange env r d ≡ next u
    → (d.redirect_uri ≡ normalize_redirect_uri (query r (str "redirect_uri")))
      × Proved env r d
      × (get_by_id (parse_or_nil env d.user_id) env.users ≡ some u)
unfolding verify_exchange is_empty
verify_exchange-next env r d u h = (
  ground
      (arith, text_eq_iff d.redirect_uri (normalize_redirect_uri (query r (str "redirect_uri")))),
  λ k. ground (
    arith,
    verify_pkce-S256 env (query r (str "code_verifier")) d.code_challenge d.code_challenge_method,
  ),
  ground arith,
)

fetched-client :
    {S : Type 0} (o : StoreOps S) (now : ℕ) (code client_id : Text) (s : S) (d : AuthCodeData)
    → fetch o now code client_id s ≡ fetched d
    → d.client_id ≡ client_id
unfolding fetch
fetched-client o now code client_id s d h = elim (Option-cases (o.get now (code_key code) s)) [
  | inl n ↦ absurd (ground arith)
  | inr (b, e) ↦ elim (Option-cases (as_auth_code b)) [
    | inl n ↦ absurd (ground arith)
    | inr (x, f) ↦ ground (arith, text_eq_iff x.client_id client_id)
  ]
]

code_key-ne-refresh_key : (a b : Text) → code_key a ≢ refresh_key b
code_key-ne-refresh_key a b = ne_of_first_byte (code_key a) (refresh_key b) (omega arith)

-- All that holds when a code is exchanged for tokens.
pub record Exchanged {S : Type 0} (o : StoreOps S) (env : Env) (now : ℕ) (fresh : Fresh)
    (r : Request) (c : OAuth2Client) (w : World S) (resp : TokenResponse) : Type 0 where
  pub d : AuthCodeData
  pub u : User
  pub stored : fetch o now (query r (str "code")) c.client_id w.kv ≡ fetched d
  pub client : d.client_id ≡ c.client_id
  pub uri : d.redirect_uri ≡ normalize_redirect_uri (query r (str "redirect_uri"))
  pub proved : Proved env r d
  pub user : get_by_id (parse_or_nil env d.user_id) env.users ≡ some u
  pub access : access_for env now fresh c u d.user_id d.scope ≡ some resp.access_token
  pub identity : resp.id_token ≡ id_for env now fresh c u d.user_id d.scope d.nonce d.auth_time
  pub scope : resp.scope ≡ d.scope

module _ {S : Type 0} (o : StoreOps S) (env : Env) (now : ℕ) (fresh : Fresh) (r : Request)
    (c : OAuth2Client) where
  replies-not-tokens :
      (d : AuthCodeData) (a : TokenReply)
      → verify_exchange env r d ≡ reply a
      → (resp : TokenResponse) → a ≢ tokens resp
  unfolding verify_exchange
  replies-not-tokens d a v resp e = ground arith

  finish_code-tokens :
      (d : AuthCodeData) (u : User) (access : Text) (w : World S) (resp : TokenResponse)
      → (finish_code o env now fresh c d u access w).0 ≡ tokens resp
      → (resp.access_token ≡ access)
        × (resp.id_token ≡ id_for env now fresh c u d.user_id d.scope d.nonce d.auth_time)
        × (resp.scope ≡ d.scope)
  unfolding finish_code
  finish_code-tokens d u access w resp h = ground arith

  -- Tokens are given only for a code that the store still holds and that was issued to this client,
  -- with the redirect URI of the code, the proof of its PKCE challenge, and an existing user; the
  -- tokens are that user's, with the scope of the code.
  pub auth_code_grant-Exchanged :
      (w : World S) (resp : TokenResponse)
      → (auth_code_grant o env now fresh r c w).0 ≡ tokens resp
      → Exchanged o env now fresh r c w resp
  unfolding auth_code_grant redeem issue_for_code
  auth_code_grant-Exchanged w resp h = elim (Fetched-cases (fetch o now code c.client_id w.kv)) [
    | inl (e, f) ↦ absurd (ground arith)
    | inr (d, f) ↦ elim (Flow-cases (verify_exchange env r d)) [
      | inl (a, v) ↦ absurd (ground (arith, replies-not-tokens d a v resp))
      | inr (u, v) ↦ elim (Option-cases (access_for env now fresh c u d.user_id d.scope)) [
        | inl n ↦ absurd (ground arith)
        | inr (t, i) ↦
            let w' : World S =
              log_access env r c d.user_id u (record w { kv = delete o code w.kv }) in
            let (got, id, scope) = finish_code-tokens d u t w' resp (ground arith) in
            let (uri, proved, user) = verify_exchange-next env r d u v in
            record {
              d = d;
              u = u;
              stored = f;
              client = fetched-client o now code c.client_id w.kv d f;
              uri = uri;
              proved = proved;
              user = user;
              access = i ∙ ap some (sym got);
              identity = id;
              scope = scope;
            }
      ]
    ]
  ]
    where
      code : Text
      code = query r (str "code")

  -- Only the refresh token is written after the code is deleted.
  finish_code-deleted :
      IsStore o
      → (d : AuthCodeData) (u : User) (access code : Text) (later : ℕ) (w : World S)
      → o.get later (code_key code) w.kv ≡ none
      → o.get later (code_key code) (finish_code o env now fresh c d u access w).1.kv ≡ none
  unfolding finish_code save_refresh_token
  finish_code-deleted laws d u access code later w h =
      let ttl : ℤ = seconds c.refresh_token_ttl in
      elim (Option-cases (
        save_refresh_token o env.ts now fresh.refresh_token d.user_id c.client_id d.scope ttl
          w.kv)) [
            | inl n ↦ ground arith
            | inr (t, e) ↦ ground (
              arith,
              laws.get-set_ne now later (refresh_key fresh.refresh_token) (code_key code) _
                  (positive_or ttl env.ts.refresh_ttl) w.kv t e
                  (λ q. code_key-ne-refresh_key code fresh.refresh_token (sym q)),
            )
          ]

  pub redeem-deleted :
      IsStore o
      → (d : AuthCodeData) (later : ℕ) (w : World S)
      → o.get later (code_key (query r (str "code"))) (redeem o env now fresh r c d w).1.kv ≡ none
  unfolding redeem issue_for_code delete log_access
  redeem-deleted laws d later w =
      let code : Text = query r (str "code") in
      let w' : World S = record w { kv = delete o code w.kv } in
      let gone : o.get later (code_key code) w'.kv ≡ none =
        laws.get-del_self later (code_key code) w.kv in
      elim (Flow-cases (verify_exchange env r d)) [
        | inl (a, v) ↦ rw (v, redeem) gone
        | inr (u, v) ↦ elim (Option-cases (access_for env now fresh c u d.user_id d.scope)) [
          | inl n ↦ rw (v, redeem, n, issue_for_code) gone
          | inr (t, i) ↦
              rw (v, redeem, i, issue_for_code)
                (finish_code-deleted laws d u t code later (log_access env r c d.user_id u w') gone)
        ]
      ]

  auth_code_grant-deleted :
      IsStore o
      → (d : AuthCodeData) (later : ℕ) (w : World S)
      → fetch o now (query r (str "code")) c.client_id w.kv ≡ fetched d
      → o.get later (code_key (query r (str "code"))) (auth_code_grant o env now fresh r c w).1.kv
        ≡ none
  unfolding auth_code_grant
  auth_code_grant-deleted laws d later w f = rw (f, auth_code_grant) (redeem-deleted laws d later w)

  pub auth_code_grant-fetched :
      (d : AuthCodeData) (w : World S)
      → fetch o now (query r (str "code")) c.client_id w.kv ≡ fetched d
      → auth_code_grant o env now fresh r c w ≡ redeem o env now fresh r c d w
  unfolding auth_code_grant
  auth_code_grant-fetched d w f = rw (f, auth_code_grant)

  auth_code_grant-refused :
      (e : CodeError) (w : World S)
      → fetch o now (query r (str "code")) c.client_id w.kv ≡ refused e
      → auth_code_grant o env now fresh r c w ≡ (bad_code e, w)
  unfolding auth_code_grant
  auth_code_grant-refused e w f = rw (f, auth_code_grant)

module _ {S : Type 0} (o : StoreOps S) (laws : IsStore o) (env : Env) where
  -- A code that the token endpoint has accepted once, with any outcome, is unknown to every later
  -- request, whichever client makes it.
  pub auth_code_grant_once :
      (now later : ℕ) (fresh fresh' : Fresh) (r r' : Request) (c c' : OAuth2Client) (w : World S)
      (d : AuthCodeData)
      → fetch o now (query r (str "code")) c.client_id w.kv ≡ fetched d
      → query r' (str "code") ≡ query r (str "code")
      → let w' = (auth_code_grant o env now fresh r c w).1 in
        auth_code_grant o env later fresh' r' c' w' ≡ (bad_code not_found, w')
  auth_code_grant_once now later fresh fresh' r r' c c' w d f same =
      let w' : World S = (auth_code_grant o env now fresh r c w).1 in
      let gone = auth_code_grant-deleted o env now fresh r c laws d later w f in
      auth_code_grant-refused o env later fresh' r' c' not_found w' (
        fetch-missing o later (query r' (str "code")) c'.client_id w'.kv
          (subst (λ (x : Text). o.get later (code_key x) w'.kv ≡ none) (sym same) gone))
