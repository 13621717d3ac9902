-- ===== src/Handler/CodeFlow.antt =====
-- The authorization code flow from end to end: the authorization endpoint, then the token endpoint.
use one_auth.Base.{
  ℕ, ◌+◌, ◌≤◌, ◌≡◌, ap, ◌∙◌, true, false, none, some, Text, str, text_eq_iff, is_positive, pos_part,
  next, arith, or_else, Option,
}
use one_auth.Model.Payload.{SessionData}
use one_auth.Model.User.{User, get_by_id}
use one_auth.Model.Client.{OAuth2Client, normalize_redirect_uri}
use one_auth.Store.{StoreOps, IsStore}
use one_auth.Oauth.Code.{save, fetch, fetched}
use one_auth.Oauth.Code.Laws.{stamped}
use one_auth.Handler.Env.{Env, World, Fresh, Request, query, nil_uuid, current_session}
use one_auth.Handler.Authorize.{Checked, precheck, code_data, authorize, keep_consent, issue_code}
use one_auth.Handler.Authorize.Gate.{Allowed}
use one_auth.Handler.Authorize.Sound.{Agreed}
use one_auth.Handler.Authorize.Issue.{authorize-issues, issue_code-fetch}
use one_auth.Handler.Grant.{
  tokens, code_response, verify_exchange, authenticate_client, access_for, auth_code_grant, token,
}
use one_auth.Handler.Grant.Exchange.{Proved}
use one_auth.Handler.Grant.Complete.{verify_exchange_complete, redeem-tokens}

token-code_grant :
    {S : Type 0} (o : StoreOps S) (env : Env) (now : ℕ) (fresh : Fresh) (r : Request)
    (c : OAuth2Client) (w : World S)
    → authenticate_client env r ≡ next c
    → query r (str "grant_type") ≡ str "authorization_code"
    → token o env now fresh r w ≡ auth_code_grant o env now fresh r c w
unfolding token
token-code_grant o env now fresh r c w a g =
    rw (a, token)
      (ground (arith, text_eq_iff (query r (str "grant_type")) (str "authorization_code")))

module _ {S : Type 0} (o : StoreOps S) (laws : IsStore o) (env : Env) (now later : ℕ)
    (fresh fresh' : Fresh) (r r' : Request) (k : Checked) (sd : SessionData) (uid : Text)
    (w w' : World S) (t : S) (u : User) (access : Text) (checked : precheck env r ≡ next k)
    (logged_in : current_session o env now fresh r w ≡ (some sd, w'))
    (parsed : env.parse_uuid sd.user_id ≡ some uid) (allowed : Allowed env k.client k.client_id uid)
    (agreed : Agreed r k uid w')
    (saved : save o now env.code_ttl (code_data o now fresh k sd) w'.kv ≡ some t)
    (positive : is_positive env.code_ttl ≡ true) (in_time : later ≤ now + pos_part env.code_ttl)
    (same_client : k.client.client_id ≡ k.client_id)
    (no_refresh : k.client.issue_refresh_token ≡ false)
    (authenticated : authenticate_client env r' ≡ next k.client)
    (grant_type : query r' (str "grant_type") ≡ str "authorization_code")
    (code : query r' (str "code") ≡ fresh.code)
    (uri : k.redirect_uri ≡ normalize_redirect_uri (query r' (str "redirect_uri")))
    (proved : Proved env r' (stamped now (code_data o now fresh k sd)))
    (user : get_by_id uid env.users ≡ some u)
    (signed : access_for env later fresh' k.client u sd.user_id k.scope ≡ some access) where
  -- A client that takes its user through the authorization endpoint, and comes back in time with the
  -- code, the same redirect URI and the PKCE verifier, gets tokens for that user and scope.
  pub code_flow :
      (token o env later fresh' r' (authorize o env now fresh r w).1).0
      ≡ tokens (
          code_response env later fresh' k.client
            (stamped now (code_data o now fresh k sd))
            u
            access
            none)
  unfolding auth_code_grant
  code_flow =
      let d = stamped now (code_data o now fresh k sd) in
      let w1 : World S = issue_code o env now fresh r k sd uid (keep_consent o r k uid w') in
      let issued : authorize o env now fresh r w ≡ _ =
        authorize-issues o env now fresh r k sd uid w w' checked logged_in parsed allowed agreed in
      let got : fetch o later (query r' (str "code")) k.client.client_id w1.kv ≡ fetched d =
        ap (λ (x : Text). fetch o later x k.client.client_id w1.kv) code
        ∙ ap (λ (x : Text). fetch o later fresh.code x w1.kv) same_client
        ∙ (issue_code-fetch o env now fresh r k sd uid w w' laws later t saved positive in_time) in
      let v : verify_exchange env r' d ≡ next u =
        verify_exchange_complete env r' d u uri proved
          (ap (λ (m : Option Text). get_by_id (or_else m nil_uuid) env.users) parsed ∙ user) in
      rw
        (
          issued,
          token-code_grant o env later fresh' r' k.client w1 authenticated grant_type,
          got,
          auth_code_grant,
        )
        (redeem-tokens o env r' k.client later fresh' d u access w1 no_refresh v signed)
