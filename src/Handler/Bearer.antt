-- ===== src/Handler/Bearer.antt =====
-- internal/handler/oauth_handler.go: the endpoints that take a bearer token, and logout.
pub mod UserInfo
pub mod Scopes
use one_auth.Base.{
  ℕ, ◌++◌, Option, none, some, Text, str, is_empty, has_prefix, drop_prefix, if◌then◌else◌,
}
use one_auth.Model.User.{User}
use one_auth.Store.{StoreOps}
use one_auth.Oauth.Jwt.{AccessTokenClaims}
use one_auth.Oauth.Token.{validate_access_token, revoke_jti, delete_refresh_token}
use one_auth.Session.{delete_session}
use one_auth.Handler.Env.{Env, World, Fresh, Request, query, user_of_claims, current_session}

-- The bearer token of the Authorization header, if it has that form.
unfoldable pub bearer : Request → Option Text
bearer r =
    if has_prefix r.authorization (str "Bearer ")
    then some (drop_prefix r.authorization (str "Bearer "))
    else none

module _ {S : Type 0} (o : StoreOps S) where
  -- The start of OAuthHandler.UserInfo: the claims and the user behind a bearer token. `none` is
  -- each 401 that it answers.
  unfoldable pub bearer_user : Env → ℕ → Request → World S → Option (AccessTokenClaims × User)
  bearer_user env now r w = elim (bearer r) [
    | none ↦ none
    | some t ↦ elim (validate_access_token o env.jwt now t w.kv) [
      | none ↦ none
      | some c ↦ elim (user_of_claims o env c) [ none ↦ none | some u ↦ some (c, u) ]
    ]
  ]

  -- OAuthHandler.Revoke: a refresh token is deleted, an access token goes to the blacklist.
  unfoldable pub revoke : Env → ℕ → Text → World S → World S
  revoke env now t w =
      if is_empty t
      then w
      else (let kv = delete_refresh_token o t w.kv in
          let kv' : S = elim (validate_access_token o env.jwt now t kv) [
            | none ↦ kv
            | some c ↦
                if is_empty c.registered.jti
                then kv
                else revoke_jti o env.ts now c.registered.jti kv
          ] in
          record w { kv = kv' })

  unfoldable pub drop_session : Option Text → World S → World S
  drop_session none w = w
  drop_session (some sid) w =
      let (index, kv) = delete_session o sid w.index w.kv in record w { index = index; kv = kv }

  -- OAuthHandler.EndSession: where the browser is sent, and the world without the session.
  unfoldable pub end_session : Env → ℕ → Fresh → Request → World S → Text × World S
  end_session env now fresh r w =
      let (sd, w') = current_session o env now fresh r w in
      let target = query r (str "post_logout_redirect_uri") in
      (
        if is_empty target then env.frontend_base ++ str "/" else target,
        drop_session (elim sd [ none ↦ none | some d ↦ some d.session_id ]) w',
      )
