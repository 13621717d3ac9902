-- ===== src/Handler/Grant.antt =====
-- internal/handler/oauth_handler.go: the token endpoint and its two grants.
pub mod Exchange
pub mod Rotation
pub mod Complete
pub mod Race
use one_auth.Base.{
  ℕ, ◌||◌, Option, none, some, [], ◌∷◌, Text, str, text_eq, is_empty, contains, ℤ, is_positive,
  seconds, whole_seconds, unix, if◌then◌else◌, or_else, Flow, next, reply, require, or_reply, ◌>>=◌,
  ◌>>◌,
}
use one_auth.Model.Payload.{AuthCodeData, RefreshTokenData}
use one_auth.Model.User.{User, get_by_id}
use one_auth.Model.Client.{OAuth2Client, normalize_redirect_uri, is_public, get_by_client_id}
use one_auth.Store.{StoreOps}
use one_auth.Oauth.Code.{CodeError, fetched, refused, fetch, delete}
use one_auth.Oauth.Token.{
  issue_access_token, issue_id_token, save_refresh_token, load_refresh_token, delete_refresh_token,
}
use one_auth.Handler.Env.{
  Env, World, Fresh, Request, query, parse_or_nil, text_of, verify_pkce, resolve_subject,
  user_to_info, build_id_token_options,
}

pub record TokenResponse : Type 0 where
  pub access_token : Text
  pub expires_in : ℤ
  pub scope : Text
  pub refresh_token : Option Text
  pub id_token : Option Text

pub data TokenReply : Type 0 where
  -- a status with `error` and `error_description`
  failed : ℕ → Text → Text → TokenReply
  -- 400 invalid_grant with the text of the error
  bad_code : CodeError → TokenReply
  tokens : TokenResponse → TokenReply

abbrev pub invalid_grant : Text → TokenReply
invalid_grant = failed 400 (str "invalid_grant")

abbrev pub server_error : TokenReply
server_error = failed 500 (str "server_error") []

abbrev pub invalid_client : TokenReply
invalid_client = failed 401 (str "invalid_client") []

-- expiresIn: the client's lifetime, or that of the server
unfoldable pub expires_in : Env → OAuth2Client → ℤ
expires_in env c =
    if is_positive c.access_token_ttl then c.access_token_ttl else whole_seconds env.ts.access_ttl

-- The checks on a code that was found and deleted; the user is what they lead to.
unfoldable pub verify_exchange : Env → Request → AuthCodeData → Flow TokenReply User
verify_exchange env r d = do
  require (text_eq d.redirect_uri (normalize_redirect_uri (query r (str "redirect_uri"))))
      (invalid_grant (str "redirect_uri mismatch"))
  require
      (is_empty d.code_challenge
        || verify_pkce env (query r (str "code_verifier")) d.code_challenge d.code_challenge_method)
      (invalid_grant (str "PKCE verification failed"))
  or_reply (get_by_id (parse_or_nil env d.user_id) env.users) (invalid_grant (str "user not found"))

-- LogRepo.RecordAccess
unfoldable pub log_access :
    {S : Type 0} → Env → Request → OAuth2Client → Text → User → World S → World S
log_access env r c user_id u w = record w {
  access_log =
      record {
        user_id = parse_or_nil env user_id;
        username = u.username;
        client_id = c.client_id;
        client_name = c.client_name;
        ip = r.client_ip;
      }
      ∷ w.access_log;
}

-- The access and the ID token of a user for a client.
unfoldable pub access_for : Env → ℕ → Fresh → OAuth2Client → User → Text → Text → Option Text
access_for env now fresh c u user_id scope =
    issue_access_token env.jwt env.ts now fresh.access_jti (resolve_subject u c.subject_type)
      user_id c.client_id u.username scope (seconds c.access_token_ttl)

unfoldable pub id_for : Env → ℕ → Fresh → OAuth2Client → User → Text → Text → Text → ℕ → Option Text
id_for env now fresh c u user_id scope nonce auth_time =
    if contains scope (str "openid")
    then issue_id_token env.jwt env.ts now fresh.id_jti (resolve_subject u c.subject_type) user_id
        c.client_id nonce auth_time (user_to_info u) (seconds c.id_token_ttl)
        (build_id_token_options c)
    else none

-- The credentials of the request: HTTP Basic, or the form.
abbrev pub credentials : Request → Text × Text
credentials r = or_else r.basic_auth (query r (str "client_id"), query r (str "client_secret"))

unfoldable pub authenticate_client : Env → Request → Flow TokenReply OAuth2Client
authenticate_client env r = do
  c ← or_reply (get_by_client_id (credentials r).0 env.clients) invalid_client
  require (is_public c || env.compare_hash c.client_secret_hash (credentials r).1) invalid_client
  next c

-- resp of the code grant
abbrev pub code_response :
    Env → ℕ → Fresh → OAuth2Client → AuthCodeData → User → Text → Option Text → TokenResponse
code_response env now fresh c d u access refresh = record {
  access_token = access;
  expires_in = expires_in env c;
  scope = d.scope;
  refresh_token = refresh;
  id_token = id_for env now fresh c u d.user_id d.scope d.nonce d.auth_time;
}

-- resp of the refresh grant; a failing signature gives an empty access token
abbrev pub refresh_response :
    Env → ℕ → Fresh → OAuth2Client → RefreshTokenData → User → TokenResponse
refresh_response env now fresh c d u = record {
  access_token = text_of (access_for env now fresh c u d.user_id d.scope);
  expires_in = expires_in env c;
  scope = d.scope;
  refresh_token = some fresh.refresh_token;
  id_token = id_for env now fresh c u d.user_id d.scope [] (unix now);
}

module _ {S : Type 0} (o : StoreOps S) where
  -- The refresh token of the code grant, where the client wants one.
  unfoldable pub finish_code :
      Env → ℕ → Fresh → OAuth2Client → AuthCodeData → User → Text → World S → TokenReply × World S
  finish_code env now fresh c d u access w =
      if c.issue_refresh_token
      then elim (save_refresh_token o env.ts now fresh.refresh_token d.user_id c.client_id d.scope
          (seconds c.refresh_token_ttl) w.kv) [
            | none ↦ (server_error, w)
            | some kv ↦ (
              tokens (code_response env now fresh c d u access (some fresh.refresh_token)),
              record w { kv = kv },
            )
          ]
      else (tokens (code_response env now fresh c d u access none), w)

  unfoldable pub issue_for_code :
      Env
      → ℕ
      → Fresh
      → Request
      → OAuth2Client
      → AuthCodeData
      → User
      → World S
      → TokenReply × World S
  issue_for_code env now fresh r c d u w = elim (access_for env now fresh c u d.user_id d.scope) [
    | none ↦ (server_error, w)
    | some access ↦ finish_code env now fresh c d u access (log_access env r c d.user_id u w)
  ]

  -- What follows the read of the code: it is deleted, and then checked.
  unfoldable pub redeem :
      Env → ℕ → Fresh → Request → OAuth2Client → AuthCodeData → World S → TokenReply × World S
  redeem env now fresh r c d w =
      let w' : World S = record w { kv = delete o (query r (str "code")) w.kv } in
      elim (verify_exchange env r d) [
        | reply a ↦ (a, w')
        | next u ↦ issue_for_code env now fresh r c d u w'
      ]

  -- handleAuthCodeGrant
  unfoldable pub auth_code_grant :
      Env → ℕ → Fresh → Request → OAuth2Client → World S → TokenReply × World S
  auth_code_grant env now fresh r c w = elim (fetch o now (query r (str "code")) c.client_id w.kv) [
    | refused e ↦ (bad_code e, w)
    | fetched d ↦ redeem env now fresh r c d w
  ]

  unfoldable pub finish_refresh :
      Env
      → ℕ
      → Fresh
      → Request
      → OAuth2Client
      → RefreshTokenData
      → User
      → World S
      → TokenReply × World S
  finish_refresh env now fresh r c d u w =
      elim (save_refresh_token o env.ts now fresh.refresh_token d.user_id c.client_id d.scope
        (seconds c.refresh_token_ttl) w.kv) [
          | none ↦ (server_error, w)
          | some kv ↦ (
            tokens (refresh_response env now fresh c d u),
            log_access env r c d.user_id u (record w { kv = kv }),
          )
        ]

  unfoldable pub rotate :
      Env → ℕ → Fresh → Request → OAuth2Client → RefreshTokenData → World S → TokenReply × World S
  rotate env now fresh r c d w =
      let w' : World S = record w {
        kv = delete_refresh_token o (query r (str "refresh_token")) w.kv;
      } in
      elim (get_by_id (parse_or_nil env d.user_id) env.users) [
        | none ↦ (invalid_grant [], w')
        | some u ↦ finish_refresh env now fresh r c d u w'
      ]

  -- handleRefreshTokenGrant
  unfoldable pub refresh_token_grant :
      Env → ℕ → Fresh → Request → OAuth2Client → World S → TokenReply × World S
  refresh_token_grant env now fresh r c w =
      let rt = query r (str "refresh_token") in
      if is_empty rt
      then (failed 400 (str "invalid_request") [], w)
      else elim (load_refresh_token o now rt w.kv) [
        | none ↦ (invalid_grant (str "refresh token expired"), w)
        | some d ↦
            if text_eq d.client_id c.client_id
            then rotate env now fresh r c d w
            else (invalid_grant (str "client mismatch"), w)
      ]

  -- OAuthHandler.Token
  unfoldable pub token : Env → ℕ → Fresh → Request → World S → TokenReply × World S
  token env now fresh r w = elim (authenticate_client env r) [
    | reply a ↦ (a, w)
    | next c ↦
        let grant_type = query r (str "grant_type") in
        if text_eq grant_type (str "authorization_code")
        then auth_code_grant env now fresh r c w
        else if text_eq grant_type (str "refresh_token")
        then refresh_token_grant env now fresh r c w
        else (failed 400 (str "unsupported_grant_type") [], w)
  ]
