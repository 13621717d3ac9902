-- ===== src/Handler/Authorize.antt =====
-- internal/handler/oauth_handler.go: the authorization endpoint.
pub mod Granted
pub mod Gate
pub mod Sound
pub mod Issue
use one_auth.Base.{
  ℕ, ◌++◌, Bool, or_else, not, ◌&&◌, ◌||◌, Option, none, some, List, [], ◌∷◌, Text, str, text_eq,
  is_empty, contains, if◌then◌else◌, Flow, next, reply, require, or_reply, ◌>>=◌, ◌>>◌, unix,
}
use one_auth.Model.Payload.{SessionData, AuthCodeData}
use one_auth.Model.Client.{
  OAuth2Client, check_redirect_uri, normalize_redirect_uri, is_public, get_by_client_id,
}
use one_auth.Store.{StoreOps}
use one_auth.Oauth.Code.{save}
use one_auth.Handler.Env.{
  Env, World, Fresh, Request, query, query_or, user_allowed, has_consent, record_consent,
  current_session,
}

-- Why a request is turned away once the redirect URI is known; see `error_code` and `describe`.
pub data Denial : Type 0 where
  unsupported_response_type pkce_required sp_initiated_off no_grants not_allowed : Denial

pub data AuthorizeReply : Type 0 where
  -- 400 with `error` and `error_description`
  bad_request : Text → Text → AuthorizeReply
  -- 302: to the client with an error, to the login page, to the consent page, and with a code
  redirect_error : Text → AuthorizeReply
  redirect_login : Text → AuthorizeReply
  redirect_consent : Text → AuthorizeReply
  redirect_code : Text → AuthorizeReply
  -- uuid.MustParse panics
  panic : AuthorizeReply

abbrev pub error_code : Denial → Text
error_code unsupported_response_type = str "unsupported_response_type"
error_code pkce_required = str "invalid_request"
error_code sp_initiated_off = str "access_denied"
error_code no_grants = str "access_denied"
error_code not_allowed = str "access_denied"

abbrev pub describe : Denial → Text
describe unsupported_response_type = str "仅支持 response_type=code"
describe pkce_required = str "公共客户端必须使用 PKCE"
describe sp_initiated_off = str "该应用未启用 SP-initiated 登录，请联系管理员"
describe no_grants = str "该应用尚未授权给任何用户访问"
describe not_allowed = str "您没有权限访问该应用"

unfoldable pub separator : Text → Text
separator uri = if contains uri (str "?") then str "&" else str "?"

unfoldable pub error_redirect : Env → Text → Denial → Text → AuthorizeReply
error_redirect env uri d state =
    let pairs : List (Text × Text) =
      (str "error", error_code d)
      ∷ (str "error_description", describe d)
      ∷ (if is_empty state then [] else (str "state", state) ∷ []) in
    if is_empty uri
    then bad_request (error_code d) (describe d)
    else redirect_error (uri ++ (separator uri ++ env.encode_query pairs))

-- What the handler keeps of a request that may go on.
pub record Checked : Type 0 where
  pub client_id : Text
  pub client : OAuth2Client
  pub redirect_uri : Text
  pub scope : Text
  pub state : Text
  pub nonce : Text
  pub code_challenge : Text
  pub code_challenge_method : Text

-- The redirect URI may be encoded once more than the query parser decodes.
unfoldable pub request_redirect_uri : Env → Request → Text
request_redirect_uri env r =
    let uri = query r (str "redirect_uri") in
    normalize_redirect_uri (elim (env.query_unescape uri) [ none ↦ uri | some decoded ↦ decoded ])

-- The checks on the client, up to PKCE.
unfoldable pub check_client : Env → Request → Text → OAuth2Client → Flow AuthorizeReply (Unit {0})
check_client env r uri c = do
  require c.is_active (bad_request (str "invalid_client") (str "未知或已禁用的应用"))
  require (check_redirect_uri c uri) (bad_request (str "invalid_redirect_uri") (str "回调地址未注册"))
  require (not (is_public c && is_empty (query r (str "code_challenge"))))
      (error_redirect env uri pkce_required (query r (str "state")))

-- Everything before the session is looked at.
unfoldable pub precheck : Env → Request → Flow AuthorizeReply Checked
precheck env r = do
  let uri = request_redirect_uri env r
  require (text_eq (query_or r (str "response_type") (str "code")) (str "code"))
      (error_redirect env uri unsupported_response_type (query r (str "state")))
  c ←
      or_reply (get_by_client_id (query r (str "client_id")) env.clients)
        (bad_request (str "invalid_client") (str "未知或已禁用的应用"))
  check_client env r uri c
  next (record {
    client_id = query r (str "client_id");
    client = c;
    redirect_uri = uri;
    scope = query_or r (str "scope") (str "openid");
    state = query r (str "state");
    nonce = query r (str "nonce");
    code_challenge = query r (str "code_challenge");
    code_challenge_method = query_or r (str "code_challenge_method") (str "S256");
  })

-- if !client.IsBuiltin { … }: the switch of the application and its access policy
unfoldable pub access_gate : Env → Checked → Text → Flow AuthorizeReply (Unit {0})
access_gate env k uid =
    let c = k.client in
    if c.is_builtin
    then next tt
    else if not c.allow_sp_initiated
    then reply (error_redirect env k.redirect_uri sp_initiated_off k.state)
    else if text_eq c.access_policy (str "none")
    then reply (error_redirect env k.redirect_uri no_grants k.state)
    else if text_eq c.access_policy (str "assigned")
    then require (user_allowed env k.client_id uid)
        (error_redirect env k.redirect_uri not_allowed k.state)
    else next tt

unfoldable pub consent_url : Env → Checked → Text
consent_url env k =
    env.frontend_base
    ++ (str "/oauth/consent?"
        ++ env.encode_query (
            (str "client_id", k.client_id)
            ∷ (str "redirect_uri", k.redirect_uri)
            ∷ (str "scope", k.scope)
            ∷ (str "state", k.state)
            ∷ (str "nonce", k.nonce)
            ∷ (str "code_challenge", k.code_challenge)
            ∷ (str "code_challenge_method", k.code_challenge_method)
            ∷ []))

unfoldable pub login_url : Env → Request → Text
login_url env r =
    env.frontend_base ++ (str "/?" ++ env.encode_query ((str "return_to", r.request_uri) ∷ []))

unfoldable pub code_url : Env → Checked → Text → Text
code_url env k code =
    k.redirect_uri
    ++ (separator k.redirect_uri
        ++ (str "code="
            ++ (env.query_escape code
                ++ (if is_empty k.state then [] else str "&state=" ++ env.query_escape k.state))))

-- The consent that the request carries, and whether none is needed.
abbrev pub consented : Request → Bool
consented r = text_eq (query r (str "consent")) (str "1")

module _ {S : Type 0} (o : StoreOps S) where
  unfoldable pub auto_grant : Checked → Text → World S → Bool
  auto_grant k uid w =
      k.client.is_builtin
      || not k.client.require_consent
      || has_consent uid k.client_id k.scope w.consents

  abbrev pub code_data : ℕ → Fresh → Checked → SessionData → AuthCodeData
  code_data now fresh k sd = record {
    code = fresh.code;
    client_id = k.client_id;
    redirect_uri = k.redirect_uri;
    scope = k.scope;
    user_id = sd.user_id;
    username = sd.username;
    nonce = k.nonce;
    code_challenge = k.code_challenge;
    code_challenge_method = k.code_challenge_method;
    auth_time = unix sd.auth_time;
    created_at = 0;
  }

  -- An error of Save is dropped.
  unfoldable pub issue_code :
      Env → ℕ → Fresh → Request → Checked → SessionData → Text → World S → World S
  issue_code env now fresh r k sd uid w = record w {
    kv = or_else (save o now env.code_ttl (code_data now fresh k sd) w.kv) w.kv;
    access_log =
        record {
          user_id = uid;
          username = sd.username;
          client_id = k.client_id;
          client_name = k.client.client_name;
          ip = r.client_ip;
        }
        ∷ w.access_log;
  }

  -- if consented && !client.IsBuiltin { h.GrantRepo.Grant(…) }
  unfoldable pub keep_consent : Request → Checked → Text → World S → World S
  keep_consent r k uid w =
      if consented r && not k.client.is_builtin
      then record w { consents = record_consent uid k.client_id k.scope w.consents }
      else w

  unfoldable pub after_gate :
      Env → ℕ → Fresh → Request → Checked → SessionData → Text → World S → AuthorizeReply × World S
  after_gate env now fresh r k sd uid w =
      if not (auto_grant k uid w) && not (consented r)
      then (redirect_consent (consent_url env k), w)
      else (
        redirect_code (code_url env k fresh.code),
        issue_code env now fresh r k sd uid (keep_consent r k uid w),
      )

  unfoldable pub with_session :
      Env → ℕ → Fresh → Request → Checked → SessionData → World S → AuthorizeReply × World S
  with_session env now fresh r k sd w = elim (env.parse_uuid sd.user_id) [
    | none ↦ (panic, w)
    | some uid ↦ elim (access_gate env k uid) [
      | reply a ↦ (a, w)
      | next _ ↦ after_gate env now fresh r k sd uid w
    ]
  ]

  unfoldable pub with_client :
      Env → ℕ → Fresh → Request → Checked → Option SessionData × World S → AuthorizeReply × World S
  with_client env now fresh r k (none, w) = (redirect_login (login_url env r), w)
  with_client env now fresh r k (some sd, w) = with_session env now fresh r k sd w

  -- OAuthHandler.Authorize
  unfoldable pub authorize : Env → ℕ → Fresh → Request → World S → AuthorizeReply × World S
  authorize env now fresh r w = elim (precheck env r) [
    | reply a ↦ (a, w)
    | next k ↦ with_client env now fresh r k (current_session o env now fresh r w)
  ]
