-- ===== src/Tests/Endpoints.antt =====
-- The endpoints at concrete requests: a user with a session takes a code, and the client redeems it.
use mathlib.Core.List.{Memᴰ}
use one_auth.Base.{
  ℕ, ◌≡◌, refl, false, Option, none, some, [], ◌∷◌, Text, str, text_eq, is_empty, drop_while, ap,
  ne_of_first_byte, first_byte, pos, arith, if◌then◌else◌, next, inl, inr,
}
use one_auth.Model.Payload.{SessionData, session}
use one_auth.Model.Client.{
  get_by_client_id, check_redirect_uri, normalize_redirect_uri, has_wildcard, has_normalized,
}
use one_auth.Store.Memory.{MemoryStore, new_memory_store, set, get, find, put}
use one_auth.Store.Memory.Laws.{memory_ops}
use one_auth.Handler.Env.{Env, World, Fresh, Request, current_session, session_from_cookie}
use one_auth.Session.{get_session}
use one_auth.Handler.Authorize.{
  Checked, precheck, check_client, request_redirect_uri, access_gate, authorize, keep_consent,
  issue_code, code_url, redirect_code, AuthorizeReply,
}
use one_auth.Handler.Authorize.Granted.{HasGrant, by_group}
use one_auth.Handler.Authorize.Gate.{Allowed, access_gate_iff}
use one_auth.Handler.Authorize.Sound.{Cleared, authorize-Cleared}
use one_auth.Handler.Authorize.Issue.{authorize-issues}
use one_auth.Tests.Data.{alice, portal, service}
use one_auth.Tests.Tokens.{noon, jwt_for}

abbrev pub fresh : Fresh
fresh = record {
  session_id = str "s2";
  code = str "c1";
  access_jti = str "j1";
  id_jti = str "j2";
  refresh_token = str "r1";
}

-- The verifier's hash is the verifier itself with an x before it.
abbrev pub env : Env
env = record {
  ts = service;
  jwt = jwt_for (pos 7_200_000_000_000);
  users = alice ∷ [];
  clients = portal ∷ [];
  app_grants = [];
  group_members = [];
  code_ttl = pos 600_000_000_000;
  session_ttl = pos 28_800_000_000_000;
  frontend_base = str "https://sso";
  parse_uuid = λ s. some s;
  compare_hash = λ h s. false;
  s256 = λ v. b'x' ∷ v;
  query_escape = λ s. s;
  query_unescape = λ s. some s;
  encode_query = λ q. [];
}

abbrev pub request : (Text → Option Text) → Request
request param = record {
  param = param;
  basic_auth = none;
  authorization = [];
  session_cookie = some (str "s1");
  token_cookie = none;
  client_ip = str "10.0.0.1";
  user_agent = [];
  request_uri = [];
}

abbrev pub authorize_param : Text → Option Text
authorize_param key =
    if text_eq key (str "client_id")
    then some (str "portal")
    else if text_eq key (str "redirect_uri")
    then some (str "https://p/cb?")
    else if text_eq key (str "code_challenge")
    then some (str "xv")
    else none

abbrev pub token_param : Text → Option Text
token_param key =
    if text_eq key (str "client_id")
    then some (str "portal")
    else if text_eq key (str "grant_type")
    then some (str "authorization_code")
    else if text_eq key (str "code")
    then some (str "c1")
    else if text_eq key (str "redirect_uri")
    then some (str "https://p/cb/")
    else if text_eq key (str "code_verifier")
    then some (str "v")
    else none

abbrev pub alice_session : SessionData
alice_session = record {
  session_id = str "s1";
  user_id = str "a1";
  username = str "alice";
  display_name = str "alice";
  is_staff = false;
  ip = str "10.0.0.1";
  user_agent = [];
  auth_time = noon;
  created_at = noon;
  expires_at = noon;
}

abbrev pub world : World MemoryStore
world = record {
  kv =
      set noon (str "session:s1") (session alice_session) (pos 28_800_000_000_000) new_memory_store;
  index = str "s1" ∷ [];
  consents = [];
  access_log = [];
}

abbrev pub checked_request : Checked
checked_request = record {
  client_id = str "portal";
  client = portal;
  redirect_uri = str "https://p/cb";
  scope = str "openid";
  state = [];
  nonce = [];
  code_challenge = str "xv";
  code_challenge_method = str "S256";
}

pub precheck_passes : precheck env (request authorize_param) ≡ next checked_request
unfolding precheck text_eq get_by_client_id check_client check_redirect_uri has_wildcard
    has_normalized normalize_redirect_uri drop_while request_redirect_uri is_empty
precheck_passes = refl

pub session_found :
    current_session memory_ops env noon fresh (request authorize_param) world
    ≡ (some alice_session, world)
unfolding current_session session_from_cookie get_session is_empty get find set put text_eq
session_found = refl

abbrev second_byte : Text → ℕ
second_byte [] = 0
second_byte (c ∷ s) = first_byte s

pub open_to_all : Allowed env portal (str "portal") (str "a1")
open_to_all = inr (
  refl,
  ne_of_first_byte (str "all") (str "none") (omega arith),
  λ e. absurd (omega (arith, ap second_byte e)),
)

-- The portal, for those who have a grant, and a grant for a group of alice's.
abbrev group_env : Env
group_env = record env {
  app_grants =
      record { client_id = str "portal"; principal_type = str "group"; principal_id = str "g1" }
      ∷ [];
  group_members = (str "g2", str "a1") ∷ (str "g1", str "a1") ∷ [];
}

abbrev assigned_request : Checked
assigned_request = record checked_request {
  client = record portal { access_policy = str "assigned" };
}

alice-HasGrant : HasGrant group_env (str "portal") (str "a1")
alice-HasGrant = (_, (Memᴰ.head refl, (refl, by_group refl (Memᴰ.tail (Memᴰ.head refl)))))

access_gate_iff_example : access_gate group_env assigned_request (str "a1") ≡ next tt
access_gate_iff_example =
    (access_gate_iff group_env assigned_request (str "a1")).1 (
      inr (refl, ne_of_first_byte (str "assigned") (str "none") (omega arith), λ e. alice-HasGrant))

code_issued : authorize memory_ops env noon fresh (request authorize_param) world ≡ (
  redirect_code (code_url env checked_request (str "c1")),
  issue_code memory_ops env noon fresh
      (request authorize_param)
      checked_request
      alice_session
      (str "a1")
      (keep_consent memory_ops (request authorize_param) checked_request (str "a1") world),
)
code_issued =
    authorize-issues memory_ops env noon fresh (request authorize_param) checked_request
      alice_session (str "a1") world world precheck_passes session_found refl open_to_all
      (inr (inl refl))

authorize-Cleared_example : Cleared memory_ops env noon fresh (request authorize_param) world
authorize-Cleared_example =
    authorize-Cleared memory_ops env noon fresh (request authorize_param) world
      (code_url env checked_request (str "c1"))
      (ap (λ (p : AuthorizeReply × World MemoryStore). p.0) code_issued)
