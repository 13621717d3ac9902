-- ===== src/Tests/Portal.antt =====
-- Renewal of tokens, gates and the list of sessions at concrete inputs.
use mathlib.Core.List.{Memᴰ}
use one_auth.Base.{
  ◌≡◌, ◌≢◌, ◌-◌, ◌*◌, ◌↔◌, refl, true, false, Option, none, some, or_else, [], ◌∷◌, List, Text, str,
  text_eq, is_empty, has_prefix, drop_prefix, pos, ltz, second, unix, seconds, arith, next, ◌>>=◌,
  ne_of_first_byte, if◌then◌else◌,
}
use one_auth.Model.Payload.{SessionData, RefreshTokenData, number, refresh}
use one_auth.Model.User.{User, get_by_id}
use one_auth.Store.Memory.{MemoryStore, new_memory_store, set, get, find, put}
use one_auth.Store.Memory.Laws.{memory_ops, memory_ops-IsStore}
use one_auth.Oauth.Jwt.{JwtOps}
use one_auth.Oauth.Token.{
  access_claims, load_refresh_token, save_refresh_token, issue_access_token, validate_access_token,
  is_revoked,
}
use one_auth.Session.{get_session, list_all}
use one_auth.Session.Listing.{list_all_iff}
use one_auth.Middleware.{
  AuthContext, jwt_auth, request_token, require_staff, require_permission, permissions,
  permissions_of, has_code, grants,
}
use one_auth.Middleware.Gates.{IsAuthenticated, IsEntitled, gates-IsEntitled}
use one_auth.Handler.Env.{Env, Request, nil_uuid, user_of_claims}
use one_auth.Handler.Settings.{atoi, magnitude, digits_from}
use one_auth.Handler.Login.{AuthHandler, AuthWorld, activity_key}
use one_auth.Handler.Renew.{
  Served, RefreshResponse, renewed, refresh_user, renew, is_timed_out, session_timeout,
  touch_activity,
}
use one_auth.Handler.Renew.Renewed.{refresh-Renewed}
use one_auth.Handler.Renew.Activity.{touch-is_timed_out}
use one_auth.Tests.Data.{alice, service}
use one_auth.Tests.Tokens.{noon, claims_for}
use one_auth.Tests.Endpoints.{env, fresh, request, world}
use one_auth.Tests.Logins.{handler, login_world}

abbrev old_token : RefreshTokenData
old_token = record {
  token = str "old";
  user_id = str "a1";
  client_id = str "portal";
  scope = str "openid";
}

abbrev renew_world : AuthWorld MemoryStore
renew_world = record login_world {
  kv = set noon (str "refresh:old") (refresh old_token) (pos 1000) new_memory_store;
}

abbrev uuid : Text → Option Text
uuid s = some s

abbrev response : RefreshResponse
response = record {
  access_token =
      or_else
        (issue_access_token handler.jwt service noon (str "j1") (str "alice") (str "a1")
          (str "portal") (str "alice") (str "openid") (pos 0))
        [];
  refresh_token = str "r1";
  expires_in = pos 3600;
}

old_renewed :
    (one_auth.Handler.Renew.refresh memory_ops uuid handler noon fresh (str "old") renew_world).0
    ≡ renewed response
unfolding one_auth.Handler.Renew.refresh refresh_user renew is_timed_out session_timeout
    load_refresh_token save_refresh_token get_by_id set get find put text_eq is_empty atoi
old_renewed = refl

refresh-Renewed_example :
    (rt : RefreshTokenData) × (load_refresh_token memory_ops noon (str "old") renew_world.kv
      ≡ some rt)
    × ((u : User) × (get_by_id (or_else (uuid rt.user_id) nil_uuid) renew_world.users ≡ some u))
    × (is_timed_out memory_ops handler noon rt.user_id renew_world.kv ≡ false)
    × (load_refresh_token memory_ops noon
          (str "old")
          (one_auth.Handler.Renew.refresh memory_ops uuid handler noon fresh
            (str "old")
            renew_world).1.kv
        ≡ none)
    × (load_refresh_token memory_ops noon
          (str "r1")
          (one_auth.Handler.Renew.refresh memory_ops uuid handler noon fresh
            (str "old")
            renew_world).1.kv
        ≡ some (record {
          token = str "r1";
          user_id = rt.user_id;
          client_id = rt.client_id;
          scope = rt.scope;
        }))
refresh-Renewed_example =
    refresh-Renewed memory_ops memory_ops-IsStore uuid handler noon fresh (str "old") renew_world
      response old_renewed (ne_of_first_byte (str "r1") (str "old") (omega arith)) refl noon
      (omega arith)

-- A limit of an hour, and a request that the user caused
abbrev limited : AuthHandler
limited = record handler {
  config = λ key. if text_eq key (str "session_timeout") then str "3600" else [];
}

abbrev served : Served
served = record { status = 200; user_action = str "1"; user_id = str "a1" }

touch-is_timed_out_example :
    is_timed_out memory_ops limited 200_000_000_000
      (str "a1")
      (touch_activity memory_ops noon served new_memory_store)
    ≡ ltz (session_timeout limited.config) (pos (200_000_000_000 - unix noon * second))
unfolding session_timeout atoi magnitude digits_from text_eq is_empty seconds
touch-is_timed_out_example =
    touch-is_timed_out memory_ops memory_ops-IsStore limited noon 200_000_000_000 served
      new_memory_store
      (set noon (activity_key (str "a1")) (number (unix noon)) (pos 1_209_600_000_000_000)
        new_memory_store)
      refl refl refl refl (omega arith)

abbrev staff_alice : User
staff_alice = record alice { is_staff = true; roles = str "ops" ∷ [] }

abbrev any_token : JwtOps
any_token = record {
  sign = λ _ _. none;
  parse = λ _ _ _. some (claims_for (pos 3_600_000_000_000));
}

abbrev staff_env : Env
staff_env = record env { users = staff_alice ∷ []; jwt = any_token }

abbrev staff_request : Request
staff_request = record (request (λ _. none)) { authorization = str "Bearer t" }

abbrev role_permissions : List (Text × Text)
role_permissions = (str "ops", str "user:edit") ∷ []

abbrev context : AuthContext
context = record {
  user_id = str "a1";
  client_id = str "portal";
  scope = str "openid";
  username = str "alice";
  user = some staff_alice;
}

may_edit :
    (jwt_auth memory_ops staff_env noon staff_request new_memory_store
      >>= require_permission role_permissions (str "user:edit"))
    ≡ next context
unfolding jwt_auth request_token has_prefix drop_prefix is_empty validate_access_token is_revoked
    get find user_of_claims get_by_id text_eq require_permission permissions permissions_of has_code
    grants access_claims
may_edit = refl

gates-IsEntitled_example :
    (u : User) × IsAuthenticated memory_ops staff_env noon staff_request new_memory_store u
    × IsEntitled role_permissions (str "user:edit") u
gates-IsEntitled_example =
    gates-IsEntitled memory_ops staff_env noon staff_request new_memory_store role_permissions
      (str "user:edit") context may_edit

is_staff_request :
    (jwt_auth memory_ops staff_env noon staff_request new_memory_store >>= require_staff)
    ≡ next context
unfolding jwt_auth request_token has_prefix drop_prefix is_empty validate_access_token is_revoked
    get find user_of_claims get_by_id text_eq require_staff access_claims
is_staff_request = refl

list_all_iff_example :
    ((d : SessionData)
      → Memᴰ d (list_all memory_ops noon (str "gone" ∷ world.index) world.kv).0 ↔ (
          (sid : Text) × Memᴰ sid (str "gone" ∷ world.index)
          × (get_session memory_ops noon sid world.kv ≡ some d)))
    × ((sid : Text)
        → Memᴰ sid (list_all memory_ops noon (str "gone" ∷ world.index) world.kv).1 ↔ (
            Memᴰ sid (str "gone" ∷ world.index)
            × (get_session memory_ops noon sid world.kv ≢ none)))
list_all_iff_example = list_all_iff memory_ops noon world.kv (str "gone" ∷ world.index)
