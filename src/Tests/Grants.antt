-- ===== src/Tests/Grants.antt =====
-- The token endpoint at concrete requests.
use one_auth.Base.{
  ℕ, List, ◌+◌, ◌≡◌, refl, ap, ◌∙◌, Option, none, some, [], ◌∷◌, Text, str, text_eq, is_empty,
  drop_while, pos, seconds, arith, if◌then◌else◌, next, inl, inr,
}
use one_auth.Model.Payload.{AuthCodeData, RefreshTokenData, refresh, auth_code}
use one_auth.Model.User.{get_by_id}
use one_auth.Model.Client.{get_by_client_id, normalize_redirect_uri}
use one_auth.Store.Memory.{MemoryStore, new_memory_store, set, get, find, put}
use one_auth.Store.Memory.Laws.{memory_ops, memory_ops-IsStore}
use one_auth.Oauth.Jwt.{rs256}
use one_auth.Oauth.Code.{fetch, fetched, not_found, refused, client_mismatch, save}
use one_auth.Oauth.Code.Laws.{stamped, fetch-save}
use one_auth.Oauth.Token.{issue_access_token, save_refresh_token, load_refresh_token}
use one_auth.Handler.Env.{Env, World, Fresh, Request, verify_pkce, resolve_subject}
use one_auth.Handler.Authorize.{code_data, authorize}
use one_auth.Handler.Grant.{
  TokenReply, TokenResponse, bad_code, tokens, code_response, refresh_response, auth_code_grant,
  token, verify_exchange, access_for, refresh_token_grant, rotate, finish_refresh,
  authenticate_client,
}
use one_auth.Handler.Grant.Exchange.{
  Exchanged, auth_code_grant-fetched, auth_code_grant-Exchanged, auth_code_grant_once,
}
use one_auth.Handler.Grant.Rotation.{Rotated, refresh_token_grant-Rotated}
use one_auth.Handler.Grant.Complete.{redeem-tokens}
use one_auth.Handler.Grant.Race.{
  Call, Presents, race, start, HasTokens, run_turns, Turn, left, right, answered,
}
use one_auth.Handler.CodeFlow.{code_flow}
use one_auth.Tests.Stores.{memory_writes}
use one_auth.Tests.Data.{alice, portal, service, sign_known-access}
use one_auth.Tests.Tokens.{noon, claims_for, identity_claims}
use one_auth.Tests.Endpoints.{
  env, fresh, request, authorize_param, token_param, alice_session, world, checked_request,
  precheck_passes, session_found, open_to_all,
}

abbrev issued_code : AuthCodeData
issued_code = stamped noon (code_data memory_ops noon fresh checked_request alice_session)

-- The world after the authorization endpoint has saved the code.
abbrev code_world : World MemoryStore
code_world = record world {
  kv = set noon (str "auth_code:c1") (auth_code issued_code) env.code_ttl new_memory_store;
}

code_found : fetch memory_ops noon (str "c1") (str "portal") code_world.kv ≡ fetched issued_code
unfolding fetch set get find put text_eq
code_found = refl

fetch-save_example :
    fetch memory_ops noon (str "c1") (str "intruder") code_world.kv ≡ refused client_mismatch
unfolding save text_eq
fetch-save_example =
    (fetch-save memory_ops memory_ops-IsStore noon noon env.code_ttl
        (code_data memory_ops noon fresh checked_request alice_session) (str "intruder")
        new_memory_store _ refl refl).0
      (omega arith)

exchange_verified : verify_exchange env (request token_param) issued_code ≡ next alice
unfolding verify_exchange normalize_redirect_uri drop_while text_eq is_empty verify_pkce get_by_id
exchange_verified = refl

access_signed : access_for env noon fresh portal alice (str "a1") (str "openid") ≡ some (1 ∷ [])
unfolding access_for issue_access_token resolve_subject seconds text_eq
access_signed = sign_known-access (claims_for (pos 7_200_000_000_000)) identity_claims rs256

abbrev stranger : Request
stranger = record (request token_param) { client_ip = str "10.6.6.6" }

-- The world after the code was redeemed.
abbrev spent_world : World MemoryStore
spent_world = (auth_code_grant memory_ops env noon fresh (request token_param) portal code_world).1

auth_code_grant_once_example :
    auth_code_grant memory_ops env (noon + 1) fresh stranger portal spent_world
    ≡ (bad_code not_found, spent_world)
unfolding text_eq
auth_code_grant_once_example =
    auth_code_grant_once memory_ops memory_ops-IsStore env noon (noon + 1) fresh fresh
      (request token_param) stranger portal portal code_world issued_code code_found refl

abbrev answer : TokenResponse
answer = code_response env noon fresh portal issued_code alice (1 ∷ []) none

code_redeemed :
    (auth_code_grant memory_ops env noon fresh (request token_param) portal code_world).0
    ≡ tokens answer
unfolding text_eq
code_redeemed =
    ap (λ (p : TokenReply × World MemoryStore). p.0)
      (auth_code_grant-fetched memory_ops env noon fresh (request token_param) portal issued_code
        code_world code_found)
    ∙ redeem-tokens memory_ops env (request token_param) portal noon fresh issued_code alice
        (1 ∷ []) code_world refl exchange_verified access_signed

auth_code_grant-Exchanged_example :
    Exchanged memory_ops env noon fresh (request token_param) portal code_world answer
auth_code_grant-Exchanged_example =
    auth_code_grant-Exchanged memory_ops env noon fresh (request token_param) portal code_world
      answer code_redeemed

first_saved :
    save memory_ops noon env.code_ttl
      (code_data memory_ops noon fresh checked_request alice_session)
      new_memory_store
    ≡ some code_world.kv
unfolding save set
first_saved = refl

-- A server that signs everything
abbrev signing_env : Env
signing_env = record env { jwt = record { sign = λ m c. some (1 ∷ []); parse = λ m now t. none } }

always_signs :
    (now : ℕ) (drawn : Fresh)
    → (access : Text) × (access_for signing_env now drawn portal alice (str "a1") (str "openid")
        ≡ some access)
unfolding access_for issue_access_token
always_signs now drawn = (1 ∷ [], refl)

abbrev call : Call
call = record { fresh = fresh; request = request token_param }

user_found : get_by_id (str "a1") (alice ∷ []) ≡ some alice
unfolding get_by_id text_eq
user_found = refl

call-Presents :
    Presents memory_ops memory_ops-IsStore signing_env portal alice
      (code_data memory_ops noon fresh checked_request alice_session)
      refl
      memory_writes
      user_found
      always_signs
      noon
      call
unfolding normalize_redirect_uri drop_while text_eq
call-Presents = (refl, (refl, λ n. (refl, refl)))

race_example :
    let both =
      λ (ts : List Turn). run_turns memory_ops signing_env portal call call ts (start code_world) in
    let crossed = both (left noon ∷ right (noon + 1) ∷ left (noon + 2) ∷ right (noon + 3) ∷ []) in
    let in_turn = both (left noon ∷ left (noon + 1) ∷ right (noon + 2) ∷ right (noon + 3) ∷ []) in
    (HasTokens crossed.on_left × HasTokens crossed.on_right)
    × (HasTokens in_turn.on_left × (in_turn.on_right ≡ answered (bad_code not_found)))
race_example =
    race memory_ops memory_ops-IsStore signing_env portal alice
      (code_data memory_ops noon fresh checked_request alice_session) refl memory_writes user_found
      always_signs noon env.code_ttl new_memory_store code_world first_saved refl call call
      call-Presents call-Presents noon (noon + 1) (noon + 2) (noon + 3) (omega arith) (omega arith)

client_authenticated : authenticate_client env (request token_param) ≡ next portal
unfolding authenticate_client get_by_client_id text_eq
client_authenticated = refl

abbrev saved_kv : MemoryStore
saved_kv = set noon (str "auth_code:c1") (auth_code issued_code) env.code_ttl world.kv

code_saved :
    save memory_ops noon env.code_ttl
      (code_data memory_ops noon fresh checked_request alice_session)
      world.kv
    ≡ some saved_kv
unfolding save
code_saved = refl

-- From the session to the tokens.
code_flow_example :
    (token memory_ops env noon fresh
      (request token_param)
      (authorize memory_ops env noon fresh (request authorize_param) world).1).0
    ≡ tokens answer
unfolding get_by_id text_eq normalize_redirect_uri drop_while
code_flow_example =
    code_flow memory_ops memory_ops-IsStore env noon noon fresh fresh (request authorize_param)
      (request token_param) checked_request alice_session (str "a1") world world saved_kv alice
      (1 ∷ []) precheck_passes session_found refl open_to_all (inr (inl refl)) code_saved refl
      (omega arith) refl refl client_authenticated refl refl refl (λ _. (refl, refl)) refl
      access_signed

abbrev refresh_param : Text → Option Text
refresh_param key = if text_eq key (str "refresh_token") then some (str "r0") else none

abbrev old_token : RefreshTokenData
old_token = record {
  token = str "r0";
  user_id = str "a1";
  client_id = str "portal";
  scope = str "openid";
}

abbrev refresh_world : World MemoryStore
refresh_world = record world {
  kv = set noon (str "refresh:r0") (refresh old_token) service.refresh_ttl new_memory_store;
}

refresh_answered :
    (refresh_token_grant memory_ops env noon fresh (request refresh_param) portal refresh_world).0
    ≡ tokens (refresh_response env noon fresh portal old_token alice)
unfolding refresh_token_grant is_empty text_eq load_refresh_token get find set put rotate get_by_id
    finish_refresh save_refresh_token
refresh_answered = refl

refresh_token_grant-Rotated_example :
    Rotated memory_ops env noon fresh
      (request refresh_param)
      portal
      refresh_world
      (refresh_token_grant memory_ops env noon fresh (request refresh_param) portal refresh_world).1
      (refresh_response env noon fresh portal old_token alice)
refresh_token_grant-Rotated_example =
    refresh_token_grant-Rotated memory_ops memory_ops-IsStore env noon fresh (request refresh_param)
      portal refresh_world (refresh_response env noon fresh portal old_token alice) refresh_answered
