-- ===== src/Handler/Renew.antt =====
-- internal/handler/auth_handler.go, Refresh and Logout, with the time of the last activity in
-- internal/middleware/activity.go. The function uuid.Parse is a parameter.
pub mod Renewed
pub mod Activity
use one_auth.Base.{
  ℕ, ◌-◌, ◌*◌, Bool, true, false, ◌&&◌, Option, none, some, or_else, and_then, List, [], Text, str,
  text_eq, is_empty, if◌then◌else◌, ℤ, pos, is_positive, ltz, second, seconds, whole_seconds,
}
use one_auth.Model.Payload.{RefreshTokenData, as_number}
use one_auth.Model.User.{User, get_by_id}
use one_auth.Store.{StoreOps}
use one_auth.Oauth.Token.{
  issue_access_token, save_refresh_token, load_refresh_token, delete_refresh_token,
}
use one_auth.Session.{delete_session}
use one_auth.Handler.Env.{Fresh, nil_uuid}
use one_auth.Handler.Settings.{Config, atoi}
use one_auth.Handler.Login.{AuthHandler, AuthWorld, activity_key}
use one_auth.Handler.Login.Serve.{admin_client_id}
use one_auth.Handler.Login.Counters.{mark_active}

abbrev positive_seconds : Option ℤ → ℤ
positive_seconds none = pos 0
positive_seconds (some n) = if is_positive n then seconds n else pos 0

-- sessionTimeout, 0 for none
unfoldable pub session_timeout : Config → ℤ
session_timeout cfg = positive_seconds (atoi (cfg (str "session_timeout")))

pub record RefreshResponse : Type 0 where
  pub access_token : Text
  pub refresh_token : Text
  pub expires_in : ℤ

pub data RefreshReply : Type 0 where
  bad_request : RefreshReply
  token_expired : RefreshReply
  no_user : RefreshReply
  timed_out : RefreshReply
  server_error : RefreshReply
  renewed : RefreshResponse → RefreshReply

-- A request as the middleware TouchActivity sees it, after it was served
pub record Served : Type 0 where
  pub status : ℕ
  pub user_action : Text
  pub user_id : Text

module _ {S : Type 0} (o : StoreOps S) where
  -- middleware.LastActiveAt, in seconds; none for the zero time
  unfoldable pub last_active_at : ℕ → Text → S → Option ℕ
  last_active_at now user_id s =
      if is_empty user_id then none else and_then (o.get now (activity_key user_id) s) as_number

  -- middleware.TouchActivity
  unfoldable pub touch_activity : ℕ → Served → S → S
  touch_activity now c s =
      if ltz (pos c.status) (pos 400) && text_eq c.user_action (str "1")
      then mark_active o now c.user_id s
      else s

  -- timeout > 0 && !lastActive.IsZero() && time.Since(lastActive) > timeout
  unfoldable pub is_timed_out : AuthHandler → ℕ → Text → S → Bool
  is_timed_out h now user_id s =
      let timeout : ℤ = session_timeout h.config in
      if is_positive timeout
      then elim (last_active_at now user_id s) [
        | none ↦ false
        | some t ↦ ltz timeout (pos (now - t * second))
      ]
      else false

  module _ (parse_uuid : Text → Option Text) (h : AuthHandler) (now : ℕ) (fresh : Fresh) where
    -- The first party's tokens live as long as a session.
    abbrev pub refreshed_ttl : RefreshTokenData → ℤ
    refreshed_ttl rt = if text_eq rt.client_id admin_client_id then h.session_ttl else pos 0

    unfoldable pub renew : RefreshTokenData → User → AuthWorld S → RefreshReply × AuthWorld S
    renew rt u w =
        elim (save_refresh_token o h.ts now fresh.refresh_token rt.user_id rt.client_id rt.scope
          (pos 0) w.kv) [
            | none ↦ (server_error, w)
            | some kv ↦ (
              renewed (record {
                access_token =
                    or_else
                      (issue_access_token h.jwt h.ts now fresh.access_jti u.username rt.user_id
                        rt.client_id u.username rt.scope (refreshed_ttl rt))
                      [];
                refresh_token = fresh.refresh_token;
                expires_in = whole_seconds h.ts.access_ttl;
              }),
              record w { kv = kv },
            )
          ]

    unfoldable pub refresh_user :
        Text → RefreshTokenData → User → AuthWorld S → RefreshReply × AuthWorld S
    refresh_user token rt u w =
        let w' : AuthWorld S = record w { kv = delete_refresh_token o token w.kv } in
        if is_timed_out h now rt.user_id w.kv then (timed_out, w') else renew rt u w'

    -- AuthHandler.Refresh
    unfoldable pub refresh : Text → AuthWorld S → RefreshReply × AuthWorld S
    refresh token w =
        if is_empty token then (bad_request, w) else elim (load_refresh_token o now token w.kv) [
          | none ↦ (token_expired, w)
          | some rt ↦ elim (get_by_id (or_else (parse_uuid rt.user_id) nil_uuid) w.users) [
            | none ↦ (no_user, w)
            | some u ↦ refresh_user token rt u w
          ]
        ]

  -- AuthHandler.Logout: the session of the cookie, if there is one
  unfoldable pub logout : Option Text → AuthWorld S → AuthWorld S
  logout none w = w
  logout (some sid) w =
      if is_empty sid
      then w
      else (let (index, kv) = delete_session o sid w.index w.kv in
          record w { index = index; kv = kv })
