-- ===== src/Handler/Login/Serve.antt =====
-- internal/handler/auth_handler.go, Login, from the request to the answer.
use one_auth.Base.{
  ℕ, ◌-◌, ◌&&◌, ◌||◌, not, Option, none, some, or_else, [], Text, str, is_empty, if◌then◌else◌, ltb,
  ℤ, pos, is_positive, pos_part, ltz, add_duration, whole_seconds, next, reply,
}
use one_auth.Model.User.{User}
use one_auth.Store.{StoreOps}
use one_auth.Oauth.Token.{issue_access_token, save_refresh_token}
use one_auth.Session.{create}
use one_auth.LoginRule.{trim_space, evaluate}
use one_auth.Account.{
  AuthError, bad_credentials, disabled, locked, not_found, find_login_user, authenticate,
  lock_until,
}
use one_auth.Account.Ldap.{FreshUser, ldap_authenticate}
use one_auth.IpAccess.{is_black_banned}
use one_auth.Handler.Env.{Fresh, session_display_name}
use one_auth.Handler.Settings.{login_lockout_threshold, login_lockout_duration}
use one_auth.Handler.Login.{
  AuthHandler, AuthWorld, LoginRequest, LoginReply, bad_request, ip_banned, account_locked,
  captcha_required, refused, wrong_password, denied, server_error, signed_in, record_login, id_of,
  name_of, shown_until,
}
use one_auth.Handler.Login.Counters.{
  needs_captcha, consume_ticket, clear_login_fail, record_user_fail, clear_user_fail, clear_ip_fail,
  record_ip_fail, mark_active,
}

abbrev pub admin_client_id : Text
admin_client_id = str "sso-admin"

abbrev pub admin_default_scope : Text
admin_default_scope = str "openid profile email roles"

-- The lock after too many failures: its end, or none for a lock without end
abbrev pub lock_end : AuthHandler → ℕ → Option ℕ
lock_end h now =
    let d : ℤ = login_lockout_duration h.config in
    if is_positive d then some (add_duration now d) else none

module _ {S : Type 0} (o : StoreOps S) (h : AuthHandler) (now : ℕ) (req : LoginRequest) where
  -- req.Username after TrimSpace
  abbrev pub login_name : Text
  login_name = trim_space req.username

  abbrev pub log_failure : Option User → Text → AuthWorld S → AuthWorld S
  log_failure found method w =
      record_login (id_of found) (name_of found login_name) req.client_ip method (str "failure") w

  -- A wrong password that does not lock: what is left, and the count of the address
  unfoldable pub fail_once : Option User → ℕ → AuthWorld S → LoginReply × AuthWorld S
  fail_once found count w = (
    wrong_password (pos_part (login_lockout_threshold h.config) - count),
    log_failure found (str "password") (record_ip_fail o h now req.client_ip w),
  )

  -- LockUntil of the user of the login name
  unfoldable pub lock_now : User → ℕ → AuthWorld S → LoginReply × AuthWorld S
  lock_now u count w = elim (lock_until u.id (lock_end h now) (str "login_failure") w.users) [
    | none ↦ fail_once (some u) count w
    | some us ↦ (
      account_locked (lock_end h now),
      log_failure (some u) (str "password") (record w {
        users = us;
        kv = clear_user_fail o login_name (clear_login_fail o login_name req.client_ip w.kv);
      }),
    )
  ]

  -- The branch of a wrong password
  unfoldable pub count_failure : Option User → AuthWorld S → LoginReply × AuthWorld S
  count_failure found w =
      let (count, kv) = record_user_fail o now login_name w.kv in
      let w' = record w { kv = kv } in
      elim found [
        | none ↦ fail_once none count w'
        | some u ↦
            if ltb 0 count && not (ltz (pos count) (login_lockout_threshold h.config))
            then lock_now u count w'
            else fail_once (some u) count w'
      ]

  unfoldable pub login_failed : AuthError → Option User → AuthWorld S → LoginReply × AuthWorld S
  login_failed disabled found w = (refused disabled, log_failure none (str "password") w)
  login_failed locked found w = (refused locked, log_failure none (str "password") w)
  login_failed bad_credentials found w = count_failure found w
  login_failed not_found found w = count_failure found w

  -- The two keys of the counters and that of the address, and the mark of activity
  unfoldable pub clear_counters : User → S → S
  clear_counters u s = mark_active o now u.id (
      clear_ip_fail o req.client_ip
        (clear_user_fail o login_name (clear_login_fail o login_name req.client_ip s)))

  -- The session and the tokens of a user who is let in; a failing signature leaves "".
  unfoldable pub sign_in : Fresh → Text → User → AuthWorld S → LoginReply × AuthWorld S
  sign_in fresh method u w =
      elim (create o h.session_ttl now fresh.session_id u.id u.username (session_display_name u)
        req.client_ip req.user_agent u.is_staff w.index w.kv) [
          | none ↦ (server_error, w)
          | some (d, index, kv) ↦
              elim (save_refresh_token o h.ts now fresh.refresh_token u.id admin_client_id
                admin_default_scope (pos 0) kv) [
                  | none ↦ (server_error, record w { index = index; kv = kv })
                  | some kv' ↦ (
                    signed_in d (record {
                      access_token =
                          or_else
                            (issue_access_token h.jwt h.ts now fresh.access_jti u.username u.id
                              admin_client_id u.username admin_default_scope h.session_ttl)
                            [];
                      refresh_token = fresh.refresh_token;
                      expires_in = whole_seconds h.ts.access_ttl;
                      user = u;
                    }),
                    record_login (some u.id) u.username req.client_ip method (str "success")
                        (record w { index = index; kv = clear_counters u kv' }),
                  )
                ]
        ]

  unfoldable pub admit : Fresh → Text → User → AuthWorld S → LoginReply × AuthWorld S
  admit fresh method u w =
      let (allowed, hit) = evaluate h.net h.rules u.id req.client_ip (h.local now) in
      if allowed then sign_in fresh method u w else elim hit [
        | none ↦ sign_in fresh method u w
        | some r ↦ (
          denied r.name,
          record_login (some u.id) u.username req.client_ip (str "password") (str "failure") w,
        )
      ]

  -- A login that failed here, and what the directory says of it
  unfoldable pub try_ldap :
      Fresh → FreshUser → AuthError → Option User → AuthWorld S → LoginReply × AuthWorld S
  try_ldap fresh f e found w =
      if h.directory.enabled
      then (let (m, us) = ldap_authenticate h.directory now f login_name req.password w.users in
          let w' = record w { users = us } in
          elim m [
            | some u ↦ admit fresh (str "ldap") u w'
            | none ↦ login_failed e found (log_failure none (str "ldap") w')
          ])
      else login_failed e found w

  unfoldable pub check_login :
      Fresh → FreshUser → Option User → AuthWorld S → LoginReply × AuthWorld S
  check_login fresh f found w =
      let (m, us) = authenticate h.verify now login_name req.password w.users in
      let w' = record w { users = us } in
      elim m [ next u ↦ admit fresh (str "password") u w' | reply e ↦ try_ldap fresh f e found w' ]

  unfoldable pub captcha_gate :
      Fresh → FreshUser → Option User → AuthWorld S → LoginReply × AuthWorld S
  captcha_gate fresh f found w =
      if needs_captcha o h now login_name req.client_ip w.kv
      then elim (consume_ticket o now req.captcha_ticket w.kv) [
        | none ↦ (captcha_required, w)
        | some kv ↦ check_login fresh f found (record w { kv = kv })
      ]
      else check_login fresh f found w

  unfoldable pub lock_gate :
      Fresh → FreshUser → Option User → AuthWorld S → LoginReply × AuthWorld S
  lock_gate fresh f none w = captcha_gate fresh f none w
  lock_gate fresh f (some u) w =
      if u.is_locked
      then (account_locked (shown_until now u.lock_until), log_failure (some u) (str "password") w)
      else captcha_gate fresh f (some u) w

  -- AuthHandler.Login
  unfoldable pub login : Fresh → FreshUser → AuthWorld S → LoginReply × AuthWorld S
  login fresh f w =
      if is_empty req.username || is_empty req.password
      then (bad_request, w)
      else if is_black_banned now req.client_ip w.ip_access
      then (ip_banned, log_failure none (str "password") w)
      else (let (found, us) = find_login_user now login_name w.users in
          lock_gate fresh f found (record w { users = us }))
