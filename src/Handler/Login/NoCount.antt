-- ===== src/Handler/Login/NoCount.antt =====
-- No login writes the counter that the captcha gate reads: the store of each branch of Login.
use one_auth.Base.{
  ℕ, ◌≡◌, ◌⊎◌, inl, inr, refl, ◌&&◌, ◌||◌, not, Option, none, some, Text, str, if_intro,
  Option-cases, Flow-cases, pos, ltb, ltz, is_empty,
}
use one_auth.Model.User.{User}
use one_auth.Store.{StoreOps, IsStore}
use one_auth.Oauth.Token.{save_refresh_token}
use one_auth.Session.{create}
use one_auth.LoginRule.{evaluate}
use one_auth.Account.{
  AuthError, bad_credentials, disabled, locked, not_found, authenticate, find_login_user,
  lock_until,
}
use one_auth.Account.Ldap.{FreshUser, ldap_authenticate}
use one_auth.IpAccess.{is_black_banned}
use one_auth.Handler.Env.{Fresh, session_display_name}
use one_auth.Handler.Settings.{login_lockout_threshold}
use one_auth.Handler.Login.{
  AuthHandler, AuthWorld, LoginRequest, LoginReply, login_fail_key, user_fail_key, ip_fail_key,
}
use one_auth.Handler.Login.Counters.{
  needs_captcha, consume_ticket, record_user_fail, clear_login_fail, clear_user_fail, clear_ip_fail,
}
use one_auth.Handler.Login.Serve.{
  login_name, lock_end, admin_client_id, admin_default_scope, log_failure, fail_once, lock_now,
  count_failure, login_failed, clear_counters, sign_in, admit, try_ldap, check_login, captcha_gate,
  lock_gate, login,
}
use one_auth.Handler.Login.Captcha.{
  key, Kept, kept_del, kept_create, kept_refresh, kept_fail, kept_activity, kept_ip, kept_ticket,
  IsKept-trans,
}

module _ {S : Type 0} (o : StoreOps S) (laws : IsStore o) (later : ℕ) (username ip : Text)
    (h : AuthHandler) (now : ℕ) (req : LoginRequest) where
  -- The store that an outcome leaves
  abbrev Keeps : S → LoginReply × AuthWorld S → Type 0
  Keeps s r = Kept o laws later username ip s r.1.kv

  abbrev via :
      (r s t : S)
      → Kept o laws later username ip r s
      → Kept o laws later username ip s t
      → Kept o laws later username ip r t
  via r s t = IsKept-trans o later (key o laws later username ip) r s t

  Keeps-fail_once :
      (found : Option User) (n : ℕ) (w : AuthWorld S) → Keeps w.kv (fail_once o h now req found n w)
  unfolding fail_once
  Keeps-fail_once found n w = kept_ip o laws later username ip h now req.client_ip w

  Keeps-lock_now : (u : User) (n : ℕ) (w : AuthWorld S) → Keeps w.kv (lock_now o h now req u n w)
  unfolding lock_now clear_user_fail clear_login_fail
  Keeps-lock_now u n w =
      elim (Option-cases (lock_until u.id (lock_end h now) (str "login_failure") w.users)) [
        | inl e ↦ rw (lock_now, e) (Keeps-fail_once (some u) n w)
        | inr (us, e) ↦
            let s : S = o.del (login_fail_key (login_name o h now req) req.client_ip) w.kv in
            rw (lock_now, e)
              (via w.kv s (o.del (user_fail_key (login_name o h now req)) s)
                (kept_del o laws later username ip _ w.kv) (kept_del o laws later username ip _ s))
      ]

  Keeps-count_failure :
      (found : Option User) (w : AuthWorld S) → Keeps w.kv (count_failure o h now req found w)
  unfolding count_failure
  Keeps-count_failure none w =
      let (n, kv) = record_user_fail o now (login_name o h now req) w.kv in
      via w.kv kv _ (kept_fail o laws later username ip now (login_name o h now req) w.kv)
        (Keeps-fail_once none n (record w { kv = kv }))
  Keeps-count_failure (some u) w =
      let (n, kv) = record_user_fail o now (login_name o h now req) w.kv in
      if_intro (Keeps w.kv) (ltb 0 n && not (ltz (pos n) (login_lockout_threshold h.config)))
        (λ _.
          via w.kv kv _ (kept_fail o laws later username ip now (login_name o h now req) w.kv)
            (Keeps-lock_now u n (record w { kv = kv })))
        (λ _.
          via w.kv kv _ (kept_fail o laws later username ip now (login_name o h now req) w.kv)
            (Keeps-fail_once (some u) n (record w { kv = kv })))

  Keeps-login_failed :
      (e : AuthError) (found : Option User) (w : AuthWorld S)
      → Keeps w.kv (login_failed o h now req e found w)
  unfolding login_failed
  Keeps-login_failed disabled found w = inl refl
  Keeps-login_failed locked found w = inl refl
  Keeps-login_failed bad_credentials found w = Keeps-count_failure found w
  Keeps-login_failed not_found found w = Keeps-count_failure found w

  kept-clear_counters :
      (u : User) (s : S) → Kept o laws later username ip s (clear_counters o h now req u s)
  unfolding clear_counters clear_ip_fail clear_user_fail clear_login_fail
  kept-clear_counters u s =
      let a : S = o.del (login_fail_key (login_name o h now req) req.client_ip) s in
      let b : S = o.del (user_fail_key (login_name o h now req)) a in
      let c : S = o.del (ip_fail_key req.client_ip) b in
      via s c _
        (via s b c
          (via s a b (kept_del o laws later username ip _ s)
            (kept_del o laws later username ip _ a))
          (kept_del o laws later username ip _ b))
        (kept_activity o laws later username ip now u.id c)

  Keeps-sign_in :
      (fresh : Fresh) (m : Text) (u : User) (w : AuthWorld S)
      → Keeps w.kv (sign_in o h now req fresh m u w)
  unfolding sign_in
  Keeps-sign_in fresh m u w =
      elim (Option-cases (
        create o h.session_ttl now fresh.session_id u.id u.username (session_display_name u)
          req.client_ip req.user_agent u.is_staff w.index w.kv)) [
            | inl e ↦ rw (sign_in, e) (inl refl)
            | inr (c, e) ↦
                let q =
                  kept_create o laws later username ip _ now _ _ _ _ _ _ _ _ w.kv c.0 c.1 c.2 e in
                elim (Option-cases (
                  save_refresh_token o h.ts now fresh.refresh_token u.id admin_client_id
                    admin_default_scope (pos 0) c.2)) [
                      | inl e' ↦ rw (sign_in, e, e') q
                      | inr (kv, e') ↦
                          rw (sign_in, e, e')
                            (via w.kv kv _
                              (via w.kv c.2 kv q
                                (kept_refresh o laws later username ip _ now _ _ _ _ _ c.2 kv e'))
                              (kept-clear_counters u kv))
                    ]
          ]

  Keeps-admit :
      (fresh : Fresh) (m : Text) (u : User) (w : AuthWorld S)
      → Keeps w.kv (admit o h now req fresh m u w)
  unfolding admit
  Keeps-admit fresh m u w =
      let r = evaluate h.net h.rules u.id req.client_ip (h.local now) in
      if_intro (Keeps w.kv) r.0 (λ _. Keeps-sign_in fresh m u w)
        (λ _. elim (Option-cases r.1) [
          | inl e ↦ rw (e) (Keeps-sign_in fresh m u w)
          | inr (x, e) ↦ rw (e) (inl refl)
        ])

  Keeps-try_ldap :
      (fresh : Fresh) (f : FreshUser) (e : AuthError) (found : Option User) (w : AuthWorld S)
      → Keeps w.kv (try_ldap o h now req fresh f e found w)
  unfolding try_ldap
  Keeps-try_ldap fresh f err found w =
      let r = ldap_authenticate h.directory now f (login_name o h now req) req.password w.users in
      let w' : AuthWorld S = record w { users = r.1 } in
      if_intro (Keeps w.kv) h.directory.enabled
        (λ _. elim (Option-cases r.0) [
          | inl e ↦
              rw (e) (Keeps-login_failed err found (log_failure o h now req none (str "ldap") w'))
          | inr (u, e) ↦ rw (e) (Keeps-admit fresh (str "ldap") u w')
        ])
        (λ _. Keeps-login_failed err found w)

  Keeps-check_login :
      (fresh : Fresh) (f : FreshUser) (found : Option User) (w : AuthWorld S)
      → Keeps w.kv (check_login o h now req fresh f found w)
  unfolding check_login
  Keeps-check_login fresh f found w =
      let r = authenticate h.verify now (login_name o h now req) req.password w.users in
      let w' : AuthWorld S = record w { users = r.1 } in
      elim (Flow-cases r.0) [
        | inl (e, k) ↦ rw (check_login, k) (Keeps-try_ldap fresh f e found w')
        | inr (u, k) ↦ rw (check_login, k) (Keeps-admit fresh (str "password") u w')
      ]

  Keeps-captcha_gate :
      (fresh : Fresh) (f : FreshUser) (found : Option User) (w : AuthWorld S)
      → Keeps w.kv (captcha_gate o h now req fresh f found w)
  unfolding captcha_gate
  Keeps-captcha_gate fresh f found w =
      if_intro (Keeps w.kv) (needs_captcha o h now (login_name o h now req) req.client_ip w.kv)
        (λ _. elim (Option-cases (consume_ticket o now req.captcha_ticket w.kv)) [
          | inl e ↦ rw (e) (inl refl)
          | inr (kv, e) ↦ rw (e) (
              via w.kv kv _ (kept_ticket o laws later username ip now req.captcha_ticket w.kv kv e)
                (Keeps-check_login fresh f found (record w { kv = kv })))
        ])
        (λ _. Keeps-check_login fresh f found w)

  -- Whatever a login answers, and whoever it is for, the counter of failures that the captcha gate
  -- reads, of any user name and address and at any instant, holds afterwards what it held before, or
  -- nothing: no failed login is counted there.
  pub login-no_count :
      (fresh : Fresh) (f : FreshUser) (w : AuthWorld S)
      → (o.get later (login_fail_key username ip) (login o h now req fresh f w).1.kv
          ≡ o.get later (login_fail_key username ip) w.kv)
        ⊎ (o.get later (login_fail_key username ip) (login o h now req fresh f w).1.kv ≡ none)
  unfolding login lock_gate
  login-no_count fresh f w =
      let r = find_login_user now (login_name o h now req) w.users in
      let w' : AuthWorld S = record w { users = r.1 } in
      if_intro (Keeps w.kv) (is_empty req.username || is_empty req.password) (λ _. inl refl)
        (λ _.
          if_intro (Keeps w.kv) (is_black_banned now req.client_ip w.ip_access) (λ _. inl refl)
            (λ _. elim (Option-cases r.0) [
              | inl e ↦ rw (e) (Keeps-captcha_gate fresh f none w')
              | inr (u, e) ↦ rw (e) (
                  if_intro (Keeps w.kv) u.is_locked (λ _. inl refl)
                    (λ _. Keeps-captcha_gate fresh f (some u) w'))
            ]))
