-- ===== src/Handler/Login/Lockout.antt =====
-- The lock after too many wrong passwords, from one request to the next.
use one_auth.Base.{
  ℕ, ◌≡◌, ◌<◌, ◌⊎◌, inl, inr, Bool-cases, none, refl, ap, ◌∙◌, true, false, ◌||◌, some, [], str,
  is_empty, ltz, pos, arith,
}
use one_auth.Model.User.{User, get_by_id}
use one_auth.Store.{StoreOps}
use one_auth.Account.{
  by_login_name, find_login_user, authenticate, check_password, lock_until, lapsed, lock_account,
}
use one_auth.Account.Ldap.{FreshUser, ldap_authenticate}
use one_auth.Account.Lock.{locked_out}
use one_auth.IpAccess.{is_black_banned}
use one_auth.Handler.Env.{Fresh}
use one_auth.Handler.Settings.{login_lockout_threshold}
use one_auth.Handler.Login.{
  AuthHandler, AuthWorld, LoginRequest, LoginReply, account_locked, shown_until,
}
use one_auth.Handler.Login.Counters.{needs_captcha, consume_ticket, record_user_fail}
use one_auth.Handler.Login.Serve.{
  login_name, log_failure, lock_end, lock_now, count_failure, login_failed, try_ldap, check_login,
  captcha_gate, lock_gate, login,
}

module _ {S : Type 0} (o : StoreOps S) (h : AuthHandler) where
  -- A request that gets as far as the account.
  abbrev pub Reaches : ℕ → LoginRequest → AuthWorld S → Type 0
  Reaches now req w =
      ((is_empty req.username || is_empty req.password) ≡ false)
      × (is_black_banned now req.client_ip w.ip_access ≡ false)

  -- The store after the captcha gate has let the request pass: as it was, or without the ticket
  abbrev pub AfterCaptcha : ℕ → LoginRequest → S → S → Type 0
  AfterCaptcha now req s t =
      ((needs_captcha o h now (login_name o h now req) req.client_ip s ≡ false) × (t ≡ s))
      ⊎ ((needs_captcha o h now (login_name o h now req) req.client_ip s ≡ true)
          × (consume_ticket o now req.captcha_ticket s ≡ some t))

  -- The directory is off, or does not take the password.
  abbrev pub NotInDirectory : ℕ → LoginRequest → Type 0
  NotInDirectory now req =
      (h.directory.enabled ≡ false)
      ⊎ (h.directory.bind (login_name o h now req) req.password ≡ none)

  -- A wrong password, here and in the directory, for an active user who is not locked, past the
  -- captcha gate, and with a count that reaches the threshold
  abbrev pub LastTry : ℕ → LoginRequest → User → S → AuthWorld S → Type 0
  LastTry now req u t w =
      (by_login_name (login_name o h now req) w.users ≡ some u)
      × ((get_by_id u.id w.users ≡ some u)
          × ((u.is_active ≡ true)
              × ((u.is_locked ≡ false)
                  × ((h.verify u.password_hash req.password ≡ false)
                      × (NotInDirectory now req
                          × (AfterCaptcha now req w.kv t
                              × ((0 < (record_user_fail o now (login_name o h now req) t).0)
                                  × (ltz (pos (record_user_fail o now (login_name o h now req) t).0)
                                        (login_lockout_threshold h.config)
                                      ≡ false))))))))

  -- Such a login goes to LockUntil, with the rows of users as they were.
  LastTry-check_login :
      (now : ℕ) (req : LoginRequest) (fresh : Fresh) (f : FreshUser) (u : User) (t : S)
      (w : AuthWorld S)
      → LastTry now req u t w
      → (w' : AuthWorld S) × ((w'.users ≡ w.users)
          × (check_login o h now req fresh f (some u) (record w { kv = t })
              ≡ lock_now o h now req u (record_user_fail o now (login_name o h now req) t).0 w'))
  unfolding check_login authenticate check_password try_ldap login_failed count_failure
      ldap_authenticate
  LastTry-check_login now req fresh f u t w (n, (i, (a, (l, (v, (d, (c, (z, k)))))))) =
      let kv : S = (record_user_fail o now (login_name o h now req) t).1 in
      elim (Bool-cases h.directory.enabled) [
        | inr off ↦ (record w { kv = kv }, (refl, ground arith))
        | inl on ↦ (
          record (log_failure o h now req none (str "ldap") (record w { kv = t })) { kv = kv },
          (refl, ground arith),
        )
      ]

  LastTry-login :
      (now : ℕ) (req : LoginRequest) (fresh : Fresh) (f : FreshUser) (u : User) (t : S)
      (w : AuthWorld S)
      → Reaches now req w
      → LastTry now req u t w
      → (w' : AuthWorld S) × ((w'.users ≡ w.users)
          × (login o h now req fresh f w
              ≡ lock_now o h now req u (record_user_fail o now (login_name o h now req) t).0 w'))
  unfolding login find_login_user lock_gate captcha_gate
  LastTry-login now req fresh f u t w (e, b) last =
      let (n, (i, (a, (l, (v, (d, (c, rest))))))) = last in
      let (w', (same, k)) = LastTry-check_login now req fresh f u t w last in
      (w', (same, ground arith))

  -- A login of a locked user is refused before the password is looked at, and changes no row.
  locked-login :
      (later : ℕ) (req : LoginRequest) (fresh : Fresh) (f : FreshUser) (u : User) (w : AuthWorld S)
      → Reaches later req w
      → u.is_locked ≡ true
      → find_login_user later (login_name o h later req) w.users ≡ (some u, w.users)
      → ((login o h later req fresh f w).0 ≡ account_locked (shown_until later u.lock_until))
        × ((login o h later req fresh f w).1.users ≡ w.users)
  unfolding login lock_gate
  locked-login later req fresh f u w (e, b) l k = (ground arith, ground arith)

  lock_now-locks :
      (now : ℕ) (req : LoginRequest) (u : User) (n : ℕ) (w : AuthWorld S)
      → get_by_id u.id w.users ≡ some u
      → ((lock_now o h now req u n w).0 ≡ account_locked (lock_end h now))
        × (lock_until u.id (lock_end h now) (str "login_failure") w.users
            ≡ some (lock_now o h now req u n w).1.users)
  unfolding lock_now lock_until
  lock_now-locks now req u n w i = (ground arith, ground arith)

  -- Take an active user who is not locked and is the row of its key and of the login name, and a
  -- login by that name that comes from an address that is not banned, passes the captcha gate, has a
  -- password that is not empty, wrong here and accepted by no directory, and brings the count of
  -- failures to the threshold. It locks the user. From then on, in whatever state that keeps the rows
  -- of users, each login by the same name, from any address that is not banned and with any password
  -- but the empty one, is answered that the account is locked until the same instant, and changes no
  -- user, as long as the lock has not ended.
  pub lockout :
      (now : ℕ) (req : LoginRequest) (fresh : Fresh) (f : FreshUser) (u : User) (t : S)
      (w : AuthWorld S)
      → Reaches now req w
      → LastTry now req u t w
      → (later : ℕ) (req' : LoginRequest) (fresh' : Fresh) (f' : FreshUser) (w' : AuthWorld S)
      → w'.users ≡ (login o h now req fresh f w).1.users
      → login_name o h later req' ≡ login_name o h now req
      → lapsed later (lock_end h now) ≡ false
      → Reaches later req' w'
      → ((login o h now req fresh f w).0 ≡ account_locked (lock_end h now))
        × (((login o h later req' fresh' f' w').0
              ≡ account_locked (shown_until later (lock_end h now)))
            × ((login o h later req' fresh' f' w').1.users ≡ w'.users))
  lockout now req fresh f u t w r last later req' fresh' f' w' same name shut r' =
      let (n, (i, rest)) = last in
      let count = (record_user_fail o now (login_name o h now req) t).0 in
      let (w1, (kept, e)) = LastTry-login now req fresh f u t w r last in
      let (answer, locks) = lock_now-locks now req u count w1 (rw (kept) i) in
      (
        rw (e) answer,
        locked-login later req' fresh' f' (lock_account (lock_end h now) (str "login_failure") u) w'
            r' refl
            (rw (name, same ∙ ap (λ (p : LoginReply × AuthWorld S). p.1.users) e)
              (locked_out (login_name o h now req) u w1.users
                (lock_now o h now req u count w1).1.users (lock_end h now) (str "login_failure")
                (rw (kept) n) (rw (kept) i) locks later shut h.verify []).0),
      )
