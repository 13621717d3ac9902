-- ===== src/Handler/Login/Admitted.antt =====
-- What a login has passed when it is let in.
use one_auth.Base.{
  ℕ, ◌≡◌, sym, ◌⊎◌, inl, inr, true, false, Option, none, some, Text, List, [], ◌∷◌, text_eq_sound,
  str, arith, next, Bool-cases, Flow-cases, Option-cases,
}
use one_auth.Model.User.{User, get_by_id}
use one_auth.Model.Payload.{SessionData}
use one_auth.Store.{StoreOps}
use one_auth.Session.{create}
use one_auth.LoginRule.{evaluate}
use one_auth.LoginRule.Order.{evaluate-none}
use one_auth.Account.{
  by_login_name, find_login_user, authenticate, check_password, lapsed, unlock, update, AuthError,
}
use one_auth.Account.Ldap.{FreshUser, ldap_authenticate}
use one_auth.IpAccess.{is_black_banned}
use one_auth.Handler.Env.{Fresh}
use one_auth.Handler.Login.{AuthHandler, AuthWorld, LoginRequest, LoginResponse, signed_in}
use one_auth.Handler.Login.Counters.{needs_captcha, consume_ticket}
use one_auth.Handler.Login.Serve.{
  login_name, log_failure, sign_in, admit, count_failure, fail_once, lock_now, login_failed,
  try_ldap, check_login, captcha_gate, lock_gate, login,
}

module _ {S : Type 0} (o : StoreOps S) (h : AuthHandler) (now : ℕ) (req : LoginRequest) where
  sign_in-eq :
      (fresh : Fresh) (method : Text) (u : User) (w : AuthWorld S) (d : SessionData)
      (resp : LoginResponse)
      → (sign_in o h now req fresh method u w).0 ≡ signed_in d resp
      → (d.user_id ≡ u.id) × (resp.user ≡ u)
  unfolding sign_in create
  sign_in-eq fresh method u w d resp e = (ground arith, ground arith)

  admit-eq :
      (fresh : Fresh) (method : Text) (u : User) (w : AuthWorld S) (d : SessionData)
      (resp : LoginResponse)
      → (admit o h now req fresh method u w).0 ≡ signed_in d resp
      → ((evaluate h.net h.rules u.id req.client_ip (h.local now)).0 ≡ true)
        × ((d.user_id ≡ u.id) × (resp.user ≡ u))
  unfolding admit
  admit-eq fresh method u w d resp e =
      elim (Bool-cases (evaluate h.net h.rules u.id req.client_ip (h.local now)).0) [
        | inl t ↦ (t, sign_in-eq fresh method u w d resp (ground arith))
        | inr n ↦
            let t = evaluate-none h.net h.rules u.id req.client_ip (h.local now) (ground arith) in
            absurd cc
      ]

  login_failed-ne :
      (err : AuthError) (found : Option User) (w : AuthWorld S) (d : SessionData)
      (resp : LoginResponse)
      → (login_failed o h now req err found w).0 ≡ signed_in d resp
      → ⊥
  unfolding login_failed count_failure lock_now fail_once
  login_failed-ne err found w d resp e = ground arith

  -- The password of an active user here, whose lock, if any, has lapsed
  abbrev pub ByPassword : User → AuthWorld S → Type 0
  ByPassword u w =
      (v : User) × (by_login_name (login_name o h now req) w.users ≡ some v)
      × ((v.id ≡ u.id)
          × ((v.is_active ≡ true)
              × ((h.verify v.password_hash req.password ≡ true)
                  × ((v.is_locked ≡ false) ⊎ (lapsed now v.lock_until ≡ true)))))

  -- The password of the user in the directory
  abbrev pub ByDirectory : User → AuthWorld S → Type 0
  ByDirectory u w =
      (h.directory.enabled ≡ true)
      × ((f : FreshUser) × ((ldap_authenticate h.directory now f (login_name o h now req)
              req.password
              (authenticate h.verify now (login_name o h now req) req.password w.users).1).0
            ≡ some u))

  get_by_id-id : (id : Text) (us : List User) (u : User) → get_by_id id us ≡ some u → u.id ≡ id
  unfolding get_by_id
  get_by_id-id id [] u e = cc
  get_by_id-id id (v ∷ us) u e = ground (arith, get_by_id-id id us u, text_eq_sound v.id id)

  check_password-eq :
      (plain : Text) (v u : User) (us : List User)
      → (check_password h.verify now plain v us).0 ≡ next u
      → (h.verify v.password_hash plain ≡ true) × (u.id ≡ v.id)
  unfolding check_password
  check_password-eq plain v u us e =
      let w : List User = update (record v { last_login = some now }) us in
      (
        ground arith,
        elim (Option-cases (get_by_id v.id w)) [
          | inl n ↦ absurd (ground arith)
          | inr (x, k) ↦ ground (arith, get_by_id-id v.id w x k)
        ],
      )

  authenticate-ByPassword :
      (u : User) (w : AuthWorld S)
      → (authenticate h.verify now (login_name o h now req) req.password w.users).0 ≡ next u
      → ByPassword u w
  unfolding authenticate
  authenticate-ByPassword u w e =
      elim (Option-cases (by_login_name (login_name o h now req) w.users)) [
        | inl n ↦ absurd (ground arith)
        | inr (v, k) ↦ elim (Bool-cases v.is_locked) [
          | inl l ↦
              let c =
                check_password-eq req.password (unlock v) u (update (unlock v) w.users)
                  (ground arith) in
              (v, k, (sym c.1, (ground arith, (c.0, inr (ground arith)))))
          | inr l ↦
              let c = check_password-eq req.password v u w.users (ground arith) in
              (v, k, (sym c.1, (ground arith, (c.0, inl l))))
        ]
      ]

  abbrev pub IsOpen : Option User → Type 0
  IsOpen none = Unit {0}
  IsOpen (some u) = u.is_locked ≡ false

  -- No captcha was wanted, or the ticket was there and is used up.
  abbrev pub PassesCaptcha : AuthWorld S → Type 0
  PassesCaptcha w =
      (needs_captcha o h now (login_name o h now req) req.client_ip w.kv ≡ false)
      ⊎ ((kv : S) × (consume_ticket o now req.captcha_ticket w.kv ≡ some kv))

  abbrev pub Identified : User → AuthWorld S → Type 0
  Identified u w =
      (ByPassword u w ⊎ ByDirectory u w)
      × ((evaluate h.net h.rules u.id req.client_ip (h.local now)).0 ≡ true)

  try_ldap-ByDirectory :
      (fresh : Fresh) (f : FreshUser) (e : AuthError) (found : Option User) (w : AuthWorld S)
      (d : SessionData) (resp : LoginResponse)
      → (try_ldap o h now req fresh f e found w).0 ≡ signed_in d resp
      → (h.directory.enabled ≡ true)
        × (((ldap_authenticate h.directory now f (login_name o h now req) req.password w.users).0
              ≡ some resp.user)
            × (((evaluate h.net h.rules resp.user.id req.client_ip (h.local now)).0 ≡ true)
                × (d.user_id ≡ resp.user.id)))
  unfolding try_ldap
  try_ldap-ByDirectory fresh f err found w d resp e =
      let r = ldap_authenticate h.directory now f (login_name o h now req) req.password w.users in
      let w' : AuthWorld S = record w { users = r.1 } in
      elim (Bool-cases h.directory.enabled) [
        | inr n ↦ absurd (login_failed-ne err found w d resp (ground arith))
        | inl on ↦ elim (Option-cases r.0) [
          | inl n ↦ absurd (
              login_failed-ne err found (log_failure o h now req none (str "ldap") w') d resp
                (ground arith))
          | inr (u, k) ↦
              let (rules, (same, mine)) = admit-eq fresh (str "ldap") u w' d resp (ground arith) in
              (on, (rw (mine) k, (rw (mine) rules, rw (mine) same)))
        ]
      ]

  check_login-Identified :
      (fresh : Fresh) (f : FreshUser) (found : Option User) (w : AuthWorld S) (d : SessionData)
      (resp : LoginResponse)
      → (check_login o h now req fresh f found w).0 ≡ signed_in d resp
      → Identified resp.user w × (d.user_id ≡ resp.user.id)
  unfolding check_login
  check_login-Identified fresh f found w d resp e =
      let r = authenticate h.verify now (login_name o h now req) req.password w.users in
      let w' : AuthWorld S = record w { users = r.1 } in
      elim (Flow-cases r.0) [
        | inl (err, k) ↦
            let (on, (found_there, (rules, same))) =
              try_ldap-ByDirectory fresh f err found w' d resp (ground arith) in
            ((inr (on, (f, found_there)), rules), same)
        | inr (u, k) ↦
            let (rules, (same, mine)) =
              admit-eq fresh (str "password") u w' d resp (ground arith) in
            ((inl (rw (mine) (authenticate-ByPassword u w k)), rw (mine) rules), rw (mine) same)
      ]

  captcha_gate-Identified :
      (fresh : Fresh) (f : FreshUser) (found : Option User) (w : AuthWorld S) (d : SessionData)
      (resp : LoginResponse)
      → (captcha_gate o h now req fresh f found w).0 ≡ signed_in d resp
      → PassesCaptcha w × (Identified resp.user w × (d.user_id ≡ resp.user.id))
  unfolding captcha_gate
  captcha_gate-Identified fresh f found w d resp e =
      elim (Bool-cases (needs_captcha o h now (login_name o h now req) req.client_ip w.kv)) [
        | inr n ↦ (inl n, check_login-Identified fresh f found w d resp (ground arith))
        | inl y ↦ elim (Option-cases (consume_ticket o now req.captcha_ticket w.kv)) [
          | inl n ↦ absurd (ground arith)
          | inr (kv, k) ↦ (
            inr (kv, k),
            check_login-Identified fresh f found (record w { kv = kv }) d resp (ground arith),
          )
        ]
      ]

  -- A login that is answered with a session came from an address that was not banned, by a name
  -- whose user, if there is one, is not locked, and past the captcha gate. Its user was active here
  -- and gave the right password with no lock in force, or is the one that the directory accepted;
  -- the login rules let the user in, and the session is the user's.
  pub login-Identified :
      (fresh : Fresh) (f : FreshUser) (w : AuthWorld S) (d : SessionData) (resp : LoginResponse)
      → (login o h now req fresh f w).0 ≡ signed_in d resp
      → (is_black_banned now req.client_ip w.ip_access ≡ false)
        × (IsOpen (find_login_user now (login_name o h now req) w.users).0
            × (PassesCaptcha w
                × (Identified resp.user (record w {
                  users = (find_login_user now (login_name o h now req) w.users).1;
                })
                    × (d.user_id ≡ resp.user.id))))
  unfolding login lock_gate
  login-Identified fresh f w d resp e =
      let r = find_login_user now (login_name o h now req) w.users in
      let w' : AuthWorld S = record w { users = r.1 } in
      elim (Option-cases r.0) [
        | inl n ↦ (
          ground arith,
          (rw (n) tt, captcha_gate-Identified fresh f none w' d resp (ground arith)),
        )
        | inr (u, k) ↦ elim (Bool-cases u.is_locked) [
          | inl y ↦ absurd (ground arith)
          | inr n ↦ (
            ground arith,
            (rw (k) n, captcha_gate-Identified fresh f (some u) w' d resp (ground arith)),
          )
        ]
      ]
