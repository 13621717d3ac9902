-- ===== src/Handler/Login/DisabledUser.antt =====
-- A disabled account and the directory: Login from the request of a user who was disabled to the
-- session.
use one_auth.Base.{
  ℕ, ◌≡◌, ◌∙◌, refl, true, false, some, List, Text, str, is_empty, ℤ, arith, if◌then◌else◌,
  Bool-cases, inl, inr, or_else, [], pos, whole_seconds, add_duration,
}
use one_auth.Model.User.{User, get_by_id}
use one_auth.Model.Payload.{Payload, SessionData, session, refresh}
use one_auth.Store.{StoreOps}
use one_auth.Account.{by_login_name, find_login_user, authenticate, get_by_username}
use one_auth.Account.Lock.{get_by_id-update}
use one_auth.Account.Ldap.{
  FreshUser, LdapEntry, to_lower, fill_in, conflicts, try_update, find_or_create, ldap_authenticate,
}
use one_auth.LoginRule.{evaluate}
use one_auth.Oauth.Token.{save_refresh_token, issue_access_token, refresh_key, positive_or}
use one_auth.Session.{create, session_key}
use one_auth.Handler.Env.{Fresh, session_display_name}
use one_auth.Handler.Login.{AuthHandler, AuthWorld, LoginRequest, LoginResponse, signed_in}
use one_auth.Handler.Login.Serve.{
  admin_client_id, admin_default_scope, login_name, sign_in, admit, try_ldap, check_login,
  captcha_gate, lock_gate, login,
}
use one_auth.Handler.Login.Lockout.{Reaches, AfterCaptcha}

-- The row that the directory gives a user, if the write goes through, and else the old row: neither
-- is active if the old one is not.
pub find_or_create-known :
    (now : ℕ) (f : FreshUser) (name : Text) (e : LdapEntry) (us : List User) (u : User)
    → get_by_username name us ≡ some u
    → get_by_id u.id us ≡ some u
    → (v : User) × ((find_or_create now f name e us ≡ (some v, try_update (fill_in now e u) us))
        × ((get_by_id u.id (try_update (fill_in now e u) us) ≡ some v)
            × ((v.id ≡ u.id) × (v.is_active ≡ u.is_active))))
unfolding find_or_create try_update fill_in
find_or_create-known now f name e us u n i = elim (Bool-cases (conflicts (fill_in now e u) us)) [
  | inl c ↦ (u, (ground arith, (ground arith, (refl, refl))))
  | inr c ↦
      let k = get_by_id-update u (fill_in now e u) us refl i in
      (fill_in now e u, (ground arith, (ground arith, (refl, refl))))
]

module _ {S : Type 0} (o : StoreOps S) (h : AuthHandler)
    (writes : (now : ℕ) (k : Text) (v : Payload) (ttl : ℤ) (s : S)
      → (t : S) × (o.set now k v ttl s ≡ some t)) where
  module _ (now : ℕ) (req : LoginRequest) (fresh : Fresh) where
    abbrev session_of : User → SessionData
    session_of u = record {
      session_id = fresh.session_id;
      user_id = u.id;
      username = u.username;
      display_name = session_display_name u;
      is_staff = u.is_staff;
      ip = req.client_ip;
      user_agent = req.user_agent;
      auth_time = now;
      created_at = now;
      expires_at = add_duration now h.session_ttl;
    }

    abbrev answer_for : User → LoginResponse
    answer_for u = record {
      access_token =
          or_else
            (issue_access_token h.jwt h.ts now fresh.access_jti u.username u.id admin_client_id
              u.username admin_default_scope h.session_ttl)
            [];
      refresh_token = fresh.refresh_token;
      expires_in = whole_seconds h.ts.access_ttl;
      user = u;
    }

    -- A store that takes every write gives the session and the tokens.
    sign_in-answers :
        (method : Text) (u : User) (w : AuthWorld S)
        → ((sign_in o h now req fresh method u w).0 ≡ signed_in (session_of u) (answer_for u))
          × ((sign_in o h now req fresh method u w).1.users ≡ w.users)
    unfolding sign_in create save_refresh_token
    sign_in-answers method u w =
        let (s, first) =
          writes now (session_key fresh.session_id) (session (session_of u)) h.session_ttl w.kv in
        let saved =
          writes now (refresh_key fresh.refresh_token)
            (refresh (record {
              token = fresh.refresh_token;
              user_id = u.id;
              client_id = admin_client_id;
              scope = admin_default_scope;
            }))
            (positive_or (pos 0) h.ts.refresh_ttl) s in
        (ground (arith, first, saved.1), ground (arith, first, saved.1))

    admit-answers :
        (method : Text) (u : User) (w : AuthWorld S)
        → (evaluate h.net h.rules u.id req.client_ip (h.local now)).0 ≡ true
        → admit o h now req fresh method u w ≡ sign_in o h now req fresh method u w
    unfolding admit
    admit-answers method u w rules = ground arith

  -- The name under which the directory's entry is looked up here
  abbrev pub entry_name : ℕ → LoginRequest → LdapEntry → Text
  entry_name now req e =
      to_lower (if is_empty e.username then login_name o h now req else e.username)

  module _ (now : ℕ) (req : LoginRequest) (fresh : Fresh) (f : FreshUser) (u : User) (e : LdapEntry)
      (on : h.directory.enabled ≡ true)
      (bound : h.directory.bind (login_name o h now req) req.password ≡ some e)
      (rules : (evaluate h.net h.rules u.id req.client_ip (h.local now)).0 ≡ true)
      (inactive : u.is_active ≡ false) where
    check_login-sign_in :
        (w : AuthWorld S)
        → by_login_name (login_name o h now req) w.users ≡ some u
        → get_by_username (entry_name now req e) w.users ≡ some u
        → get_by_id u.id w.users ≡ some u
        → (v : User) × (us : List User) × (check_login o h now req fresh f (some u) w
            ≡ sign_in o h now req fresh (str "ldap") v (record w { users = us }))
          × (v.id ≡ u.id)
          × (v.is_active ≡ false)
          × (get_by_id u.id us ≡ some v)
    unfolding check_login authenticate try_ldap ldap_authenticate
    check_login-sign_in w n m i =
        let (v, (found, (there, (same, kept)))) =
          find_or_create-known now f (entry_name now req e) e w.users u m i in
        let us = try_update (fill_in now e u) w.users in
        let admitted =
          admit-answers now req fresh (str "ldap") v (record w { users = us }) (rw (same) rules) in
        (v, us, ground (arith, admitted), same, kept ∙ inactive, there)

    login-check_login :
        (t : S) (w : AuthWorld S)
        → Reaches o h now req w
        → by_login_name (login_name o h now req) w.users ≡ some u
        → u.is_locked ≡ false
        → AfterCaptcha o h now req w.kv t
        → login o h now req fresh f w
          ≡ check_login o h now req fresh f (some u) (record w { kv = t })
    unfolding login find_login_user lock_gate captcha_gate
    login-check_login t w r n l c = ground arith

    -- A user whose account is disabled still signs in with a password that the directory accepts: the
    -- login is answered with a session of that user, and the user's row is still not active. (The
    -- user is not locked, and is the row of its key, of the login name and of the name in the
    -- directory's entry. Name and password are not empty, the address is not banned, the captcha gate
    -- lets the request pass, the login rules let the user in, and the store takes every write.)
    pub login-disabled :
        (t : S) (w : AuthWorld S)
        → Reaches o h now req w
        → by_login_name (login_name o h now req) w.users ≡ some u
        → get_by_username (entry_name now req e) w.users ≡ some u
        → get_by_id u.id w.users ≡ some u
        → u.is_locked ≡ false
        → AfterCaptcha o h now req w.kv t
        → let answer = login o h now req fresh f w in
          (d : SessionData) × (resp : LoginResponse) × (answer.0 ≡ signed_in d resp)
          × (d.user_id ≡ u.id)
          × (resp.user.is_active ≡ false)
          × (get_by_id u.id answer.1.users ≡ some resp.user)
    login-disabled t w r n m i l c =
        let (v, us, same, mine, off, there) = check_login-sign_in (record w { kv = t }) n m i in
        let (answer, rows) =
          sign_in-answers now req fresh (str "ldap") v (record w { kv = t; users = us }) in
        let path = login-check_login t w r n l c ∙ same in
        (
          session_of now req fresh v,
          answer_for now req fresh v,
          rw (path) answer,
          mine,
          off,
          rw (path, rows) there,
        )
