-- ===== src/Handler/PasswordReset/Flow.antt =====
-- From the forgotten password to a login with the new one.
use one_auth.Base.{
  ℕ, ◌+◌, ◌≤◌, ◌≡◌, refl, true, false, none, some, Text, is_empty, List, arith, pos, next,
}
use one_auth.Model.Payload.{reset_token}
use one_auth.Model.User.{User, get_by_id}
use one_auth.Store.{StoreOps, IsStore}
use one_auth.LoginRule.{trim_space}
use one_auth.Account.{by_login_name, get_by_email, authenticate}
use one_auth.Account.Password.{
  PasswordOps, IsPassword, PasswordResult, done, validate_password_policy, store_hash,
}
use one_auth.Account.Password.Reset.{reset_password-authenticate}
use one_auth.Handler.Login.{AuthWorld}
use one_auth.Handler.PasswordReset.{
  ResetEnv, password_set, reset_key, reset_token_ttl, send_reset_mail, may_reset, forgot_password,
  token_user, finish_reset, reset_password,
}

module _ {S : Type 0} (o : StoreOps S) (laws : IsStore o) (env : ResetEnv)
    (passwords : IsPassword env.ops) where
  token_user-send :
      (now later : ℕ) (token email : Text) (u : User) (s t : S)
      → o.set now
          (reset_key token)
          (reset_token (record { user_id = u.id; email = email }))
          (pos reset_token_ttl)
          s
        ≡ some t
      → later ≤ now + reset_token_ttl
      → env.parse_uuid u.id ≡ some u.id
      → token_user o env later token (send_reset_mail o env now token u email s) ≡ some u.id
  unfolding token_user send_reset_mail
  token_user-send now later token email u s t e before p =
      let found =
        laws.get-set_live now later (reset_key token) _ (pos reset_token_ttl) s t e refl before in
      ground (arith, found)

  policy_done :
      (id plain hashed : Text) (u : User) (w : AuthWorld S)
      → validate_password_policy env.unicode env.config plain ≡ none
      → env.ops.hash plain ≡ some hashed
      → get_by_id id w.users ≡ some u
      → one_auth.Account.Password.reset_password env.unicode env.ops env.config id plain w.users
        ≡ done (one_auth.Account.update (record u { password_hash = hashed }) w.users)
  unfolding one_auth.Account.Password.reset_password store_hash
  policy_done id plain hashed u w v k i = ground arith

  forgot-sends :
      (now : ℕ) (token raw : Text) (u : User) (w : AuthWorld S)
      → env.is_email raw ≡ true
      → env.mailer_enabled ≡ true
      → get_by_email (trim_space raw) w.users ≡ some u
      → may_reset o env u ≡ true
      → (forgot_password o env now token raw w).1
        ≡ record w { kv = send_reset_mail o env now token u (trim_space raw) w.kv }
  unfolding forgot_password
  forgot-sends now token raw u w a b c d = ground arith

  token-resets :
      (later : ℕ) (token plain ip ua uid : Text) (us : List User) (w : AuthWorld S)
      → is_empty token ≡ false
      → is_empty plain ≡ false
      → token_user o env later token w.kv ≡ some uid
      → one_auth.Account.Password.reset_password env.unicode env.ops env.config uid plain w.users
        ≡ done us
      → ((reset_password o env later token plain ip ua w).0 ≡ password_set)
        × ((reset_password o env later token plain ip ua w).1.users ≡ us)
  unfolding reset_password finish_reset
  token-resets later token plain ip ua uid us w a b c d = (ground arith, ground arith)

  -- A user who is active and not locked, asks for a link with the address on record, and comes back
  -- with it within half an hour and with a password that passes the policy, gets the password set,
  -- and signs in with it under the login name. (The store takes the link, the hash is made, and the
  -- user's row is the one of its key.)
  pub password_reset_flow :
      (now later : ℕ) (token raw plain hashed ip ua name : Text) (u : User) (w : AuthWorld S)
      (t : S)
      → env.is_email raw ≡ true
      → env.mailer_enabled ≡ true
      → get_by_email (trim_space raw) w.users ≡ some u
      → u.email ≡ some (trim_space raw)
      → u.is_active ≡ true
      → u.is_locked ≡ false
      → get_by_id u.id w.users ≡ some u
      → env.parse_uuid u.id ≡ some u.id
      → by_login_name name w.users ≡ some u
      → o.set now
          (reset_key token)
          (reset_token (record { user_id = u.id; email = trim_space raw }))
          (pos reset_token_ttl)
          w.kv
        ≡ some t
      → later ≤ now + reset_token_ttl
      → is_empty token ≡ false
      → is_empty plain ≡ false
      → validate_password_policy env.unicode env.config plain ≡ none
      → env.ops.hash plain ≡ some hashed
      → ((reset_password o env later token plain ip ua (forgot_password o env now token raw w).1).0
          ≡ password_set)
        × ((new_hash : Text) × ((authenticate env.ops.verify later name plain
                (reset_password o env later token plain ip ua
                  (forgot_password o env now token raw w).1).1.users).0
              ≡ next (record u { password_hash = new_hash; last_login = some later })))
  password_reset_flow now later token raw plain hashed ip ua name u w t mail on known email active
        free row key login sent before tk pl policy made =
      let w1 : AuthWorld S = record w {
        kv = send_reset_mail o env now token u (trim_space raw) w.kv;
      } in
      let start = forgot-sends now token raw u w mail on known (ground arith) in
      let resets = policy_done u.id plain hashed u w1 policy made row in
      let (answer, users) =
        token-resets later token plain ip ua u.id _ w1 tk pl
          (token_user-send now later token (trim_space raw) u w.kv t sent before key) resets in
      rw (start, users)
        (
          answer,
          reset_password-authenticate env.unicode env.ops passwords env.config name plain u w.users
              _ later login row active free resets,
        )
