-- ===== src/Handler/PasswordReset/Once.antt =====
-- A reset link: who learns what, and how often it works.
use one_auth.Base.{ℕ, ◌≡◌, ◌≢◌, refl, false, ◌||◌, none, Text, is_empty, arith}
use one_auth.Store.{StoreOps, IsStore}
use one_auth.Handler.Login.{AuthWorld}
use one_auth.Handler.PasswordReset.{
  ResetEnv, link_invalid, password_set, reset_key, token_user, finish_reset, reset_password,
  forgot_password,
}

module _ {S : Type 0} (o : StoreOps S) (env : ResetEnv) where
  -- What ForgotPassword answers does not depend on the users that there are, or on the store.
  pub forgot_password-blind :
      (now now' : ℕ) (token token' raw : Text) (w w' : AuthWorld S)
      → (forgot_password o env now token raw w).0 ≡ (forgot_password o env now' token' raw w').0
  unfolding forgot_password
  forgot_password-blind now now' token token' raw w w' = ground arith

  reset_password-done :
      (now : ℕ) (token plain ip ua : Text) (w : AuthWorld S)
      → (reset_password o env now token plain ip ua w).0 ≡ password_set
      → ((is_empty token || is_empty plain) ≡ false)
        × ((reset_password o env now token plain ip ua w).1.kv ≡ o.del (reset_key token) w.kv)
  unfolding reset_password finish_reset
  reset_password-done now token plain ip ua w e = (ground arith, ground arith)

  refused_again :
      (later : ℕ) (token plain ip ua : Text) (w : AuthWorld S)
      → is_empty token ≡ false
      → is_empty plain ≡ false
      → token_user o env later token w.kv ≡ none
      → reset_password o env later token plain ip ua w ≡ (link_invalid, w)
  unfolding reset_password
  refused_again later token plain ip ua w t p n = ground arith

  -- A reset link works once: after a password was set by it, the link is invalid at any later
  -- instant, for any password, in any state with that store, and changes nothing. All that the store
  -- holds under other keys, other links of the user and refresh tokens included, is as before.
  pub reset_password_once :
      IsStore o
      → (now : ℕ) (token plain ip ua : Text) (w : AuthWorld S)
      → (reset_password o env now token plain ip ua w).0 ≡ password_set
      → (later : ℕ) (plain' ip' ua' : Text) (w' : AuthWorld S) (key : Text)
      → w'.kv ≡ (reset_password o env now token plain ip ua w).1.kv
      → is_empty plain' ≡ false
      → reset_key token ≢ key
      → (reset_password o env later token plain' ip' ua' w' ≡ (link_invalid, w'))
        × (o.get later key w'.kv ≡ o.get later key w.kv)
  unfolding token_user
  reset_password_once laws now token plain ip ua w e later plain' ip' ua' w' key same new other =
      let (n, k) = reset_password-done now token plain ip ua w e in
      let gone = laws.get-del_self later (reset_key token) w.kv in
      let invalid : token_user o env later token w'.kv ≡ none = rw (same, k, gone) refl in
      (
        refused_again later token plain' ip' ua' w' (ground arith) new invalid,
        rw (same, k) (laws.get-del_ne later (reset_key token) key w.kv other),
      )
