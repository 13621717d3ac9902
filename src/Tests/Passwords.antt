-- ===== src/Tests/Passwords.antt =====
-- A password is forgotten, reset by a link, and used. Text is taken as ASCII, and a hash is the
-- password itself.
use one_auth.Base.{
  ℕ, ◌≡◌, ◌↔◌, refl, true, ◌&&◌, none, some, [], Text, str, text_eq, text_eq_iff, ne_of_first_byte,
  is_empty, drop_while, leb, ◌+◌, pos, arith, next,
}
use one_auth.Model.User.{get_by_id}
use one_auth.Model.Payload.{reset_token}
use one_auth.Store.Memory.{MemoryStore, new_memory_store, set, get, find, put}
use one_auth.Store.Memory.Laws.{memory_ops, memory_ops-IsStore}
use one_auth.LoginRule.{trim_space}
use one_auth.Account.{update, get_by_username, by_login_name, get_by_email, authenticate}
use one_auth.Account.Password.{
  Unicode, PasswordOps, IsPassword, see, see_all, missing, password_policy,
  validate_password_policy, store_hash,
}
use one_auth.Account.Password.Rules.{meets_policy, validate_password_policy_iff}
use one_auth.Handler.Settings.{Config, atoi, magnitude}
use one_auth.Handler.Login.{AuthWorld}
use one_auth.Handler.PasswordReset.{
  ResetEnv, password_set, link_invalid, reset_key, forgot_password, reset_password, token_user,
  finish_reset,
}
use one_auth.Handler.PasswordReset.Once.{reset_password_once}
use one_auth.Handler.PasswordReset.Flow.{password_reset_flow}
use one_auth.Tests.Data.{alice}
use one_auth.Tests.Tokens.{noon}
use one_auth.Tests.Logins.{login_world}

abbrev pub ascii : Unicode
ascii = record {
  runes = λ t. t;
  is_upper = λ r. leb 65 r && leb r 90;
  is_lower = λ r. leb 97 r && leb r 122;
  is_digit = λ r. leb 48 r && leb r 57;
  is_special = λ r. leb 33 r && leb r 47;
}

abbrev pub plain_ops : PasswordOps
plain_ops = record { hash = λ p. some p; verify = λ h p. text_eq h p }

abbrev pub defaults : Config
defaults key = []

abbrev reset_env : ResetEnv
reset_env = record {
  unicode = ascii;
  ops = plain_ops;
  config = defaults;
  mailer_enabled = true;
  is_email = λ s. true;
  parse_uuid = λ s. some s;
}

abbrev pub secret : Text
secret = str "Secret1!"

secret_passes : validate_password_policy ascii defaults secret ≡ none
unfolding validate_password_policy password_policy atoi magnitude see see_all missing is_empty
secret_passes = refl

validate_password_policy_iff_example :
    (validate_password_policy ascii defaults (str "secret") ≡ none)
    ↔ (meets_policy ascii (password_policy defaults) (str "secret") ≡ true)
validate_password_policy_iff_example = validate_password_policy_iff ascii defaults (str "secret")

pub plain_ops-IsPassword : IsPassword plain_ops
plain_ops-IsPassword = record { verify-hash = λ p h e. ground (arith, text_eq_iff h p) }

-- The store with alice's link t1
abbrev link_world : AuthWorld MemoryStore
link_world = record login_world {
  kv =
      set noon (reset_key (str "t1"))
        (reset_token (record { user_id = str "a1"; email = str "alice@example.com" }))
        (pos 1_800_000_000_000) new_memory_store;
}

abbrev after_reset : AuthWorld MemoryStore
after_reset =
    (reset_password memory_ops reset_env noon (str "t1") secret (str "1.2.3.4") [] link_world).1

link_works :
    (reset_password memory_ops reset_env noon (str "t1") secret (str "1.2.3.4") [] link_world).0
    ≡ password_set
unfolding reset_password token_user is_empty get find set put text_eq
    one_auth.Account.Password.reset_password validate_password_policy password_policy atoi magnitude
    see see_all missing store_hash get_by_id finish_reset
link_works = refl

reset_password_once_example :
    (reset_password memory_ops reset_env (noon + 1) (str "t1") (str "Other12!") [] [] after_reset
      ≡ (link_invalid, after_reset))
    × (get (noon + 1) (str "other") after_reset.kv ≡ get (noon + 1) (str "other") link_world.kv)
unfolding is_empty
reset_password_once_example =
    reset_password_once memory_ops reset_env memory_ops-IsStore noon (str "t1") secret
      (str "1.2.3.4") [] link_world link_works (noon + 1) (str "Other12!") [] [] after_reset
      (str "other") refl refl (ne_of_first_byte _ _ (omega arith))

abbrev asked : AuthWorld MemoryStore
asked =
    (forgot_password memory_ops reset_env noon (str "t1") (str "alice@example.com") login_world).1

-- Half an hour later
abbrev at_the_end : ℕ
at_the_end = noon + 1_800_000_000_000

password_reset_flow_example :
    ((reset_password memory_ops reset_env at_the_end (str "t1") secret (str "1.2.3.4") [] asked).0
      ≡ password_set)
    × ((new_hash : Text) × ((authenticate plain_ops.verify at_the_end
            (str "alice")
            secret
            (reset_password memory_ops reset_env at_the_end
              (str "t1")
              secret
              (str "1.2.3.4")
              []
              asked).1.users).0
          ≡ next (record alice { password_hash = new_hash; last_login = some at_the_end })))
unfolding get_by_email get_by_id get_by_username by_login_name text_eq trim_space drop_while
    is_empty
password_reset_flow_example =
    password_reset_flow memory_ops memory_ops-IsStore reset_env plain_ops-IsPassword noon at_the_end
      (str "t1") (str "alice@example.com") secret secret (str "1.2.3.4") [] (str "alice") alice
      login_world link_world.kv refl refl refl refl refl refl refl refl refl refl (omega arith) refl
      refl secret_passes refl
