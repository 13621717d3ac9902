-- ===== src/Handler/PasswordReset.antt =====
-- internal/handler/auth_handler.go, ForgotPassword, VerifyResetToken, ResetPassword and
-- ChangePassword. The mail is not modelled, beyond the token that goes into it; it is sent in the
-- background, which is taken to be done when the handler returns. The validator of addresses and
-- uuid.Parse are parameters.
pub mod Once
pub mod Flow
use one_auth.Base.{
  ℕ, zero, suc, ◌+◌, ◌*◌, ◌++◌, Bool, true, false, not, ◌&&◌, ◌||◌, Option, none, some, and_then,
  or_else, List, [], ◌∷◌, Text, str, is_empty, text_eq, if◌then◌else◌, ltb, leb, ◌==◌, pos, second,
}
use one_auth.Model.Payload.{ResetTokenPayload, reset_token, as_reset_token}
use one_auth.Model.User.{User}
use one_auth.Store.{StoreOps}
use one_auth.LoginRule.{trim_space}
use one_auth.Account.{get_by_email}
use one_auth.Account.Password.{Unicode, PasswordOps, PasswordError, PasswordResult, refused, done}
use one_auth.Handler.Env.{nil_uuid}
use one_auth.Handler.Settings.{Config}
use one_auth.Handler.Login.{AuthWorld, record_login}

pub record ResetEnv : Type 0 where
  pub unicode : Unicode
  pub ops : PasswordOps
  pub config : Config
  pub mailer_enabled : Bool
  pub is_email : Text → Bool
  pub parse_uuid : Text → Option Text

pub data ResetReply : Type 0 where
  bad_request : ResetReply
  mail_off : ResetReply
  -- the answer of ForgotPassword, whether or not there is such a user
  sent_if_known : ResetReply
  link_invalid : ResetReply
  link_for : Text → ResetReply
  password_refused : PasswordError → ResetReply
  password_set : ResetReply

abbrev pub reset_key : Text → Text
reset_key token = str "pwd_reset:" ++ token

abbrev pub reset_token_ttl : ℕ
reset_token_ttl = 1800 * second

-- The bytes before the first '@', and those from it on
unfoldable pub before_at : Text → Text
before_at [] = []
before_at (c ∷ s) = let rest = before_at s in if c == b'@' then [] else c ∷ rest

unfoldable pub from_at : Text → Text
from_at [] = []
from_at (c ∷ s) = let rest = from_at s in if c == b'@' then c ∷ s else rest

abbrev pub masked : Text → Text → Text
masked (c ∷ (d ∷ [])) rest = (c ∷ []) ++ (str "***" ++ rest)
masked (c ∷ (d ∷ (e ∷ s))) rest = (c ∷ (d ∷ [])) ++ (str "***" ++ rest)
masked prefix rest = prefix ++ rest

-- maskEmail: as it is where there is no '@' behind the first two bytes
unfoldable pub mask_email : Text → Text
mask_email email =
    if is_empty (from_at email) then email else masked (before_at email) (from_at email)

module _ {S : Type 0} (o : StoreOps S) (env : ResetEnv) where
  -- The token of sendResetMail; a failing store sends nothing.
  unfoldable pub send_reset_mail : ℕ → Text → User → Text → S → S
  send_reset_mail now token u email s =
      or_else
        (o.set now (reset_key token) (reset_token (record { user_id = u.id; email = email }))
          (pos reset_token_ttl) s)
        s

  abbrev pub may_reset : User → Bool
  may_reset u = u.is_active && (not u.is_locked && elim u.email [ none ↦ false | some e ↦ true ])

  -- ForgotPassword, with the token that is drawn
  unfoldable pub forgot_password : ℕ → Text → Text → AuthWorld S → ResetReply × AuthWorld S
  forgot_password now token raw w =
      if not (env.is_email raw)
      then (bad_request, w)
      else if not env.mailer_enabled
      then (mail_off, w)
      else elim (get_by_email (trim_space raw) w.users) [
        | none ↦ (sent_if_known, w)
        | some u ↦
            if may_reset u
            then (
              sent_if_known,
              record w { kv = send_reset_mail now token u (trim_space raw) w.kv },
            )
            else (sent_if_known, w)
      ]

  -- VerifyResetToken; a value that is no such payload reads as an empty one.
  unfoldable pub verify_reset_token : ℕ → Text → AuthWorld S → ResetReply
  verify_reset_token now token w =
      if is_empty token then bad_request else elim (o.get now (reset_key token) w.kv) [
        | none ↦ link_invalid
        | some b ↦ elim (as_reset_token b) [
          | none ↦ link_for []
          | some p ↦ link_for (mask_email p.email)
        ]
      ]

  -- The payload of a token, with the user's key parsed
  unfoldable pub token_user : ℕ → Text → S → Option Text
  token_user now token s =
      and_then (and_then (o.get now (reset_key token) s) as_reset_token)
        (λ p. env.parse_uuid p.user_id)

  -- The end of ResetPassword: the token is deleted when the password is set.
  unfoldable pub finish_reset :
      Text → Text → Text → Text → PasswordResult → AuthWorld S → ResetReply × AuthWorld S
  finish_reset token uid ip ua (refused e) w = (password_refused e, w)
  finish_reset token uid ip ua (done us) w = (
    password_set,
    record_login (some uid) [] ip (str "password_reset") (str "success")
        (record w { users = us; kv = o.del (reset_key token) w.kv }),
  )

  -- ResetPassword, for a token, a new password, and the client's address and agent
  unfoldable pub reset_password :
      ℕ → Text → Text → Text → Text → AuthWorld S → ResetReply × AuthWorld S
  reset_password now token plain ip ua w =
      if is_empty token || is_empty plain
      then (bad_request, w)
      else elim (token_user now token w.kv) [
        | none ↦ (link_invalid, w)
        | some uid ↦
            finish_reset token uid ip ua
              (one_auth.Account.Password.reset_password env.unicode env.ops env.config uid plain
                w.users)
              w
      ]

-- ChangePassword, for the user that the token of the request names
unfoldable pub change_own :
    {S : Type 0} → ResetEnv → Text → Text → Text → AuthWorld S → ResetReply × AuthWorld S
change_own env user_id old plain w =
    if is_empty old || is_empty plain
    then (bad_request, w)
    else elim (one_auth.Account.Password.change_password env.unicode env.ops env.config
        (or_else (env.parse_uuid user_id) nil_uuid) old plain w.users) [
          | refused e ↦ (password_refused e, w)
          | done us ↦ (password_set, record w { users = us })
        ]
