-- ===== src/Handler/Login.antt =====
-- internal/handler/auth_handler.go, Login: the black list, the lock, the captcha gate, the password
-- here or in the directory, the counters of failures, the login rules, and the session. All parts
-- of the handler are configured, as cmd/server sets them. An answer carries the instant of a lock;
-- the minutes and the texts made of it, the region and message of a log entry, and the permissions
-- that are listed to the user are left out.
pub mod Counters
pub mod Serve
pub mod Lockout
pub mod Admitted
pub mod Captcha
pub mod NoCount
pub mod DisabledUser
use one_auth.Base.{
  ℕ, zero, suc, ◌++◌, ◌-◌, ◌*◌, Bool, true, false, not, ◌&&◌, ◌||◌, Option, none, some, or_else,
  List, [], ◌∷◌, Text, str, text_eq, is_empty, if◌then◌else◌, ltb, ℤ, pos, is_positive, pos_part,
  ltz, add_duration, second, unix, whole_seconds, Flow, next, reply,
}
use one_auth.Model.Payload.{SessionData, number, as_number}
use one_auth.Model.User.{User}
use one_auth.Store.{StoreOps}
use one_auth.Oauth.Jwt.{JwtOps}
use one_auth.Oauth.Token.{TokenService, issue_access_token, save_refresh_token}
use one_auth.Session.{create}
use one_auth.LoginRule.{LoginRule, NetOps, Instant, trim_space, evaluate}
use one_auth.Account.{
  AuthError, bad_credentials, disabled, locked, not_found, find_login_user, authenticate,
  lock_until,
}
use one_auth.Account.Ldap.{Directory, FreshUser, to_lower, ldap_authenticate}
use one_auth.IpAccess.{IpAccess, is_black_banned, upsert_auto_ban}
use one_auth.Handler.Env.{Fresh, session_display_name}
use one_auth.Handler.Settings.{
  Config, captcha_threshold, login_lockout_threshold, login_lockout_duration, ip_ban_threshold,
  ip_ban_duration, ip_ban_enabled,
}

-- model.LoginLog
pub record LoginLog : Type 0 where
  pub user_id : Option Text
  pub username : Text
  pub ip : Text
  pub method : Text
  pub status : Text

-- What Login reads: settings, rules, the directory, password.Verify, and the local time.
pub record AuthHandler : Type 0 where
  pub ts : TokenService
  pub jwt : JwtOps
  pub session_ttl : ℤ
  pub config : Config
  pub rules : List LoginRule
  pub net : NetOps
  pub directory : Directory
  pub verify : Text → Text → Bool
  pub local : ℕ → Instant

-- What Login changes.
pub record AuthWorld (S : Type 0) : Type 0 where
  pub kv : S
  pub index : List Text
  pub users : List User
  pub ip_access : List IpAccess
  pub login_log : List LoginLog

pub record LoginRequest : Type 0 where
  pub username : Text
  pub password : Text
  pub captcha_ticket : Text
  pub client_ip : Text
  pub user_agent : Text

pub record LoginResponse : Type 0 where
  pub access_token : Text
  pub refresh_token : Text
  pub expires_in : ℤ
  pub user : User

pub data LoginReply : Type 0 where
  bad_request : LoginReply
  ip_banned : LoginReply
  account_locked : Option ℕ → LoginReply
  captcha_required : LoginReply
  refused : AuthError → LoginReply
  wrong_password : ℕ → LoginReply
  denied : Text → LoginReply
  server_error : LoginReply
  signed_in : SessionData → LoginResponse → LoginReply

abbrev pub login_fail_key : Text → Text → Text
login_fail_key username ip = str "loginfail:" ++ ip ++ str ":" ++ username

abbrev pub user_fail_key : Text → Text
user_fail_key login_name = str "userloginfail:" ++ to_lower (trim_space login_name)

abbrev pub ip_fail_key : Text → Text
ip_fail_key ip = str "ipfail:" ++ ip

abbrev pub activity_key : Text → Text
activity_key user_id = str "lastactive:" ++ user_id

abbrev pub ticket_key : Text → Text
ticket_key ticket = str "captcha:ticket:" ++ ticket

abbrev pub captcha_fail_window : ℤ
captcha_fail_window = pos (600 * second)

abbrev pub ip_ban_window : ℤ
ip_ban_window = pos (1800 * second)

-- LogRepo.RecordLogin
abbrev pub record_login :
    {S : Type 0} → Option Text → Text → Text → Text → Text → AuthWorld S → AuthWorld S
record_login uid username ip method status w = record w {
  login_log =
      record { user_id = uid; username = username; ip = ip; method = method; status = status }
      ∷ w.login_log;
}

abbrev pub id_of : Option User → Option Text
id_of none = none
id_of (some u) = some u.id

-- The name that a failure is logged under: the user's, or the one that was typed
abbrev pub name_of : Option User → Text → Text
name_of none name = name
name_of (some u) name = u.username

-- The end of the lock, if it is to come
abbrev pub shown_until : ℕ → Option ℕ → Option ℕ
shown_until now none = none
shown_until now (some t) = if ltb now t then some t else none
