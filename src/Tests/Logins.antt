-- ===== src/Tests/Logins.antt =====
-- Logins: one user, a threshold of one failure, and a directory.
use one_auth.Base.{
  ℕ, ◌≡◌, ◌⊎◌, inl, inr, or_else, ◌+◌, refl, true, false, none, some, [], ◌∷◌, str, text_eq,
  is_empty, drop_while, pos, arith, if◌then◌else◌,
}
use one_auth.Model.User.{User, get_by_id}
use one_auth.Model.Payload.{SessionData}
use one_auth.Store.Memory.{MemoryStore, new_memory_store, set, get, incr, find}
use one_auth.Store.Memory.Laws.{memory_ops, memory_ops-IsStore}
use one_auth.LoginRule.{trim_space, evaluate, enabled_in_order, first_match}
use one_auth.Account.{
  get_by_username, by_login_name, update, lapsed, find_login_user, authenticate, check_password,
}
use one_auth.Account.Ldap.{LdapEntry, FreshUser, to_lower}
use one_auth.IpAccess.{is_black_banned}
use one_auth.Handler.Env.{session_display_name}
use one_auth.Handler.Settings.{
  login_lockout_threshold, login_lockout_duration, atoi, magnitude, digits_from,
}
use one_auth.Handler.Login.{
  AuthHandler, AuthWorld, LoginRequest, LoginResponse, signed_in, account_locked, shown_until,
  login_fail_key,
}
use one_auth.Handler.Login.Counters.{needs_captcha, record_user_fail}
use one_auth.Handler.Login.Serve.{
  login, login_name, lock_gate, captcha_gate, sign_in, lock_end, check_login, admit,
}
use one_auth.Handler.Login.Lockout.{Reaches, LastTry, AfterCaptcha, lockout}
use one_auth.Handler.Login.Admitted.{IsOpen, PassesCaptcha, Identified, login-Identified}
use one_auth.Oauth.Token.{issue_access_token, save_refresh_token}
use one_auth.Session.{create}
use one_auth.Handler.Login.NoCount.{login-no_count}
use one_auth.Handler.Login.DisabledUser.{login-disabled}
use one_auth.Tests.Stores.{memory_writes}
use one_auth.Tests.Data.{alice, service}
use one_auth.Tests.Tokens.{noon, jwt_for}
use one_auth.Tests.Endpoints.{fresh}
use one_auth.Tests.Accounts.{users}

abbrev entry : LdapEntry
entry = record { username = str "Alice"; email = []; display_name = str "Alice"; phone = [] }

-- One failure locks, for the default half hour; the directory takes no password.
abbrev pub handler : AuthHandler
handler = record {
  ts = service;
  jwt = jwt_for (pos 7_200_000_000_000);
  session_ttl = pos 7_200_000_000_000;
  config = λ key. if text_eq key (str "login_lockout_threshold") then str "1" else [];
  rules = [];
  net = record { parse_ip = λ _. none; parse_cidr = λ _. none };
  directory = record { enabled = true; bind = λ _ _. none };
  verify = λ hash plain. text_eq plain (str "secret");
  local = λ _. record { weekday = 1; hour = 12 };
}

abbrev pub login_world : AuthWorld MemoryStore
login_world = record {
  kv = new_memory_store;
  index = [];
  users = users;
  ip_access = [];
  login_log = [];
}

abbrev guess : LoginRequest
guess = record {
  username = str " alice";
  password = str "guess";
  captcha_ticket = [];
  client_ip = str "1.2.3.4";
  user_agent = [];
}

abbrev no_user : FreshUser
no_user = record { id = str "n"; hash = [] }

threshold_is_one : login_lockout_threshold handler.config ≡ pos 1
unfolding login_lockout_threshold atoi magnitude digits_from text_eq
threshold_is_one = refl

name_trimmed : trim_space (str " alice") ≡ str "alice"
unfolding trim_space drop_while
name_trimmed = refl

last_try : LastTry memory_ops handler noon guess alice new_memory_store login_world
unfolding by_login_name get_by_username get_by_id text_eq trim_space drop_while needs_captcha
    record_user_fail incr login_lockout_threshold atoi magnitude digits_from find
last_try =
    (refl, (refl, (refl, (refl, (refl, (inr refl, (inl (refl, refl), (omega arith, refl))))))))

guess-Reaches : Reaches memory_ops handler noon guess login_world
unfolding is_empty is_black_banned
guess-Reaches = (refl, refl)

-- The next request has the right password, and comes a second later from elsewhere.
abbrev right : LoginRequest
right = record guess { password = str "secret"; client_ip = str "5.6.7.8" }

abbrev a_second_later : ℕ
a_second_later = 101_000_000_000

abbrev after_guess : AuthWorld MemoryStore
after_guess = record login_world {
  users = (login memory_ops handler noon guess fresh no_user login_world).1.users;
}

later-Reaches : Reaches memory_ops handler a_second_later right after_guess
unfolding is_empty is_black_banned
later-Reaches = (refl, refl)

still_shut : lapsed a_second_later (lock_end handler noon) ≡ false
unfolding lapsed login_lockout_duration atoi text_eq
still_shut = refl

lockout_example :
    ((login memory_ops handler noon guess fresh no_user login_world).0
      ≡ account_locked (lock_end handler noon))
    × (((login memory_ops handler a_second_later right fresh no_user after_guess).0
          ≡ account_locked (shown_until a_second_later (lock_end handler noon)))
        × ((login memory_ops handler a_second_later right fresh no_user after_guess).1.users
            ≡ after_guess.users))
lockout_example =
    lockout memory_ops handler noon guess fresh no_user alice new_memory_store login_world
      guess-Reaches last_try a_second_later right fresh no_user after_guess refl refl still_shut
      later-Reaches

login-no_count_example :
    (get noon
        (login_fail_key (str "alice") (str "1.2.3.4"))
        (login memory_ops handler noon guess fresh no_user login_world).1.kv
      ≡ get noon (login_fail_key (str "alice") (str "1.2.3.4")) new_memory_store)
    ⊎ (get noon
          (login_fail_key (str "alice") (str "1.2.3.4"))
          (login memory_ops handler noon guess fresh no_user login_world).1.kv
        ≡ none)
login-no_count_example =
    login-no_count memory_ops memory_ops-IsStore noon (str "alice") (str "1.2.3.4") handler noon
      guess fresh no_user login_world

abbrev disabled_alice : User
disabled_alice = record alice { is_active = false }

abbrev with_directory : AuthHandler
with_directory = record handler { directory = record { enabled = true; bind = λ _ _. some entry } }

abbrev disabled_world : AuthWorld MemoryStore
disabled_world = record login_world { users = disabled_alice ∷ [] }

no_rules : (evaluate handler.net [] (str "a1") (str "1.2.3.4") (handler.local noon)).0 ≡ true
unfolding evaluate enabled_in_order first_match
no_rules = refl

disabled_found : by_login_name (str "alice") disabled_world.users ≡ some disabled_alice
unfolding by_login_name get_by_username text_eq
disabled_found = refl

captcha_passed : AfterCaptcha memory_ops with_directory noon guess new_memory_store new_memory_store
unfolding needs_captcha text_eq
captcha_passed = inl (refl, refl)

login-disabled_example :
    let answer = login memory_ops with_directory noon guess fresh no_user disabled_world in
    (d : SessionData) × (resp : LoginResponse) × (answer.0 ≡ signed_in d resp)
    × (d.user_id ≡ str "a1")
    × (resp.user.is_active ≡ false)
    × (get_by_id (str "a1") answer.1.users ≡ some resp.user)
unfolding by_login_name get_by_username get_by_id text_eq trim_space drop_while is_empty to_lower
login-disabled_example =
    login-disabled memory_ops with_directory memory_writes noon guess fresh no_user disabled_alice
      entry refl refl no_rules refl new_memory_store disabled_world guess-Reaches refl refl refl
      refl captcha_passed

-- The same user, active, gives the right password.
abbrev alice_session : SessionData
alice_session = record {
  session_id = str "s2";
  user_id = str "a1";
  username = str "alice";
  display_name = str "alice";
  is_staff = false;
  ip = str "5.6.7.8";
  user_agent = [];
  auth_time = noon;
  created_at = noon;
  expires_at = noon + 7_200_000_000_000;
}

abbrev let_in : User
let_in = record alice { last_login = some noon }

abbrev response : LoginResponse
response = record {
  access_token =
      or_else
        (issue_access_token handler.jwt service noon (str "j1") (str "alice") (str "a1")
          (str "sso-admin") (str "alice") (str "openid profile email roles") handler.session_ttl)
        [];
  refresh_token = str "r1";
  expires_in = pos 3600;
  user = let_in;
}

user_let_in :
    (login memory_ops handler noon right fresh no_user login_world).0
    ≡ signed_in alice_session response
unfolding login is_empty is_black_banned find_login_user by_login_name get_by_username text_eq
    trim_space drop_while lock_gate captcha_gate needs_captcha check_login authenticate
    check_password update get_by_id admit evaluate enabled_in_order first_match sign_in create
    session_display_name save_refresh_token set
user_let_in = refl

login-Identified_example :
    (is_black_banned noon right.client_ip [] ≡ false)
    × (IsOpen memory_ops handler noon right
          (find_login_user noon (login_name memory_ops handler noon right) users).0
        × (PassesCaptcha memory_ops handler noon right login_world
            × (Identified memory_ops handler noon right let_in (record login_world {
              users = (find_login_user noon (login_name memory_ops handler noon right) users).1;
            })
                × (alice_session.user_id ≡ let_in.id))))
login-Identified_example =
    login-Identified memory_ops handler noon right fresh no_user login_world alice_session response
      user_let_in
