-- ===== src/Account/Ldap.antt =====
-- internal/service/ldap_service.go, Authenticate: after the directory has accepted the password, the
-- user of its entry is looked up, filled in or made. The directory (package ldap) is a parameter:
-- the entry for a login name and a password, or none for each error on the way.
use one_auth.Base.{
  ℕ, ◌+◌, ◌++◌, Bool, true, false, not, ◌&&◌, ◌||◌, Option, none, some, List, [], ◌∷◌, Text, str,
  text_eq, is_empty, if◌then◌else◌, leb,
}
use one_auth.Model.User.{User, get_by_id}
use one_auth.Account.{get_by_username, update}

pub record LdapEntry : Type 0 where
  pub username : Text
  pub email : Text
  pub display_name : Text
  pub phone : Text

pub record Directory : Type 0 where
  pub enabled : Bool
  pub bind : Text → Text → Option LdapEntry

-- What Authenticate draws for a user that it makes: the key, and the hash of a random password
pub record FreshUser : Type 0 where
  pub id : Text
  pub hash : Text

-- strings.ToLower, on ASCII
unfoldable pub to_lower : Text → Text
to_lower [] = []
to_lower (c ∷ s) = (if leb 65 c && leb c 90 then c + 32 else c) ∷ to_lower s

abbrev optional : Text → Option Text
optional s = if is_empty s then none else some s

-- if *p == nil or "" { *p = s }
abbrev filled : Option Text → Text → Option Text
filled none s = optional s
filled (some t) s = if is_empty t then (if is_empty s then some t else some s) else some t

unfoldable pub fill_in : ℕ → LdapEntry → User → User
fill_in now e u = record u {
  nickname = if is_empty u.nickname then e.display_name else u.nickname;
  email = filled u.email e.email;
  phone = filled u.phone e.phone;
  last_login = some now;
}

unfoldable pub new_user : ℕ → FreshUser → Text → LdapEntry → User
new_user now f username e = record {
  id = f.id;
  username = username;
  nickname = e.display_name;
  email = optional e.email;
  phone = optional e.phone;
  password_hash = f.hash;
  avatar = [];
  employee_no = [];
  position = [];
  domain_account = [];
  user_source = str "platform";
  profile_manually_edited = false;
  hire_status = str "active";
  is_active = true;
  is_staff = false;
  is_locked = false;
  lock_until = none;
  lock_reason = [];
  last_login = some now;
  department_id = none;
  department = none;
  roles = [];
  groups = [];
}

abbrev shared : Option Text → Option Text → Bool
shared (some a) (some b) = text_eq a b
shared _ _ = false

-- The unique columns: another row has the address or the telephone number.
unfoldable pub conflicts : User → List User → Bool
conflicts v [] = false
conflicts v (u ∷ us) =
    (not (text_eq u.id v.id) && (shared u.email v.email || shared u.phone v.phone))
    || conflicts v us

-- `_ = userRepo.Update(u)`, which changes nothing if it fails
unfoldable pub try_update : User → List User → List User
try_update v us = if conflicts v us then us else update v us

-- userRepo.Create, for a user name that no row has
unfoldable pub create_user : User → List User → Option (List User)
create_user u us = if conflicts u us then none else some (us ++ (u ∷ []))

unfoldable pub find_or_create :
    ℕ → FreshUser → Text → LdapEntry → List User → Option User × List User
find_or_create now f username e us = elim (get_by_username username us) [
  | some u ↦ let us' = try_update (fill_in now e u) us in (get_by_id u.id us', us')
  | none ↦ elim (create_user (new_user now f username e) us) [
    | none ↦ (none, us)
    | some us' ↦ (get_by_id f.id us', us')
  ]
]

-- LDAPService.Authenticate; `none` is an error, or that the directory is off.
unfoldable pub ldap_authenticate :
    Directory → ℕ → FreshUser → Text → Text → List User → Option User × List User
ldap_authenticate dir now f login plain us =
    if dir.enabled
    then elim (dir.bind login plain) [
      | none ↦ (none, us)
      | some e ↦
          find_or_create now f (to_lower (if is_empty e.username then login else e.username)) e us
    ]
    else (none, us)
