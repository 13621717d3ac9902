-- ===== src/Account/Users.antt =====
-- internal/service/user_service.go: Create, Delete and Lock, with the rows of
-- internal/repository/user_repo.go. A role is given by its key and its code, and the keys
-- of an input differ; gorm leaves a false or
-- empty value of a column with a default (internal/model/user.go) out of an INSERT.
pub mod Create
use one_auth.Base.{
  ℕ, Bool, true, false, not, ◌&&◌, ◌||◌, Option, none, some, or_else, List, [], ◌∷◌, ◌++◌, Text,
  str, text_eq, is_empty, if◌then◌else◌,
}
use one_auth.Model.User.{User, get_by_id}
use one_auth.Account.{get_by_username, get_by_email, update}
use one_auth.Account.Password.{Unicode, PasswordOps, PolicyError, validate_password_policy}
use one_auth.Handler.Settings.{Config}

pub record CreateUserInput : Type 0 where
  pub username : Text
  pub nickname : Text
  pub email : Text
  pub phone : Text
  pub password : Text
  pub avatar : Text
  pub employee_no : Text
  pub domain_account : Text
  pub user_source : Text
  pub hire_status : Text
  pub department_id : Option Text
  pub is_active : Option Bool
  pub role_ids : List Text

pub data CreateError : Type 0 where
  weak_password : PolicyError → CreateError
  hash_failed : CreateError
  username_exists : CreateError
  email_used : CreateError
  phone_used : CreateError

pub data CreateResult : Type 0 where
  refused : CreateError → CreateResult
  created : User → List User → CreateResult

abbrev pub has_phone : Option Text → Text → Bool
has_phone none p = false
has_phone (some q) p = text_eq q p

-- UserRepository.GetByPhone
unfoldable pub get_by_phone : Text → List User → Option User
get_by_phone p [] = none
get_by_phone p (u ∷ us) =
    let rest = get_by_phone p us in if has_phone u.phone p then some u else rest

-- defaultStr
abbrev pub default_str : Text → Text → Text
default_str v fallback = if is_empty v then fallback else v

-- The codes of the roles that there are, as a function of the key
abbrev pub Roles : Type 0
Roles = Text → Option Text

unfoldable pub codes_of : Roles → List Text → List Text
codes_of roles [] = []
codes_of roles (id ∷ ids) =
    let rest = codes_of roles ids in elim (roles id) [ none ↦ rest | some code ↦ code ∷ rest ]

unfoldable pub any_staff_code : List Text → Bool
any_staff_code [] = false
any_staff_code (c ∷ cs) = text_eq c (str "super_admin") || any_staff_code cs

-- deriveIsStaff
abbrev pub derive_is_staff : Roles → List Text → Bool
derive_is_staff roles ids = any_staff_code (codes_of roles ids)

abbrev pub filled_in : Text → Option Text
filled_in s = if is_empty s then none else some s

-- The row that Create inserts: is_active is true, whatever the input says, as its default is true.
unfoldable pub inserted : Roles → Text → Text → CreateUserInput → User
inserted roles id hash x = record {
  id = id;
  username = x.username;
  nickname = x.nickname;
  email = filled_in x.email;
  phone = filled_in x.phone;
  password_hash = hash;
  avatar = x.avatar;
  employee_no = x.employee_no;
  position = [];
  domain_account = x.domain_account;
  user_source = default_str x.user_source (str "local");
  profile_manually_edited = false;
  hire_status = default_str x.hire_status (str "active");
  is_active = true;
  is_staff = derive_is_staff roles x.role_ids;
  is_locked = false;
  lock_until = none;
  lock_reason = [];
  last_login = none;
  department_id = x.department_id;
  department = none;
  roles = codes_of roles x.role_ids;
  groups = [];
}

abbrev pub is_found : Option User → Bool
is_found none = false
is_found (some u) = true

-- The checks before the INSERT
unfoldable pub taken_column : CreateUserInput → List User → Option CreateError
taken_column x us =
    if is_found (get_by_username x.username us)
    then some username_exists
    else if not (is_empty x.email) && is_found (get_by_email x.email us)
    then some email_used
    else if not (is_empty x.phone) && is_found (get_by_phone x.phone us)
    then some phone_used
    else none

module _ (u : Unicode) (ops : PasswordOps) (cfg : Config) (roles : Roles) where
  abbrev pub insert_user : Text → Text → CreateUserInput → List User → CreateResult
  insert_user id hash x us = elim (taken_column x us) [
    | some e ↦ refused e
    | none ↦ created (inserted roles id hash x) (us ++ (inserted roles id hash x ∷ []))
  ]

  -- UserService.Create, for the key that is drawn
  unfoldable pub create_user : Text → CreateUserInput → List User → CreateResult
  create_user id x us = elim (validate_password_policy u cfg x.password) [
    | some e ↦ refused (weak_password e)
    | none ↦ elim (ops.hash x.password) [
      | none ↦ refused hash_failed
      | some hash ↦ insert_user id hash x us
    ]
  ]

pub data DeleteReply : Type 0 where
  no_such_user : DeleteReply
  protected_user : DeleteReply
  deleted : DeleteReply

unfoldable pub remove_user : Text → List User → List User
remove_user id [] = []
remove_user id (u ∷ us) = let rest = remove_user id us in if text_eq u.id id then rest else u ∷ rest

-- UserService.Delete
unfoldable pub delete_user : Text → List User → DeleteReply × List User
delete_user id us = elim (get_by_id id us) [
  | none ↦ (no_such_user, us)
  | some u ↦
      if text_eq u.username (str "admin")
      then (protected_user, us)
      else (deleted, remove_user id us)
]

-- UserService.Lock; none is an error.
unfoldable pub lock : Text → Bool → Text → List User → Option (List User)
lock id locked reason us = elim (get_by_id id us) [
  | none ↦ none
  | some u ↦ some (
      update
        (record u {
          is_locked = locked;
          lock_reason = if locked then reason else [];
          lock_until = none;
        })
        us)
]
