-- ===== src/Model/User.antt =====
-- internal/model/user.go and internal/model/role.go: the columns of a user that the modelled
-- handlers read. A UUID is its canonical text; a department and a group are their names, a role is
-- its code.
use one_auth.Base.{ℕ, Bool, Option, none, some, List, [], ◌∷◌, Text, text_eq, if◌then◌else◌}

pub record User : Type 0 where
  pub id : Text
  pub username : Text
  pub nickname : Text
  pub email : Option Text
  pub phone : Option Text
  pub password_hash : Text
  pub avatar : Text
  pub employee_no : Text
  pub position : Text
  pub domain_account : Text
  pub user_source : Text
  pub profile_manually_edited : Bool
  pub hire_status : Text
  pub is_active : Bool
  pub is_staff : Bool
  pub is_locked : Bool
  pub lock_until : Option ℕ
  pub lock_reason : Text
  pub last_login : Option ℕ
  pub department_id : Option Text
  pub department : Option Text
  pub roles : List Text
  pub groups : List Text

-- internal/repository/user_repo.go GetByID: the first row with the key
unfoldable pub get_by_id : Text → List User → Option User
get_by_id id [] = none
get_by_id id (u ∷ us) = if text_eq u.id id then some u else get_by_id id us
