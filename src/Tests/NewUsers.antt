-- ===== src/Tests/NewUsers.antt =====
-- Bob, who is made and signs in although the input says that he is not active.
use one_auth.Base.{◌≡◌, refl, false, none, some, [], ◌∷◌, ◌++◌, str, text_eq, is_empty, next}
use one_auth.Model.User.{User, get_by_id}
use one_auth.Account.{get_by_username, authenticate}
use one_auth.Account.Password.{see, see_all, missing, password_policy, validate_password_policy}
use one_auth.Account.Users.{CreateUserInput, Roles, created, inserted, create_user, taken_column}
use one_auth.Account.Users.Create.{create_user-authenticate}
use one_auth.Handler.Settings.{atoi, magnitude}
use one_auth.Tests.Passwords.{ascii, plain_ops, plain_ops-IsPassword, defaults, secret}
use one_auth.Tests.Accounts.{users}
use one_auth.Tests.Tokens.{noon}

abbrev bob : CreateUserInput
bob = record {
  username = str "bob";
  nickname = [];
  email = [];
  phone = [];
  password = secret;
  avatar = [];
  employee_no = [];
  domain_account = [];
  user_source = [];
  hire_status = [];
  department_id = none;
  is_active = some false;
  role_ids = [];
}

abbrev no_roles : Roles
no_roles id = none

abbrev bob_row : User
bob_row = inserted no_roles (str "b2") secret bob

bob_made :
    create_user ascii plain_ops defaults no_roles (str "b2") bob users
    ≡ created bob_row (users ++ (bob_row ∷ []))
unfolding create_user taken_column validate_password_policy password_policy atoi magnitude see
    see_all missing is_empty text_eq get_by_username
bob_made = refl

create_user-authenticate_example :
    (authenticate plain_ops.verify noon (str "bob") secret (users ++ (bob_row ∷ []))).0
    ≡ next (record bob_row { last_login = some noon })
unfolding get_by_id text_eq
create_user-authenticate_example =
    create_user-authenticate ascii plain_ops plain_ops-IsPassword defaults no_roles (str "b2") bob
      bob_row users (users ++ (bob_row ∷ [])) bob_made refl noon
