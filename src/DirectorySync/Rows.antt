-- ===== src/DirectorySync/Rows.antt =====
-- internal/service/directory_sync_service.go, applyRemoteUser: the row of a user who is made, and that of
-- one who is changed.
use one_auth.Base.{
  false, not, ◌&&◌, Option, none, some, or_else, List, [], Text, str, text_eq, is_empty,
  if◌then◌else◌,
}
use one_auth.Model.User.{User}
use one_auth.Account.Ldap.{to_lower}
use one_auth.Handler.Env.{nil_uuid}
use one_auth.DirectorySync.Names.{should_normalize_existing_username}
use one_auth.DirectorySync.Unique.{
  Column, value_taken, email_of, phone_of, generate_username, resolve_import_username,
}
use one_auth.DirectorySync.Email.{EmailConfig, Person, resolve_assign_email}
use one_auth.DirectorySync.Departments.{DirectorySyncConfig}
use one_auth.DirectorySync.Remote.{RemoteUser, hire_status}

-- What an administrator typed over the login name and the address, or nothing, and the groups
pub record Overrides : Type 0 where
  pub username : Text
  pub email : Text
  pub group_ids : List Text

module _ (parse_uuid : Text → Option Text) (hash : Text → Option Text) (default_password : Text)
    (cfg : DirectorySyncConfig) where
  abbrev pub email_config : EmailConfig
  email_config = record { strategy = cfg.email_strategy; domain = cfg.email_domain }

  abbrev pub person : RemoteUser → Person
  person r = record {
    source_username = r.source_username;
    nickname = r.nickname;
    given_name = r.given_name;
    surname = r.surname;
    raw_email = r.email;
  }

  abbrev pub free_or : Column → Text → Text → List User → Option Text → Option Text
  free_or column v current us old =
      if not (is_empty v) && not (value_taken column v current us) then some v else old

  -- The address of a new user
  unfoldable pub new_email : Overrides → RemoteUser → List User → Option Text
  new_email over r us =
      if is_empty over.email
      then elim (resolve_assign_email email_config (person r) nil_uuid us) [
        | some e ↦ some e
        | none ↦ free_or email_of r.email nil_uuid us none
      ]
      else free_or email_of over.email nil_uuid us none

  unfoldable pub new_username : Overrides → RemoteUser → List User → Text
  new_username over r us =
      let natural =
        generate_username cfg.username_strategy r.source_username r.nickname nil_uuid us in
      if not (is_empty over.username) && not (text_eq over.username natural)
      then resolve_import_username cfg.username_strategy r.source_username r.nickname nil_uuid
          over.username us
      else natural

  unfoldable pub new_user : Overrides → Text → RemoteUser → Option Text → List User → User
  new_user over id r department us = record {
    id = id;
    username = new_username over r us;
    nickname = r.nickname;
    email = new_email over r us;
    phone = free_or phone_of r.phone nil_uuid us none;
    password_hash =
        or_else (hash (if is_empty default_password then str "OneAuth@2026" else default_password))
          [];
    avatar = [];
    employee_no = [];
    position = r.position;
    domain_account = r.external_id;
    user_source = str "platform";
    profile_manually_edited = false;
    hire_status = hire_status r.active;
    is_active = r.active;
    is_staff = false;
    is_locked = false;
    lock_until = none;
    lock_reason = [];
    last_login = none;
    department_id = department;
    department = none;
    roles = [];
    groups = [];
  }

  -- effectiveUsername, for a user that there is
  unfoldable pub effective_username : User → RemoteUser → List User → Text
  effective_username u r us =
      if should_normalize_existing_username u.username r.source_username
      then generate_username cfg.username_strategy r.source_username r.nickname u.id us
      else to_lower u.username

  abbrev pub regular_username : User → RemoteUser → List User → Text
  regular_username u r us =
      if u.profile_manually_edited then u.username else effective_username u r us

  unfoldable pub kept_username : Overrides → User → RemoteUser → List User → Text
  kept_username over u r us =
      if not (is_empty over.username) && not (text_eq over.username (effective_username u r us))
      then resolve_import_username cfg.username_strategy r.source_username r.nickname u.id
          over.username us
      else regular_username u r us

  unfoldable pub changed_user : Overrides → User → RemoteUser → Option Text → List User → User
  changed_user over u r department us = record u {
    nickname = r.nickname;
    position = r.position;
    domain_account = r.external_id;
    hire_status = hire_status r.active;
    is_active = r.active;
    department_id = department;
    department = none;
    username = kept_username over u r us;
    email = free_or email_of over.email u.id us u.email;
    phone = if is_empty r.phone then none else free_or phone_of r.phone u.id us u.phone;
  }
