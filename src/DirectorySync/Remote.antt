-- ===== src/DirectorySync/Remote.antt =====
-- internal/service/directory_sync_service.go: what is read of a remote user, which local user it is,
-- and the writes of a row, which fail where a unique column would repeat. The columns is_active and
-- hire_status have defaults (internal/model/user.go), and gorm leaves a false or empty value of such a
-- column out of an INSERT.
use one_auth.Base.{
  ℕ, Bool, true, false, ◌&&◌, ◌||◌, Option, none, some, and_then, List, [], ◌∷◌, ◌++◌, Text, str,
  text_eq, is_empty, contains, if◌then◌else◌, ltb, ◌==◌,
}
use one_auth.Model.User.{User, get_by_id}
use one_auth.LoginRule.{trim_space}
use one_auth.Account.{get_by_username, get_by_email, update}
use one_auth.Account.Ldap.{to_lower}
use one_auth.DirectorySync.Unique.{Column, any_other, username_of, email_of, phone_of}
use one_auth.DirectorySync.Fields.{Members, get_string_any, get_bool_any, first_non_empty}
use one_auth.DirectorySync.State.{Binding, get_binding}
use one_auth.DirectorySync.Departments.{DirectorySyncConfig}

-- "（", "）" and "已离职"
abbrev pub wide_open : Text
wide_open = 239 ∷ (188 ∷ (136 ∷ []))

abbrev pub wide_close : Text
wide_close = 239 ∷ (188 ∷ (137 ∷ []))

abbrev pub resigned_mark : Text
resigned_mark =
    b'(' ∷ (229 ∷ (183 ∷ (178 ∷ (231 ∷ (166 ∷ (187 ∷ (232 ∷ (129 ∷ (140 ∷ (b')' ∷ []))))))))))

-- strings.ReplaceAll of three bytes by one
unfoldable pub replace_three : Text → ℕ → Text → Text
replace_three p c (x ∷ (y ∷ (z ∷ s))) =
    let past = replace_three p c s in
    let rest = replace_three p c (y ∷ (z ∷ s)) in
    if text_eq p (x ∷ (y ∷ (z ∷ []))) then c ∷ past else x ∷ rest
replace_three p c s = s

unfoldable pub is_departed_name : Text → Bool
is_departed_name name =
    contains (replace_three wide_close b')' (replace_three wide_open b'(' name)) resigned_mark

abbrev pub is_we_com_directory_provider : Text → Bool
is_we_com_directory_provider p = text_eq p (str "wecom") || text_eq p (str "wecom_attendance")

pub record RemoteUser : Type 0 where
  pub external_id : Text
  pub nickname : Text
  pub source_username : Text
  pub email : Text
  pub given_name : Text
  pub surname : Text
  pub phone : Text
  pub position : Text
  pub active : Bool
  pub status : Text

unfoldable pub read_remote : DirectorySyncConfig → Members → RemoteUser
read_remote cfg m =
    let get : Text → Text = λ key. get_string_any m (cfg.field_mapping key) in
    let external_id = get (str "external_id") in
    record {
      external_id = external_id;
      nickname = first_non_empty (get (str "nickname")) external_id;
      source_username = first_non_empty (get (str "username")) external_id;
      email = trim_space (get (str "email"));
      given_name = trim_space (get (str "given_name"));
      surname = trim_space (get (str "surname"));
      phone = trim_space (get (str "phone"));
      position = trim_space (get (str "position"));
      active = get_bool_any m (cfg.field_mapping (str "active")) true;
      status = get_string_any m (str "status");
    }

-- ORDER BY id LIMIT 1
unfoldable pub text_ltb : Text → Text → Bool
text_ltb s [] = false
text_ltb [] (d ∷ t) = true
text_ltb (c ∷ s) (d ∷ t) = ltb c d || (c == d && text_ltb s t)

abbrev pub first_by_id : User → Option User → User
first_by_id u none = u
first_by_id u (some v) = if text_ltb v.id u.id then v else u

unfoldable pub get_by_domain_account : Text → List User → Option User
get_by_domain_account a [] = none
get_by_domain_account a (u ∷ us) =
    let rest = get_by_domain_account a us in
    if text_eq u.domain_account a then some (first_by_id u rest) else rest

-- if user == nil { … }
abbrev pub or_try : Option User → Option User → Option User
or_try (some u) other = some u
or_try none other = other

-- findExistingUserForPreview, and the same steps in applyRemoteUser
unfoldable pub find_existing_user : Text → RemoteUser → List Binding → List User → Option User
find_existing_user provider r bs us =
    or_try
      (and_then (get_binding provider (str "user") r.external_id bs) (λ b. get_by_id b.local_id us))
      (or_try (get_by_domain_account r.external_id us) (
        or_try (if is_empty r.email then none else get_by_email r.email us)
          (get_by_username (to_lower r.source_username) us)))

unfoldable pub is_departed : DirectorySyncConfig → RemoteUser → Bool
is_departed cfg r =
    is_departed_name r.nickname
    || (is_we_com_directory_provider cfg.platform_type && text_eq r.status (str "5"))

abbrev pub source_missing : User → User
source_missing u = record u {
  is_active = false;
  hire_status = str "resigned";
  is_locked = true;
  lock_reason = str "source_missing";
}

abbrev pub hire_status : Bool → Text
hire_status active = if active then str "active" else str "resigned"

abbrev pub taken_elsewhere : Column → User → List User → Bool
taken_elsewhere column u us = elim (column u) [ none ↦ false | some v ↦ any_other column v u.id us ]

-- The unique columns
unfoldable pub repeats : User → List User → Bool
repeats u us =
    taken_elsewhere username_of u us
    || (taken_elsewhere email_of u us || taken_elsewhere phone_of u us)

-- tx.Create, tx.Save
unfoldable pub create_user : User → List User → Option (List User)
create_user u us =
    let row = record u { is_active = true } in
    if repeats row us then none else some (us ++ (row ∷ []))

unfoldable pub save_user : User → List User → Option (List User)
save_user u us = if repeats u us then none else some (update u us)
