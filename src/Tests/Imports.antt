-- ===== src/Tests/Imports.antt =====
-- A remote user who is new, and one who is no longer there.
use one_auth.Base.{
  ◌≡◌, refl, true, false, Option, none, some, [], ◌∷◌, ◌++◌, map, Text, str, text_eq, is_empty,
  has_prefix, drop_while, contains,
}
use one_auth.Model.User.{User, get_by_id}
use one_auth.LoginRule.{trim_space}
use one_auth.Account.{get_by_username, get_by_email}
use one_auth.Account.Ldap.{to_lower}
use one_auth.DirectorySync.Unique.{any_other}
use one_auth.DirectorySync.Fields.{
  Members, nothing, entry, text, boolean, member_of, split_from, walk, get_string_any, get_bool_any,
  get_string_list_any, default_directory_field_mapping,
}
use one_auth.DirectorySync.State.{Summary, SyncState, get_binding}
use one_auth.DirectorySync.Departments.{
  DirectorySyncConfig, resolve_user_department, resolve_paths, user_paths, other_paths,
}
use one_auth.DirectorySync.Remote.{
  read_remote, is_departed, is_departed_name, replace_three, get_by_domain_account,
  find_existing_user, repeats,
}
use one_auth.DirectorySync.Rows.{Overrides}
use one_auth.DirectorySync.Users.{FreshKeys, apply_remote_user}
use one_auth.DirectorySync.Users.Free.{new_row, apply_remote_user-makes}
use one_auth.DirectorySync.Users.Find.{IsFound, apply_remote_user-IsFound}
use one_auth.DirectorySync.Missing.{disable_missing_users}
use one_auth.DirectorySync.Missing.Exact.{
  distinct_keys, none_repeats, disable_if_missing, disable_missing_users-map,
}
use one_auth.Tests.Data.{alice}

abbrev config : DirectorySyncConfig
config = record {
  platform_type = str "wecom";
  strip_prefix = [];
  mount_department_id = [];
  deactivate_missing = true;
  username_strategy = [];
  email_strategy = [];
  email_domain = [];
  field_mapping = default_directory_field_mapping;
  mapping_mode = false;
  default_group_ids = [];
}

-- Zhong Ya, who is not active
abbrev zhong_ya : Members
zhong_ya = entry (str "externalId") (text (str "ZhongYa")) (
    entry (str "userName") (text (str "Zhong Ya")) (entry (str "isActive") (boolean false) nothing))

abbrev nothing_done : Summary
nothing_done = record {
  department_created = 0;
  department_matched = 0;
  user_created = 0;
  user_updated = 0;
  user_disabled = 0;
  user_skipped = 0;
  user_details = [];
}

-- alice came from the platform.
abbrev platform_alice : User
platform_alice = record alice { user_source = str "platform" }

abbrev state : SyncState
state = record {
  users = platform_alice ∷ [];
  departments = [];
  bindings = [];
  groups = [];
  members = [];
  targets = [];
  summary = nothing_done;
  seen = [];
}

abbrev seen_state : SyncState
seen_state = record state { seen = str "ZhongYa" ∷ [] }

abbrev keys : FreshKeys
keys = record { user_id = str "n1"; department_id = str "n2" }

abbrev as_pulled : Overrides
as_pulled = record { username = []; email = []; group_ids = [] }

abbrev parse : Text → Option Text
parse s = some s

abbrev hashed : Text → Option Text
hashed s = some s

abbrev applied : Option one_auth.DirectorySync.Users.SyncError × SyncState
applied = apply_remote_user parse hashed [] config as_pulled false keys [] none zhong_ya state

has_key : is_empty (read_remote config zhong_ya).external_id ≡ false
unfolding read_remote get_string_any get_bool_any default_directory_field_mapping trim_space
    drop_while is_empty split_from walk member_of text_eq
has_key = refl

has_not_left : is_departed config (read_remote config zhong_ya) ≡ false
unfolding is_departed is_departed_name replace_three read_remote get_string_any get_bool_any
    default_directory_field_mapping trim_space drop_while is_empty split_from walk member_of text_eq
    contains has_prefix
has_not_left = refl

no_department :
    resolve_user_department parse config
      (str "n2")
      false
      []
      none
      zhong_ya
      (record state { seen = (read_remote config zhong_ya).external_id ∷ [] })
    ≡ (none, seen_state)
unfolding resolve_user_department resolve_paths user_paths other_paths get_string_list_any
    read_remote get_string_any default_directory_field_mapping trim_space drop_while is_empty
    split_from walk member_of text_eq contains has_prefix
no_department = refl

not_known : find_existing_user (str "wecom") (read_remote config zhong_ya) [] state.users ≡ none
unfolding find_existing_user get_binding get_by_domain_account get_by_email get_by_username to_lower
    read_remote get_string_any default_directory_field_mapping trim_space drop_while is_empty
    split_from walk member_of text_eq
not_known = refl

apply_remote_user-makes_example :
    (applied.0 ≡ none)
    × (applied.1.users
        ≡ state.users
          ++ (new_row parse hashed [] config as_pulled
                (str "n1")
                (read_remote config zhong_ya)
                none
                state.users
              ∷ []))
apply_remote_user-makes_example =
    apply_remote_user-makes parse hashed [] config as_pulled keys [] none zhong_ya state seen_state
      none (λ _. refl) has_key has_not_left no_department not_known

apply_remote_user-IsFound_example :
    IsFound parse hashed [] config (read_remote config zhong_ya) applied.1
unfolding get_by_id text_eq
apply_remote_user-IsFound_example =
    apply_remote_user-IsFound parse hashed [] config as_pulled keys [] none zhong_ya state
      seen_state none has_key has_not_left no_department refl apply_remote_user-makes_example.0

-- The last pull brought nobody.
disable_missing_users-map_example :
    ((disable_missing_users (str "wecom") [] false state).0 ≡ none)
    × ((disable_missing_users (str "wecom") [] false state).1.users
        ≡ map (disable_if_missing (str "wecom") [] []) state.users)
unfolding distinct_keys none_repeats get_by_id repeats any_other text_eq
disable_missing_users-map_example = disable_missing_users-map (str "wecom") [] state refl refl
