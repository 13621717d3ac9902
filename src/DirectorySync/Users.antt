-- ===== src/DirectorySync/Users.antt =====
-- internal/service/directory_sync_service.go, applyRemoteUser: a remote user becomes a local one. A new
-- key, which is drawn, differs from all keys.
pub mod Solid
pub mod Listed
pub mod Free
pub mod Find
use one_auth.Base.{
  ℕ, suc, ◌+◌, Bool, true, false, not, ◌&&◌, ◌||◌, Option, none, some, and_then, or_else, List, [],
  ◌∷◌, ◌++◌, Text, str, text_eq, is_empty, contains, has_prefix, drop_prefix, if◌then◌else◌, ltb,
  ◌==◌,
}
use one_auth.Model.User.{User, get_by_id}
use one_auth.LoginRule.{trim_space}
use one_auth.Account.{get_by_username, get_by_email, update}
use one_auth.Account.Ldap.{to_lower}
use one_auth.Handler.Env.{nil_uuid}
use one_auth.DirectorySync.Names.{should_normalize_existing_username}
use one_auth.DirectorySync.Unique.{
  Column, any_other, value_taken, username_of, email_of, phone_of, generate_username,
  resolve_import_username,
}
use one_auth.DirectorySync.Email.{EmailConfig, Person, resolve_assign_email}
use one_auth.DirectorySync.Fields.{Members, get_string_any, get_bool_any, first_non_empty}
use one_auth.DirectorySync.State.{
  Binding, DetailType, skipped, UserSyncDetail, Summary, SyncState, get_binding, upsert_binding,
}
use one_auth.DirectorySync.Departments.{DirectorySyncConfig, Resolver, resolve_user_department}
use one_auth.DirectorySync.Remote.{
  RemoteUser, read_remote, is_departed, find_existing_user, source_missing, create_user, save_user,
}
use one_auth.DirectorySync.Rows.{Overrides, new_user, changed_user}

-- What an application draws: the keys of a new user and of a new department
pub record FreshKeys : Type 0 where
  pub user_id : Text
  pub department_id : Text

pub data SyncError : Type 0 where
  no_external_id : SyncError
  disable_failed : Text → SyncError
  create_failed : Text → SyncError
  update_failed : Text → SyncError

module _ (parse_uuid : Text → Option Text) (hash : Text → Option Text) (default_password : Text)
    (cfg : DirectorySyncConfig) where
  unfoldable pub in_group : Text → Text → List (Text × Text) → Bool
  in_group group user [] = false
  in_group group user ((g, u) ∷ ms) = (text_eq g group && text_eq u user) || in_group group user ms

  unfoldable pub has_group : Text → List Text → Bool
  has_group id [] = false
  has_group id (g ∷ gs) = text_eq g id || has_group id gs

  abbrev pub add_member : Text → Text → List (Text × Text) → List (Text × Text)
  add_member group user ms = if in_group group user ms then ms else (group, user) ∷ ms

  abbrev pub join_group : Option Text → Text → List Text → List (Text × Text) → List (Text × Text)
  join_group none user groups ms = ms
  join_group (some g) user groups ms = if has_group g groups then add_member g user ms else ms

  unfoldable pub join_groups :
      List Text → Text → List Text → List (Text × Text) → List (Text × Text)
  join_groups [] user groups ms = ms
  join_groups (raw ∷ ids) user groups ms =
      join_groups ids user groups (join_group (parse_uuid (trim_space raw)) user groups ms)

  abbrev pub or_default : List Text → List Text
  or_default [] = cfg.default_group_ids
  or_default (g ∷ gs) = g ∷ gs

  -- assignGroups, then the binding of the user
  unfoldable pub assign_and_bind : Overrides → Text → RemoteUser → List User → SyncState → SyncState
  assign_and_bind over user_id r us st = record st {
    users = us;
    members = join_groups (or_default over.group_ids) user_id st.groups st.members;
    bindings = upsert_binding cfg.platform_type (str "user") r.external_id user_id [] st.bindings;
  }

  abbrev pub count_skipped : RemoteUser → SyncState → SyncState
  count_skipped r st = record st {
    summary = record st.summary {
      user_skipped = suc st.summary.user_skipped;
      user_details =
          st.summary.user_details
          ++ (record {
            type = skipped;
            name = r.nickname;
            username = r.source_username;
            external_id = r.external_id;
          }
              ∷ []);
    };
  }

  -- A user who has left is disabled, and not made.
  unfoldable pub apply_departed :
      Bool → RemoteUser → Option User → SyncState → Option SyncError × SyncState
  apply_departed dry_run r none st = (none, count_skipped r st)
  apply_departed dry_run r (some u) st =
      if dry_run then (none, count_skipped r st) else elim (save_user (source_missing u) st.users) [
        | none ↦ (some (disable_failed r.nickname), count_skipped r st)
        | some us ↦ (none, record (count_skipped r st) { users = us })
      ]

  unfoldable pub apply_new :
      Overrides
      → Bool
      → FreshKeys
      → RemoteUser
      → Option Text
      → SyncState
      → Option SyncError × SyncState
  apply_new over dry_run fresh r department st =
      let counted = record st {
        summary = record st.summary { user_created = suc st.summary.user_created };
      } in
      if dry_run
      then (none, counted)
      else elim (create_user
          (new_user parse_uuid hash default_password cfg over fresh.user_id r department st.users)
          st.users) [
            | none ↦ (some (create_failed r.nickname), counted)
            | some us ↦ (none, assign_and_bind over fresh.user_id r us counted)
          ]

  unfoldable pub apply_existing :
      Overrides → Bool → RemoteUser → User → Option Text → SyncState → Option SyncError × SyncState
  apply_existing over dry_run r u department st =
      let counted = record st {
        summary = record st.summary { user_updated = suc st.summary.user_updated };
      } in
      if dry_run
      then (none, counted)
      else elim (save_user
          (changed_user parse_uuid hash default_password cfg over u r department st.users)
          st.users) [
            | none ↦ (some (update_failed r.nickname), counted)
            | some us ↦ (none, assign_and_bind over u.id r us counted)
          ]

  unfoldable pub apply_found :
      Overrides
      → Bool
      → FreshKeys
      → RemoteUser
      → Option User
      → Option Text
      → SyncState
      → Option SyncError × SyncState
  apply_found over dry_run fresh r user department st =
      if is_departed cfg r then apply_departed dry_run r user st else elim user [
        | none ↦ apply_new over dry_run fresh r department st
        | some u ↦ apply_existing over dry_run r u department st
      ]

  -- applyRemoteUser
  unfoldable pub apply_remote_user :
      Overrides
      → Bool
      → FreshKeys
      → Resolver
      → Option Text
      → Members
      → SyncState
      → Option SyncError × SyncState
  apply_remote_user over dry_run fresh resolver mount_id remote st =
      let r = read_remote cfg remote in
      if is_empty r.external_id
      then (some no_external_id, st)
      else (let (department, st') =
            resolve_user_department parse_uuid cfg fresh.department_id dry_run resolver mount_id
              remote (record st { seen = r.external_id ∷ st.seen }) in
          apply_found over dry_run fresh r
            (find_existing_user cfg.platform_type r st'.bindings st'.users) department st')
