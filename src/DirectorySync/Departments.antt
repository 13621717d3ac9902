-- ===== src/DirectorySync/Departments.antt =====
-- internal/service/directory_sync_service.go, resolveUserDepartment and ensureTargetDept: the local
-- department of a remote user. The resolver is a map from local paths to targets, which are pointers:
-- here positions in the list of targets.
use one_auth.Base.{
  ℕ, suc, Bool, not, ◌&&◌, ◌||◌, Option, none, some, List, [], ◌∷◌, ◌++◌, Text, str, text_eq,
  is_empty, has_prefix, length, if◌then◌else◌, ltb,
}
use one_auth.LoginRule.{trim_space}
use one_auth.DirectorySync.Fields.{Members, get_string_any, get_string_list_any}
use one_auth.DirectorySync.Paths.{local_department_path}
use one_auth.DirectorySync.State.{
  Department, existing, on_demand, SyncState, get_binding, upsert_binding, delete_binding,
  department_exists, target_at, set_target,
}

pub record DirectorySyncConfig : Type 0 where
  pub platform_type : Text
  pub strip_prefix : Text
  pub mount_department_id : Text
  pub deactivate_missing : Bool
  pub username_strategy : Text
  pub email_strategy : Text
  pub email_domain : Text
  pub field_mapping : Text → Text
  pub mapping_mode : Bool
  pub default_group_ids : List Text

abbrev pub Resolver : Type 0
Resolver = List (Text × ℕ)

unfoldable pub resolved : Text → Resolver → Option ℕ
resolved path [] = none
resolved path ((k, i) ∷ rs) = let rest = resolved path rs in if text_eq k path then some i else rest

abbrev pub longer : Text × ℕ → Option (Text × ℕ) → Option (Text × ℕ)
longer p none = some p
longer p (some q) = if ltb (length q.0) (length p.0) then some p else some q

-- The loop over the map for the longest path above: the keys of a map differ, so that its order does
-- not matter.
unfoldable pub best_above : Text → Resolver → Option (Text × ℕ)
best_above path [] = none
best_above path ((k, i) ∷ rs) =
    let rest = best_above path rs in
    if not (is_empty k) && (text_eq k path || has_prefix path (k ++ str "/"))
    then longer (k, i) rest
    else rest

abbrev pub parsed : (Text → Option Text) → Text → Option Text
parsed parse_uuid s = if is_empty (trim_space s) then none else parse_uuid (trim_space s)

module _ (parse_uuid : Text → Option Text) (cfg : DirectorySyncConfig) where
  abbrev pub fallback_parent : List Department → Option Text
  fallback_parent ds = elim (parsed parse_uuid cfg.mount_department_id) [
    | none ↦ none
    | some m ↦ if department_exists m ds then some m else none
  ]

  -- The parent of a department that is made, or the mount point when it is gone, or the root
  unfoldable pub live_parent : Option Text → List Department → Option Text
  live_parent none ds = none
  live_parent (some p) ds = if department_exists p ds then some p else fallback_parent ds

  abbrev pub parent_text : Option Text → Text
  parent_text none = []
  parent_text (some p) = p

  abbrev pub new_department_key : Option Text → Text → Text
  new_department_key parent name =
      str "newdept:"
      ++ (cfg.platform_type ++ (str ":" ++ (parent_text parent ++ (str ":" ++ name))))

  -- The department is made, or counted only in a dry run.
  unfoldable pub make_department :
      Text → Bool → ℕ → Text → Option Text → Text → SyncState → Option Text × SyncState
  make_department fresh dry_run i name parent path st =
      let made = record st {
        summary = record st.summary { department_created = suc st.summary.department_created };
        targets = set_target i (on_demand name parent path (some fresh)) st.targets;
      } in
      (
        some fresh,
        if dry_run then made else record made {
          departments =
              st.departments ++ (record { id = fresh; name = name; parent_id = parent } ∷ []);
          bindings =
              upsert_binding cfg.platform_type (str "department") (new_department_key parent name)
                fresh path st.bindings;
        },
      )

  -- The binding of a department that was made before is used, or deleted when that one is gone.
  unfoldable pub find_or_make :
      Text → Bool → ℕ → Text → Option Text → Text → SyncState → Option Text × SyncState
  find_or_make fresh dry_run i name parent path st =
      let key = new_department_key parent name in
      elim (get_binding cfg.platform_type (str "department") key st.bindings) [
        | none ↦ make_department fresh dry_run i name parent path st
        | some b ↦
            if department_exists b.local_id st.departments
            then (
              some b.local_id,
              record st {
                targets = set_target i (on_demand name parent path (some b.local_id)) st.targets;
              },
            )
            else make_department fresh dry_run i name parent path (record st {
              bindings = delete_binding cfg.platform_type (str "department") key st.bindings;
            })
      ]

  -- ensureTargetDept, for the key that a new department draws
  unfoldable pub ensure_target_dept : Text → Bool → ℕ → SyncState → Option Text × SyncState
  ensure_target_dept fresh dry_run i st = elim (target_at i st.targets) [
    | none ↦ (none, st)
    | some t ↦ elim t [
      | existing id ↦ (some id, st)
      | on_demand name parent path made ↦
          if is_empty (trim_space name) then (none, st) else elim made [
            | some id ↦ (some id, st)
            | none ↦
                let live = live_parent parent st.departments in
                find_or_make fresh dry_run i name live path
                  (record st { targets = set_target i (on_demand name live path none) st.targets })
          ]
    ]
  ]

  abbrev pub ensure : Text → Bool → Option ℕ → SyncState → Option Text × SyncState
  ensure fresh dry_run none st = (none, st)
  ensure fresh dry_run (some i) st = ensure_target_dept fresh dry_run i st

  abbrev pub best_target : Text → Resolver → Option ℕ
  best_target path resolver = elim (best_above path resolver) [ none ↦ none | some p ↦ some p.1 ]

  -- One path: the department of just this path, or in mapping mode that of the longest path above
  unfoldable pub resolve_path : Text → Bool → Resolver → Text → SyncState → Option Text × SyncState
  resolve_path fresh dry_run resolver path st =
      let (exact, st') = ensure fresh dry_run (resolved path resolver) st in
      elim exact [
        | some id ↦ (some id, st')
        | none ↦
            if cfg.mapping_mode
            then ensure fresh dry_run (best_target path resolver) st'
            else (none, st')
      ]

  unfoldable pub resolve_paths :
      Text → Bool → Resolver → List Text → SyncState → Option Text × SyncState
  resolve_paths fresh dry_run resolver [] st = (none, st)
  resolve_paths fresh dry_run resolver (p ∷ ps) st =
      let path = local_department_path p cfg.strip_prefix in
      let found =
        if is_empty path then (none, st) else resolve_path fresh dry_run resolver path st in
      let rest = resolve_paths fresh dry_run resolver ps found.1 in
      elim found.0 [ some id ↦ found | none ↦ rest ]

  unfoldable pub other_paths : Text → List Text → List Text
  other_paths primary [] = []
  other_paths primary (p ∷ ps) =
      let rest = other_paths primary ps in
      if is_empty (trim_space p) || text_eq (trim_space p) primary
      then rest
      else trim_space p ∷ rest

  unfoldable pub user_paths : Members → List Text
  user_paths remote =
      let primary =
        trim_space (get_string_any remote (cfg.field_mapping (str "department_path"))) in
      let others =
        other_paths primary
          (get_string_list_any remote (cfg.field_mapping (str "department_paths"))) in
      if is_empty primary then others else primary ∷ others

  -- resolveUserDepartment
  unfoldable pub resolve_user_department :
      Text → Bool → Resolver → Option Text → Members → SyncState → Option Text × SyncState
  resolve_user_department fresh dry_run resolver mount_id remote st =
      let found = resolve_paths fresh dry_run resolver (user_paths remote) st in
      elim found.0 [
        | some id ↦ found
        | none ↦ (if cfg.mapping_mode then none else mount_id, found.1)
      ]
