-- ===== src/DirectorySync/State.antt =====
-- internal/service/directory_sync_service.go and internal/model/directory_sync.go: the rows that a
-- synchronisation reads and changes, its summary, and the bindings of remote entries to local rows.
-- Texts of messages are left out.
use one_auth.Base.{
  ℕ, zero, suc, Bool, false, ◌&&◌, ◌||◌, Option, none, some, List, [], ◌∷◌, Text, text_eq,
  if◌then◌else◌,
}
use one_auth.Model.User.{User}

pub record Department : Type 0 where
  pub id : Text
  pub name : Text
  pub parent_id : Option Text

pub record Binding : Type 0 where
  pub provider : Text
  pub external_type : Text
  pub external_id : Text
  pub local_id : Text
  pub remote_path : Text

-- DirectorySyncBuffer: a user of the last pull, with what an administrator typed over its names
pub record Buffer : Type 0 where
  pub id : Text
  pub provider : Text
  pub external_id : Text
  pub username : Text
  pub email : Text
  pub username_edited : Text
  pub email_edited : Text
  pub exists : Bool

pub data Target : Type 0 where
  existing : Text → Target
  -- a department that is made on demand: its name, its parent, the remote path, and its key once it
  -- was made
  on_demand : Text → Option Text → Text → Option Text → Target

pub data DetailType : Type 0 where
  skipped disabled failed : DetailType

pub record UserSyncDetail : Type 0 where
  pub type : DetailType
  pub name : Text
  pub username : Text
  pub external_id : Text

pub record Summary : Type 0 where
  pub department_created : ℕ
  pub department_matched : ℕ
  pub user_created : ℕ
  pub user_updated : ℕ
  pub user_disabled : ℕ
  pub user_skipped : ℕ
  pub user_details : List UserSyncDetail

-- The transaction, the targets that the resolver points to, the summary, and the keys that were seen
pub record SyncState : Type 0 where
  pub users : List User
  pub departments : List Department
  pub bindings : List Binding
  pub groups : List Text
  pub members : List (Text × Text)
  pub targets : List Target
  pub summary : Summary
  pub seen : List Text

abbrev pub is_binding : Text → Text → Text → Binding → Bool
is_binding provider kind external_id b =
    text_eq b.provider provider
    && (text_eq b.external_type kind && text_eq b.external_id external_id)

-- getBinding
unfoldable pub get_binding : Text → Text → Text → List Binding → Option Binding
get_binding provider kind external_id [] = none
get_binding provider kind external_id (b ∷ bs) =
    let rest = get_binding provider kind external_id bs in
    if is_binding provider kind external_id b then some b else rest

unfoldable pub put_binding : Binding → List Binding → List Binding
put_binding v [] = v ∷ []
put_binding v (b ∷ bs) =
    let rest = put_binding v bs in
    if is_binding v.provider v.external_type v.external_id b then v ∷ bs else b ∷ rest

-- upsertBinding: the triple of provider, type and external key is unique.
unfoldable pub upsert_binding : Text → Text → Text → Text → Text → List Binding → List Binding
upsert_binding provider kind external_id local_id remote_path bs =
    put_binding
      (record {
        provider = provider;
        external_type = kind;
        external_id = external_id;
        local_id = local_id;
        remote_path = remote_path;
      })
      bs

unfoldable pub delete_binding : Text → Text → Text → List Binding → List Binding
delete_binding provider kind external_id [] = []
delete_binding provider kind external_id (b ∷ bs) =
    let rest = delete_binding provider kind external_id bs in
    if is_binding provider kind external_id b then rest else b ∷ rest

unfoldable pub department_exists : Text → List Department → Bool
department_exists id [] = false
department_exists id (d ∷ ds) = text_eq d.id id || department_exists id ds

unfoldable pub target_at : ℕ → List Target → Option Target
target_at _ [] = none
target_at zero (t ∷ ts) = some t
target_at (suc i) (t ∷ ts) = target_at i ts

unfoldable pub set_target : ℕ → Target → List Target → List Target
set_target _ v [] = []
set_target zero v (t ∷ ts) = v ∷ ts
set_target (suc i) v (t ∷ ts) = t ∷ set_target i v ts
