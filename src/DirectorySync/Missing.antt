-- ===== src/DirectorySync/Missing.antt =====
-- internal/service/directory_sync_service.go, disableMissingUsers: users of the platform that the
-- last pull did not bring are disabled.
pub mod Exact
use one_auth.Base.{
  ℕ, suc, ◌≡◌, ◌≢◌, refl, inl, inr, Bool, true, false, not, ◌&&◌, ◌||◌, Option, none, some, List,
  [], ◌∷◌, ◌++◌, Text, str, text_eq, text_eq_refl, text_eq_iff, is_empty, arith, Bool-cases,
  if◌then◌else◌,
}
use one_auth.Model.User.{User}
use one_auth.Account.{update}
use one_auth.DirectorySync.State.{
  Binding, Buffer, DetailType, disabled, UserSyncDetail, Summary, SyncState,
}
use one_auth.DirectorySync.Remote.{source_missing, save_user}
use one_auth.DirectorySync.Users.{SyncError, disable_failed}

-- The maps of the buffer: is there a row of the provider with this non-empty value?
unfoldable pub has_external_id : Text → Text → List Buffer → Bool
has_external_id provider e [] = false
has_external_id provider e (b ∷ bs) =
    text_eq b.provider provider && (not (is_empty e) && text_eq b.external_id e)
    || has_external_id provider e bs

unfoldable pub has_username : Text → Text → List Buffer → Bool
has_username provider n [] = false
has_username provider n (b ∷ bs) =
    text_eq b.provider provider && (not (is_empty n) && text_eq b.username n)
    || has_username provider n bs

unfoldable pub has_email : Text → Option Text → List Buffer → Bool
has_email provider none bs = false
has_email provider (some e) [] = false
has_email provider (some e) (b ∷ bs) =
    text_eq b.provider provider && (not (is_empty e) && text_eq b.email e)
    || has_email provider (some e) bs

-- The first binding of the local user
unfoldable pub binding_of : Text → Text → List Binding → Option Binding
binding_of provider id [] = none
binding_of provider id (b ∷ bs) =
    let rest = binding_of provider id bs in
    if text_eq b.provider provider
      && (text_eq b.external_type (str "user") && text_eq b.local_id id)
    then some b
    else rest

unfoldable pub remote_exists : Text → List Buffer → List Binding → User → Bool
remote_exists provider buffers bs u =
    elim (binding_of provider u.id bs) [
      | none ↦ false
      | some b ↦ has_external_id provider b.external_id buffers
    ]
    || (has_username provider u.username buffers || has_email provider u.email buffers)

-- A user of the platform that is not disabled yet, and not in the buffer
unfoldable pub is_missing : Text → List Buffer → List Binding → User → Bool
is_missing provider buffers bs u =
    text_eq u.user_source (str "platform")
    && (not (not u.is_active && text_eq u.hire_status (str "resigned"))
        && not (remote_exists provider buffers bs u))

module _ (provider : Text) (buffers : List Buffer) (dry_run : Bool) where
  abbrev pub count_disabled : User → SyncState → SyncState
  count_disabled u st = record st {
    summary = record st.summary {
      user_disabled = suc st.summary.user_disabled;
      user_details =
          st.summary.user_details
          ++ (record { type = disabled; name = u.nickname; username = u.username; external_id = [] }
              ∷ []);
    };
  }

  -- The loop over the rows that were read at the start
  unfoldable pub disable_each : List User → SyncState → Option SyncError × SyncState
  disable_each [] st = (none, st)
  disable_each (u ∷ us) st =
      let kept = disable_each us st in
      let counted = disable_each us (count_disabled u st) in
      if not (is_missing provider buffers st.bindings u)
      then kept
      else if dry_run
      then counted
      else elim (save_user (source_missing u) st.users) [
        | none ↦ (some (disable_failed u.nickname), count_disabled u st)
        | some rows ↦ disable_each us (record (count_disabled u st) { users = rows })
      ]

  -- disableMissingUsers
  unfoldable pub disable_missing_users : SyncState → Option SyncError × SyncState
  disable_missing_users st = disable_each st.users st
