-- ===== src/DirectorySync/Conflict.antt =====
-- internal/service/directory_sync_service.go, EditBufferField and ResolveBufferConflict: names that an
-- administrator types over those of the last pull. `Updates` leaves out the empty columns.
pub mod Rename
use one_auth.Base.{
  ℕ, zero, suc, ◌+◌, Bool, true, false, not, ◌&&◌, ◌||◌, Option, none, some, or_else, List, [], ◌∷◌,
  ◌++◌, Text, str, text_eq, is_empty, length, if◌then◌else◌,
}
use one_auth.Model.User.{User, get_by_id}
use one_auth.LoginRule.{trim_space}
use one_auth.Account.{get_by_username, get_by_email}
use one_auth.Handler.Env.{nil_uuid, text_of}
use one_auth.DirectorySync.Names.{sanitize_username}
use one_auth.DirectorySync.Unique.{value_taken, username_of, email_of, itoa, numbered, or_user}
use one_auth.DirectorySync.Email.{sanitize_email, is_valid_email, split_last}
use one_auth.DirectorySync.State.{Binding, Buffer, upsert_binding}

-- The rows that are read and changed
pub record ImportState : Type 0 where
  pub users : List User
  pub bindings : List Binding
  pub buffers : List Buffer

pub data EditReply : Type 0 where
  no_platform : EditReply
  no_external_id : EditReply
  no_row : EditReply
  bad_value : EditReply
  unknown_field : EditReply
  unknown_action : EditReply
  no_such_user : EditReply
  -- the value, and the user who has it
  conflict : Text → Option User → EditReply
  edited : Text → EditReply

-- The row of the provider and the key
unfoldable pub get_buffer : Text → Text → List Buffer → Option Buffer
get_buffer provider external_id [] = none
get_buffer provider external_id (b ∷ bs) =
    let rest = get_buffer provider external_id bs in
    if text_eq b.provider provider && text_eq b.external_id external_id then some b else rest

unfoldable pub put_buffer : Buffer → List Buffer → List Buffer
put_buffer v [] = []
put_buffer v (b ∷ bs) =
    let rest = put_buffer v bs in if text_eq b.id v.id then v ∷ rest else b ∷ rest

abbrev pub write_username : Text → Buffer → ImportState → ImportState
write_username v b st = record st {
  buffers = put_buffer (record b { username = v; username_edited = v }) st.buffers;
}

abbrev pub write_email : Text → Buffer → ImportState → ImportState
write_email v b st = record st {
  buffers = put_buffer (record b { email = v; email_edited = v }) st.buffers;
}

unfoldable pub edit_username : Text → Buffer → ImportState → EditReply × ImportState
edit_username value b st =
    let target = sanitize_username value in
    if is_empty target
    then (bad_value, st)
    else if value_taken username_of target nil_uuid st.users
    then (conflict target (get_by_username target st.users), st)
    else (edited target, write_username target b st)

unfoldable pub edit_email : Text → Buffer → ImportState → EditReply × ImportState
edit_email value b st =
    let target = sanitize_email value in
    if is_empty target || not (is_valid_email target)
    then (bad_value, st)
    else if value_taken email_of target nil_uuid st.users
    then (conflict target (get_by_email target st.users), st)
    else (edited target, write_email target b st)

-- The start of both functions: the platform, the key and the row
abbrev pub with_row :
    Text → Text → ImportState → (Buffer → EditReply × ImportState) → EditReply × ImportState
with_row platform external_id st f =
    if is_empty platform
    then (no_platform, st)
    else if is_empty (trim_space external_id)
    then (no_external_id, st)
    else elim (get_buffer platform (trim_space external_id) st.buffers) [
      | none ↦ (no_row, st)
      | some b ↦ f b
    ]

unfoldable pub edit_buffer_field : Text → Text → Text → Text → ImportState → EditReply × ImportState
edit_buffer_field platform external_id field value st = with_row platform external_id st (λ b.
    if text_eq field (str "username")
    then edit_username value b st
    else if text_eq field (str "email")
    then edit_email value b st
    else (unknown_field, st))

abbrev pub text_or_old : Text → Text → Text
text_or_old new old = if is_empty new then old else new

-- The row of a buffer that is linked to a user
unfoldable pub linked : Text → User → Buffer → Buffer
linked field u b =
    if text_eq field (str "username")
    then record b { exists = true; username = text_or_old u.username b.username }
    else if text_eq field (str "email")
    then record b { exists = true; email = text_or_old (text_of u.email) b.email }
    else record b { exists = true }

abbrev pub linked_reply : Text → User → EditReply
linked_reply field u =
    if text_eq field (str "username")
    then edited u.username
    else if text_eq field (str "email")
    then edited (text_of u.email)
    else unknown_field

unfoldable pub link : Text → Text → Text → Text → Buffer → ImportState → EditReply × ImportState
link platform external_id field user_id b st = elim (get_by_id user_id st.users) [
  | none ↦ (no_such_user, st)
  | some u ↦ (
    linked_reply field u,
    record st {
      bindings = upsert_binding platform (str "user") external_id u.id [] st.bindings;
      buffers = put_buffer (linked field u b) st.buffers;
    },
  )
]

unfoldable pub rename_username : Text → Buffer → ImportState → EditReply × ImportState
rename_username value b st =
    let typed = sanitize_username value in
    let target =
      numbered (or_user (if is_empty typed then sanitize_username b.username else typed)) nil_uuid
        st.users in
    (edited target, write_username target b st)

-- for i := 2; taken(local + i + domain); i++ { target = local + i + domain }, on fuel
unfoldable pub numbered_behind : ℕ → (Text → Bool) → (ℕ → Text) → ℕ → Text → Text
numbered_behind zero taken candidate i target = target
numbered_behind (suc k) taken candidate i target =
    let rest = numbered_behind k taken candidate (i + 1) (candidate i) in
    if taken (candidate i) then rest else target

unfoldable pub renamed_email : Text → List User → Text
renamed_email target us = elim (split_last b'@' target) [
  | none ↦ target
  | some p ↦
      numbered_behind (suc (length us)) (λ v. value_taken email_of v nil_uuid us)
        (λ i. p.0 ++ (itoa i ++ (str "@" ++ p.1))) 2 target
]

unfoldable pub rename_email : Text → Buffer → ImportState → EditReply × ImportState
rename_email value b st =
    let typed = sanitize_email value in
    let target =
      if is_empty typed || not (is_valid_email typed) then sanitize_email b.email else typed in
    if is_empty target || not (is_valid_email target)
    then (bad_value, st)
    else (edited (renamed_email target st.users), write_email (renamed_email target st.users) b st)

unfoldable pub resolve_buffer_conflict :
    Text → Text → Text → Text → Text → Text → ImportState → EditReply × ImportState
resolve_buffer_conflict platform external_id field action user_id value st =
    with_row platform external_id st (λ b.
      if text_eq action (str "link")
      then link platform (trim_space external_id) field user_id b st
      else if text_eq action (str "rename")
      then (if text_eq field (str "username")
          then rename_username value b st
          else if text_eq field (str "email")
          then rename_email value b st
          else (unknown_field, st))
      else (unknown_action, st))
