-- ===== src/DirectorySync/Conflict/Rename.antt =====
-- What is written for a name that was typed.
use one_auth.Base.{
  ℕ, zero, suc, ◌+◌, ◌≡◌, ◌≢◌, refl, inl, inr, ◌⊎◌, Bool, true, false, not, ◌||◌, List, Text, str,
  text_eq, is_empty, length, Option-cases, if_intro, if◌then◌else◌,
}
use one_auth.Model.User.{User}
use one_auth.LoginRule.{trim_space}
use one_auth.Handler.Env.{nil_uuid}
use one_auth.DirectorySync.Unique.{Column, value_taken, username_of, email_of}
use one_auth.DirectorySync.Email.{split_last, sanitize_email, is_valid_email}
use one_auth.DirectorySync.State.{Buffer}
use one_auth.DirectorySync.Conflict.{
  ImportState, EditReply, edited, get_buffer, edit_username, edit_email, edit_buffer_field,
  numbered_behind, renamed_email,
}
use one_auth.DirectorySync.Names.{sanitize_username}

numbered_behind-is_taken :
    (taken : Text → Bool) (candidate : ℕ → Text) (k i : ℕ) (target : Text)
    → taken target ≡ true
    → taken (numbered_behind k taken candidate i target) ≡ true
unfolding numbered_behind
numbered_behind-is_taken taken candidate zero i target h = h
numbered_behind-is_taken taken candidate (suc k) i target h =
    if_intro (λ (t : Text). taken t ≡ true) (taken (candidate i))
      (λ e. numbered_behind-is_taken taken candidate k (i + 1) (candidate i) e) (λ _. h)

-- The address that ResolveBufferConflict gives in place of one that a user has is again one that a
-- user has.
pub renamed_email-is_taken :
    (target : Text) (us : List User)
    → value_taken email_of target nil_uuid us ≡ true
    → value_taken email_of (renamed_email target us) nil_uuid us ≡ true
unfolding renamed_email
renamed_email-is_taken target us h = elim (Option-cases (split_last b'@' target)) [
  | inl n ↦ rw (renamed_email, n) h
  | inr (p, e) ↦
      rw (renamed_email, e)
        (numbered_behind-is_taken (λ v. value_taken email_of v nil_uuid us) _ (suc (length us)) 2
          target h)
]

-- A value that no user has is written, or nothing changes and no value is reported as written.
abbrev pub IsGuarded : Column → ImportState → EditReply × ImportState → Type 0
IsGuarded column st x =
    ((v : Text) × (x.0 ≡ edited v)
      × (value_taken column v nil_uuid st.users ≡ false)
      × (x.1.users ≡ st.users)
      × (x.1.bindings ≡ st.bindings))
    ⊎ ((x.1 ≡ st) × ((v : Text) → x.0 ≢ edited v))

edit_username-IsGuarded :
    (value : Text) (b : Buffer) (st : ImportState)
    → IsGuarded username_of st (edit_username value b st)
unfolding edit_username
edit_username-IsGuarded value b st =
    let target = sanitize_username value in
    if_intro (IsGuarded username_of st) (is_empty target) (λ _. inr (refl, λ v e. cc))
      (λ _.
        if_intro (IsGuarded username_of st) (value_taken username_of target nil_uuid st.users)
          (λ _. inr (refl, λ v e. cc)) (λ free. inl (target, refl, free, refl, refl)))

edit_email-IsGuarded :
    (value : Text) (b : Buffer) (st : ImportState) → IsGuarded email_of st (edit_email value b st)
unfolding edit_email
edit_email-IsGuarded value b st =
    let target = sanitize_email value in
    if_intro (IsGuarded email_of st) (is_empty target || not (is_valid_email target))
      (λ _. inr (refl, λ v e. cc))
      (λ _.
        if_intro (IsGuarded email_of st) (value_taken email_of target nil_uuid st.users)
          (λ _. inr (refl, λ v e. cc)) (λ free. inl (target, refl, free, refl, refl)))

-- The column that is edited
abbrev pub edited_column : Text → Column
edited_column field = if text_eq field (str "username") then username_of else email_of

-- EditBufferField writes, in the row of the remote user, only a name that no user has; with every
-- other answer nothing changes.
pub edit_buffer_field-IsGuarded :
    (platform external_id field value : Text) (st : ImportState)
    → IsGuarded (edited_column field) st (edit_buffer_field platform external_id field value st)
unfolding edit_buffer_field
edit_buffer_field-IsGuarded platform external_id field value st =
    if_intro (IsGuarded (edited_column field) st) (is_empty platform) (λ _. inr (refl, λ v e. cc))
      (λ _.
        if_intro (IsGuarded (edited_column field) st) (is_empty (trim_space external_id))
          (λ _. inr (refl, λ v e. cc))
          (λ _. elim (Option-cases (get_buffer platform (trim_space external_id) st.buffers)) [
            | inl n ↦ rw (n) (inr (refl, λ v e. cc))
            | inr (b, k) ↦ rw (k) (
                if_intro (IsGuarded (edited_column field) st) (text_eq field (str "username"))
                  (λ e. rw (e) (edit_username-IsGuarded value b st))
                  (λ n. rw (n) (
                    if_intro (IsGuarded email_of st) (text_eq field (str "email"))
                      (λ _. edit_email-IsGuarded value b st) (λ _. inr (refl, λ v e. cc)))))
          ]))
