-- ===== src/DirectorySync/Unique.antt =====
-- internal/service/directory_sync_service.go: names and addresses that no other user has. The loops
-- that count up run on fuel, one round more than there are users; Unique/Free shows that they then
-- end by their condition.
pub mod Free
pub mod Names
pub mod Bytes
use one_auth.Base.{
  ℕ, zero, suc, ◌+◌, ◌*◌, ◌/◌, ◌%◌, Bool, true, false, not, ◌&&◌, ◌||◌, Option, none, some, List,
  [], ◌∷◌, ◌++◌, Text, str, text_eq, is_empty, length, if◌then◌else◌, ltb,
}
use one_auth.Model.User.{User}
use one_auth.LoginRule.{trim_space}
use one_auth.Handler.Env.{nil_uuid}
use one_auth.DirectorySync.Names.{normalize_username_base, sanitize_username}

-- strconv.Itoa, for a natural number, before the digits that are there; n is enough fuel.
unfoldable pub itoa_before : ℕ → ℕ → Text → Text
itoa_before zero n s = (n % 10 + b'0') ∷ s
itoa_before (suc k) n s =
    let rest = itoa_before k (n / 10) ((n % 10 + b'0') ∷ s) in
    if ltb n 10 then (n + b'0') ∷ s else rest

abbrev pub itoa : ℕ → Text
itoa n = itoa_before n n []

-- A column of the users that is a text, or NULL
abbrev pub Column : Type 0
Column = User → Option Text

abbrev pub has_value : Option Text → Text → Bool
has_value none v = false
has_value (some t) v = text_eq t v

unfoldable pub any_other : Column → Text → Text → List User → Bool
any_other field v current [] = false
any_other field v current (u ∷ us) =
    has_value (field u) v && (text_eq current nil_uuid || not (text_eq u.id current))
    || any_other field v current us

-- valueTaken
unfoldable pub value_taken : Column → Text → Text → List User → Bool
value_taken field v current us = not (is_empty (trim_space v)) && any_other field v current us

abbrev pub username_of : Column
username_of u = some u.username

abbrev pub email_of : Column
email_of u = u.email

abbrev pub phone_of : Column
phone_of u = u.phone

-- for i := 2; taken(candidate); i++ { candidate = … }
unfoldable pub first_free : ℕ → (Text → Bool) → (ℕ → Text → Text) → ℕ → Text → Text
first_free zero taken next_candidate i c = c
first_free (suc k) taken next_candidate i c =
    let rest = first_free k taken next_candidate (i + 1) (next_candidate i c) in
    if taken c then rest else c

abbrev pub or_user : Text → Text
or_user base = if is_empty base then str "user" else base

unfoldable pub generate_username : Text → Text → Text → Text → List User → Text
generate_username strategy source nickname current us =
    let base = or_user (normalize_username_base strategy source nickname) in
    first_free (suc (length us)) (λ v. value_taken username_of v current us) (λ i _. base ++ itoa i)
      2 base

-- The loop of resolveImportUsername and of ResolveBufferConflict: each number goes behind the last.
abbrev pub numbered : Text → Text → List User → Text
numbered target current us =
    first_free (suc (length us)) (λ v. value_taken username_of v current us) (λ i c. c ++ itoa i) 2
      target

unfoldable pub resolve_import_username : Text → Text → Text → Text → Text → List User → Text
resolve_import_username strategy source nickname current override us =
    let target = sanitize_username override in
    if is_empty target
    then generate_username strategy source nickname current us
    else numbered target current us
