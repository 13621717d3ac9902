-- ===== src/DirectorySync/Paths.antt =====
-- internal/service/directory_sync_service.go: paths of departments, whose parts stand between '/'.
pub mod Normal
use one_auth.Base.{
  ℕ, zero, suc, ◌+◌, Bool, true, false, not, ◌&&◌, ◌||◌, Option, none, some, List, [], ◌∷◌, ◌++◌,
  Text, str, text_eq, is_empty, has_prefix, drop_prefix, contains, length, if◌then◌else◌, ◌==◌,
}
use one_auth.LoginRule.{trim_space}
use one_auth.DirectorySync.Names.{trim}
use one_auth.DirectorySync.Email.{split_last}

abbrev pub is_slash : ℕ → Bool
is_slash c = c == b'/'

-- strings.ReplaceAll(s, "//", "/"): the second of two slashes is taken out, and the text goes on
-- behind it.
unfoldable pub halve : Text → Text
halve [] = []
halve (c ∷ []) = c ∷ []
halve (c ∷ (d ∷ s)) =
    let past = halve s in
    let rest = halve (d ∷ s) in if is_slash c && is_slash d then c ∷ past else c ∷ rest

-- for strings.Contains(value, "//"), on fuel
unfoldable pub collapse : ℕ → Text → Text
collapse zero s = s
collapse (suc k) s = let rest = collapse k (halve s) in if contains s (str "//") then rest else s

unfoldable pub trim_slashes : Text → Text
trim_slashes s = let t = trim is_slash (trim_space s) in collapse (length t) t

unfoldable pub local_department_path : Text → Text → Text
local_department_path remote_path strip_prefix =
    let path = trim_slashes remote_path in
    let prefix = trim_slashes strip_prefix in
    if is_empty prefix
    then path
    else if text_eq path prefix
    then []
    else if has_prefix path (prefix ++ str "/")
    then drop_prefix path (prefix ++ str "/")
    else path

unfoldable pub parent_path : Text → Text
parent_path s = elim (split_last b'/' (trim_slashes s)) [ none ↦ [] | some p ↦ p.0 ]

unfoldable pub leaf_name : Text → Text
leaf_name s = elim (split_last b'/' (trim_slashes s)) [ none ↦ trim_slashes s | some p ↦ p.1 ]

-- strings.Split(path, "/") has one part more than there are slashes.
unfoldable pub slashes : Text → ℕ
slashes [] = 0
slashes (c ∷ s) = let rest = slashes s in if is_slash c then suc rest else rest

unfoldable pub path_depth : Text → ℕ
path_depth s = if is_empty (trim_space s) then 0 else slashes s + 1

-- inSelectedSubtree, for a map of roots that are true
unfoldable pub in_selected_subtree : Text → List Text → Bool
in_selected_subtree p [] = false
in_selected_subtree p (root ∷ roots) =
    (text_eq root p || has_prefix p (root ++ str "/")) || in_selected_subtree p roots
