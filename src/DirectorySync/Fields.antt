-- ===== src/DirectorySync/Fields.antt =====
-- internal/service/directory_sync_service.go: how a value of the directory, which is decoded JSON, is
-- read. A number is the text that strconv gives it, and whether it is zero.
use one_auth.Base.{
  ℕ, Bool, true, false, not, ◌||◌, List, [], ◌∷◌, ◌++◌, Text, str, text_eq, is_empty, contains,
  if◌then◌else◌, ◌==◌,
}
use one_auth.LoginRule.{trim_space}
use one_auth.Account.Ldap.{to_lower}

mutual
  pub data Value : Type 0 where
    null : Value
    text : Text → Value
    number : Text → Bool → Value
    boolean : Bool → Value
    -- []any, and []string
    array : Values → Value
    texts : List Text → Value
    object : Members → Value

  pub data Values : Type 0 where
    end : Values
    item : Value → Values → Values

  pub data Members : Type 0 where
    nothing : Members
    entry : Text → Value → Members → Members

-- m[key], which is nil for a key that is missing
unfoldable pub member_of : Text → Members → Value
member_of key nothing = null
member_of key (entry k v m) = let rest = member_of key m in if text_eq k key then v else rest

abbrev pub field : Text → Value → Value
field key (object m) = member_of key m
field key _ = null

-- strings.Split, with the part that is being read
unfoldable pub split_from : ℕ → Text → Text → List Text
split_from c part [] = part ∷ []
split_from c part (d ∷ s) =
    let cut = split_from c [] s in
    let longer = split_from c (part ++ (d ∷ [])) s in if d == c then part ∷ cut else longer

abbrev pub split : ℕ → Text → List Text
split c s = split_from c [] s

unfoldable pub walk : Value → List Text → Value
walk v [] = v
walk v (p ∷ ps) = walk (field p v) ps

abbrev pub bool_text : Bool → Text
bool_text true = str "true"
bool_text false = str "false"

abbrev pub text_value : Value → Text
text_value (text s) = trim_space s
text_value (number s zero_value) = s
text_value (boolean b) = bool_text b
text_value _ = []

unfoldable pub get_string_any : Members → Text → Text
get_string_any m path =
    if is_empty (trim_space path) then [] else text_value (walk (object m) (split b'.' path))

-- The texts that are not blank, trimmed
unfoldable pub non_blank : List Text → List Text
non_blank [] = []
non_blank (s ∷ ss) =
    let rest = non_blank ss in if is_empty (trim_space s) then rest else trim_space s ∷ rest

abbrev pub text_in : Value → Text
text_in (text s) = s
text_in _ = []

unfoldable pub texts_in : Values → List Text
texts_in end = []
texts_in (item v vs) = text_in v ∷ texts_in vs

abbrev pub list_value : Value → List Text
list_value (array vs) = non_blank (texts_in vs)
list_value (texts ss) = ss
list_value (text s) =
    if is_empty (trim_space s)
    then []
    else if contains s (str "|")
    then non_blank (split b'|' s)
    else trim_space s ∷ []
list_value _ = []

abbrev pub or_walk : Members → Text → Value → Value
or_walk m path null = if contains path (str ".") then walk (object m) (split b'.' path) else null
or_walk m path v = v

unfoldable pub get_string_list_any : Members → Text → List Text
get_string_list_any m path =
    if is_empty (trim_space path) then [] else list_value (or_walk m path (member_of path m))

-- "有效" and "无效"
abbrev pub valid : Text
valid = 230 ∷ (156 ∷ (137 ∷ (230 ∷ (149 ∷ (136 ∷ [])))))

abbrev pub invalid : Text
invalid = 230 ∷ (151 ∷ (160 ∷ (230 ∷ (149 ∷ (136 ∷ [])))))

abbrev pub bool_value : Bool → Value → Bool
bool_value fallback (boolean b) = b
bool_value fallback (text s) =
    if text_eq (to_lower s) (str "true") || (text_eq s (str "1") || text_eq s valid)
    then true
    else if text_eq (to_lower s) (str "false") || (text_eq s (str "0") || text_eq s invalid)
    then false
    else fallback
bool_value fallback (number s zero_value) = not zero_value
bool_value fallback _ = fallback

unfoldable pub get_bool_any : Members → Text → Bool → Bool
get_bool_any m path fallback =
    if is_empty (trim_space path) then fallback else bool_value fallback (member_of path m)

-- firstNonEmpty, for two texts
abbrev pub first_non_empty : Text → Text → Text
first_non_empty s t = if is_empty (trim_space s) then trim_space t else trim_space s

-- defaultDirectoryFieldMapping
unfoldable pub default_directory_field_mapping : Text → Text
default_directory_field_mapping key =
    if text_eq key (str "external_id")
    then str "externalId"
    else if text_eq key (str "username")
    then str "userId"
    else if text_eq key (str "nickname")
    then str "userName"
    else if text_eq key (str "email")
    then str "email"
    else if text_eq key (str "given_name")
    then str "givenName"
    else if text_eq key (str "surname")
    then str "surname"
    else if text_eq key (str "phone")
    then str "phone"
    else if text_eq key (str "position")
    then str "position"
    else if text_eq key (str "department_path")
    then str "departmentPath"
    else if text_eq key (str "department_paths")
    then str "departmentPaths"
    else if text_eq key (str "active")
    then str "isActive"
    else []
