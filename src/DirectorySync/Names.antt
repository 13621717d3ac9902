-- ===== src/DirectorySync/Names.antt =====
-- internal/service/directory_sync_service.go: how a login name is made of what the directory says.
-- The functions of packages strings and unicode are those on ASCII; the cleaners take out every
-- byte of a rune that is not ASCII.
use one_auth.Base.{
  ℕ, ◌-◌, Bool, true, not, ◌&&◌, ◌||◌, [], ◌∷◌, reverse, Text, str, text_eq, is_empty, drop_while,
  length, if◌then◌else◌, ltb, leb, ◌==◌,
}
use one_auth.LoginRule.{trim_space}
use one_auth.Account.Ldap.{to_lower}

abbrev pub is_digit : ℕ → Bool
is_digit c = leb b'0' c && leb c b'9'

abbrev pub is_upper : ℕ → Bool
is_upper c = leb b'A' c && leb c b'Z'

abbrev pub is_lower : ℕ → Bool
is_lower c = leb b'a' c && leb c b'z'

unfoldable pub all_bytes : (ℕ → Bool) → Text → Bool
all_bytes p [] = true
all_bytes p (c ∷ s) = p c && all_bytes p s

-- The bytes that a cleaner keeps
unfoldable pub keep : (ℕ → Bool) → Text → Text
keep p [] = []
keep p (c ∷ s) = let rest = keep p s in if p c then c ∷ rest else rest

-- strings.Trim, for a set of bytes
unfoldable pub trim : (ℕ → Bool) → Text → Text
trim p s = reverse (drop_while p (reverse (drop_while p s)))

-- s[n:]
unfoldable pub drop : ℕ → Text → Text
drop n [] = []
drop n (c ∷ s) = let rest = drop (n - 1) s in if n == 0 then c ∷ s else rest

unfoldable pub is_latin : Text → Bool
is_latin s =
    not (is_empty (trim_space s))
    && all_bytes (λ c. is_upper c || (is_lower c || is_digit c)) (trim_space s)

unfoldable pub is_numeric : Text → Bool
is_numeric s = not (is_empty (trim_space s)) && all_bytes is_digit (trim_space s)

abbrev pub is_mark : ℕ → Bool
is_mark c = c == b'.' || (c == b'_' || c == b'-')

-- [a-z0-9._-]
abbrev pub is_username_byte : ℕ → Bool
is_username_byte c = is_lower c || (is_digit c || is_mark c)

unfoldable pub sanitize_username : Text → Text
sanitize_username s = trim is_mark (keep is_username_byte (to_lower (trim_space s)))

-- The cases "pinyin", "smart_pinyin" and ""
unfoldable pub pinyin_base : Text → Text → Text
pinyin_base source nickname =
    if not (is_empty source) && is_latin source
    then sanitize_username source
    else if not (is_empty nickname) && is_latin nickname
    then sanitize_username nickname
    else if is_numeric source
    then b'u' ∷ (if ltb 6 (length source) then drop (length source - 6) source else source)
    else sanitize_username source

unfoldable pub normalize_username_base : Text → Text → Text → Text
normalize_username_base strategy source_username nickname =
    let source = to_lower (trim_space source_username) in
    if text_eq strategy (str "source_lower")
    then sanitize_username source
    else if text_eq strategy (str "pinyin")
        || (text_eq strategy (str "smart_pinyin") || is_empty strategy)
    then pinyin_base source (to_lower (trim_space nickname))
    else sanitize_username source

unfoldable pub should_normalize_existing_username : Text → Text → Bool
should_normalize_existing_username current source =
    let c = trim_space current in
    let s = trim_space source in
    is_empty c || (is_numeric c || (text_eq c s || text_eq c (to_lower s)))
