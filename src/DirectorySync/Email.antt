-- ===== src/DirectorySync/Email.antt =====
-- internal/service/directory_sync_service.go: the address of a user, by the strategy that is
-- configured.
pub mod Assign
use one_auth.Base.{
  ℕ, suc, ◌+◌, Bool, true, false, not, ◌&&◌, ◌||◌, Option, none, some, List, [], ◌∷◌, ◌++◌, Text,
  str, text_eq, is_empty, has_prefix, contains, drop_prefix, length, if◌then◌else◌, ◌==◌,
}
use one_auth.Model.User.{User}
use one_auth.LoginRule.{trim_space}
use one_auth.Account.Ldap.{to_lower}
use one_auth.DirectorySync.Names.{is_upper, is_lower, is_digit, is_mark, keep, trim, is_latin}
use one_auth.DirectorySync.Unique.{value_taken, email_of, first_free, itoa}

-- The columns of DirectorySyncConfig that make addresses
pub record EmailConfig : Type 0 where
  pub strategy : Text
  pub domain : Text

unfoldable pub sanitize_email : Text → Text
sanitize_email s = to_lower (trim_space s)

-- The texts before and after the last c, for strings.LastIndex
unfoldable pub split_last : ℕ → Text → Option (Text × Text)
split_last c [] = none
split_last c (d ∷ s) = elim (split_last c s) [
  | some p ↦ some (d ∷ p.0, p.1)
  | none ↦ if d == c then some ([], s) else none
]

unfoldable pub is_valid_email : Text → Bool
is_valid_email s = elim (split_last b'@' (trim_space s)) [
  | none ↦ false
  | some p ↦ not (is_empty p.0) && (not (is_empty p.1) && contains p.1 (str "."))
]

abbrev pub is_local_mark : ℕ → Bool
is_local_mark c = is_mark c || (c == b'%' || c == b'+')

unfoldable pub sanitize_email_local : Text → Text
sanitize_email_local s =
    trim is_local_mark
      (keep (λ c. is_lower c || (is_digit c || is_local_mark c)) (to_lower (trim_space s)))

unfoldable pub sanitize_email_domain : Text → Text
sanitize_email_domain s =
    let t = to_lower (trim_space s) in
    trim (λ c. c == b'.') (if has_prefix t (str "@") then drop_prefix t (str "@") else t)

unfoldable pub split_email_address : Text → Text × Text
split_email_address s = elim (split_last b'@' (trim_space s)) [
  | none ↦ ([], [])
  | some p ↦ if is_empty p.0 || is_empty p.1 then ([], []) else (p.0, to_lower p.1)
]

-- The loop of camelSegments, with the segment that is being read
unfoldable pub segments_from : Text → Text → List Text
segments_from cur [] = if is_empty cur then [] else cur ∷ []
segments_from cur (c ∷ s) =
    let cut = segments_from (c ∷ []) s in
    let longer = segments_from (cur ++ (c ∷ [])) s in
    if is_upper c && not (is_empty cur) then cur ∷ cut else longer

abbrev pub camel_segments : Text → List Text
camel_segments s = segments_from [] s

unfoldable pub join : List Text → Text
join [] = []
join (s ∷ ss) = s ++ join ss

-- The first segment and the others, when there are two at least
abbrev pub surname_and_given : List Text → Text × Text
surname_and_given [] = ([], [])
surname_and_given (s ∷ []) = ([], [])
surname_and_given (s ∷ (t ∷ ts)) = (s, join (t ∷ ts))

unfoldable pub derive_pinyin_name : Text → Text × Text
derive_pinyin_name s =
    if is_empty (trim_space s) || not (is_latin (trim_space s))
    then ([], [])
    else surname_and_given (camel_segments (trim_space s))

-- What the directory says of a user, for the address
pub record Person : Type 0 where
  pub source_username : Text
  pub nickname : Text
  pub given_name : Text
  pub surname : Text
  pub raw_email : Text

-- useRemoteEmail
unfoldable pub use_remote_email : Text → Person → Bool
use_remote_email domain p =
    let remote_domain = (split_email_address p.raw_email).1 in
    not (is_empty remote_domain) && text_eq (to_lower remote_domain) (to_lower domain)

unfoldable pub given_surname_local : Text → Person → Text
given_surname_local domain p =
    let g = trim_space p.given_name in
    let sr = trim_space p.surname in
    let (derived, given) = derive_pinyin_name p.source_username in
    let src = to_lower (trim_space p.source_username) in
    if is_latin g && is_latin sr
    then sanitize_email_local (g ++ (str "." ++ sr))
    else if not (is_empty given) && not (is_empty derived)
    then sanitize_email_local (given ++ (str "." ++ derived))
    else if use_remote_email domain p
    then sanitize_email_local (split_email_address p.raw_email).0
    else if is_empty src
    then []
    else sanitize_email_local src

unfoldable pub fullname_local : Text → Person → Text
fullname_local domain p =
    let src = to_lower (trim_space p.source_username) in
    if not (is_empty src)
    then sanitize_email_local src
    else if use_remote_email domain p
    then sanitize_email_local (split_email_address p.raw_email).0
    else if is_latin p.nickname
    then sanitize_email_local p.nickname
    else []

abbrev pub at_domain : Text → Text → Text
at_domain domain local = if is_empty local then [] else local ++ (str "@" ++ domain)

unfoldable pub generate_email : EmailConfig → Person → Text
generate_email cfg p =
    let strategy = trim_space cfg.strategy in
    let domain = sanitize_email_domain cfg.domain in
    if is_empty strategy || is_empty domain
    then []
    else if text_eq strategy (str "given_surname")
    then at_domain domain (given_surname_local domain p)
    else if text_eq strategy (str "fullname")
    then at_domain domain (fullname_local domain p)
    else []

unfoldable pub resolve_preview_email : EmailConfig → Person → Text
resolve_preview_email cfg p =
    if is_empty (trim_space cfg.strategy)
    then trim_space p.raw_email
    else (let gen = generate_email cfg p in if is_empty gen then trim_space p.raw_email else gen)

-- The address of the directory, if there is one and nobody else has it
abbrev pub raw_if_free : Person → Text → List User → Option Text
raw_if_free p current us =
    let raw = trim_space p.raw_email in
    if is_empty raw || value_taken email_of raw current us then none else some raw

-- The texts before the first '@' and from it on, for strings.Index; all of it without one
unfoldable pub before_first_at : Text → Text
before_first_at [] = []
before_first_at (c ∷ s) = let rest = before_first_at s in if c == b'@' then [] else c ∷ rest

unfoldable pub from_first_at : Text → Text
from_first_at [] = []
from_first_at (c ∷ s) = let rest = from_first_at s in if c == b'@' then c ∷ s else rest

unfoldable pub numbered_email : Text → Text → List User → Text
numbered_email gen current us =
    first_free (suc (length us)) (λ v. value_taken email_of v current us)
      (λ i _. before_first_at gen ++ (itoa i ++ from_first_at gen)) 2 gen

unfoldable pub resolve_assign_email : EmailConfig → Person → Text → List User → Option Text
resolve_assign_email cfg p current us =
    if is_empty (trim_space cfg.strategy)
    then raw_if_free p current us
    else (let gen = generate_email cfg p in
        if is_empty gen then raw_if_free p current us else some (numbered_email gen current us))
