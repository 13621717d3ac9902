-- ===== src/DirectorySync/Unique/Bytes.antt =====
-- The login names that are made up are free, and of the bytes of a login name.
use mathlib.Core.List.{reverse-cons}
use one_auth.Base.{
  ℕ, zero, suc, ◌+◌, ◌/◌, ◌%◌, ◌<◌, ◌≤◌, ◌≡◌, refl, inl, inr, Bool, true, false, ◌||◌, List, [],
  ◌∷◌, ◌++◌, reverse, Text, is_empty, drop_while, length, arith, Bool-cases, if_intro, ltb,
}
use one_auth.Model.User.{User}
use one_auth.LoginRule.{trim_space}
use one_auth.Account.Ldap.{to_lower}
use one_auth.DirectorySync.Names.{
  is_digit, is_upper, is_lower, is_mark, is_username_byte, all_bytes, keep, trim, is_latin,
  is_numeric, sanitize_username, pinyin_base, normalize_username_base,
}
use one_auth.DirectorySync.Unique.{
  itoa_before, itoa, value_taken, username_of, first_free, or_user, generate_username, numbered,
  resolve_import_username,
}
use one_auth.DirectorySync.Unique.Free.{first_free-value_taken}
use one_auth.DirectorySync.Unique.Names.{rank_after, rank_after-number, rank_after-base}

all_bytes-append :
    (p : ℕ → Bool) (s t : Text)
    → all_bytes p s ≡ true
    → all_bytes p t ≡ true
    → all_bytes p (s ++ t) ≡ true
unfolding all_bytes
all_bytes-append p [] t h k = k
all_bytes-append p (c ∷ s) t h k = ground (arith, all_bytes-append p s t)

all_bytes-keep : (p : ℕ → Bool) (s : Text) → all_bytes p (keep p s) ≡ true
unfolding all_bytes keep
all_bytes-keep p [] = refl
all_bytes-keep p (c ∷ s) = ground (arith, all_bytes-keep p s)

all_bytes-drop_while :
    (p q : ℕ → Bool) (s : Text) → all_bytes p s ≡ true → all_bytes p (drop_while q s) ≡ true
unfolding all_bytes drop_while
all_bytes-drop_while p q [] h = refl
all_bytes-drop_while p q (c ∷ s) h = ground (arith, all_bytes-drop_while p q s)

digit-is_username_byte :
    (n : ℕ) (s : Text)
    → all_bytes is_username_byte s ≡ true
    → all_bytes is_username_byte ((n % 10 + b'0') ∷ s) ≡ true
unfolding all_bytes
digit-is_username_byte n s h = let small : n % 10 < 10 = omega arith in ground (arith, small)

pub all_bytes-itoa_before :
    (k n : ℕ) (s : Text)
    → n ≤ k
    → all_bytes is_username_byte s ≡ true
    → all_bytes is_username_byte (itoa_before k n s) ≡ true
unfolding all_bytes itoa_before
all_bytes-itoa_before zero n s b h = ground arith
all_bytes-itoa_before (suc k) n s b h = elim (Bool-cases (ltb n 10)) [
  | inl e ↦ ground arith
  | inr e ↦ rw (e) (
      all_bytes-itoa_before k (n / 10) ((n % 10 + b'0') ∷ s) (omega arith)
        (digit-is_username_byte n s h))
]

all_bytes-reverse :
    (p : ℕ → Bool) (s : Text) → all_bytes p s ≡ true → all_bytes p (reverse s) ≡ true
unfolding all_bytes
all_bytes-reverse p [] h = refl
all_bytes-reverse p (c ∷ s) h =
    rw (reverse-cons c s) (
      all_bytes-append p (reverse s) (c ∷ []) (all_bytes-reverse p s (ground arith)) (ground arith))

all_bytes-trim : (p q : ℕ → Bool) (s : Text) → all_bytes p s ≡ true → all_bytes p (trim q s) ≡ true
unfolding trim
all_bytes-trim p q s h =
    let front = all_bytes-drop_while p q s h in
    let back = all_bytes-drop_while p q (reverse (drop_while q s)) (all_bytes-reverse p _ front) in
    all_bytes-reverse p _ back

abbrev pub IsClean : Text → Type 0
IsClean s = all_bytes is_username_byte s ≡ true

sanitize_username-IsClean : (s : Text) → IsClean (sanitize_username s)
unfolding sanitize_username
sanitize_username-IsClean s =
    all_bytes-trim is_username_byte is_mark _ (all_bytes-keep is_username_byte _)

all_bytes_mono :
    (p q : ℕ → Bool) (s : Text)
    → ((c : ℕ) → p c ≡ true → q c ≡ true)
    → all_bytes p s ≡ true
    → all_bytes q s ≡ true
unfolding all_bytes
all_bytes_mono p q [] imp h = refl
all_bytes_mono p q (c ∷ s) imp h = ground (arith, imp c, all_bytes_mono p q s imp)

-- A text of digits is one of letters and digits, so that no "u" is ever put before one.
numeric_is_latin : (s : Text) → is_numeric s ≡ true → is_latin s ≡ true
unfolding is_numeric is_latin
numeric_is_latin s h =
    let wider =
      all_bytes_mono is_digit (λ c. is_upper c || (is_lower c || is_digit c)) (trim_space s)
        (λ c k. ground arith) (ground arith) in
    ground (arith, wider)

numeric_non_empty : (s : Text) → is_numeric s ≡ true → is_empty s ≡ false
unfolding is_numeric trim_space is_empty drop_while
numeric_non_empty [] h = cc
numeric_non_empty (c ∷ s) h = refl

pinyin_base-IsClean : (source nickname : Text) → IsClean (pinyin_base source nickname)
unfolding pinyin_base
pinyin_base-IsClean source nickname = ground (
  arith,
  sanitize_username-IsClean source,
  sanitize_username-IsClean nickname,
  numeric_is_latin source,
  numeric_non_empty source,
)

normalize_username_base-IsClean :
    (strategy source nickname : Text) → IsClean (normalize_username_base strategy source nickname)
unfolding normalize_username_base
normalize_username_base-IsClean strategy source nickname =
    let s = to_lower (trim_space source) in
    ground
      (arith, sanitize_username-IsClean s, pinyin_base-IsClean s (to_lower (trim_space nickname)))

pub first_free-keeps :
    (taken : Text → Bool) (Q : Text → Type 0) (next_candidate : ℕ → Text → Text)
    → ((i : ℕ) (c : Text) → Q c → Q (next_candidate i c))
    → (k i : ℕ) (c : Text) → Q c
    → Q (first_free k taken next_candidate i c)
unfolding first_free
first_free-keeps taken Q next_candidate keeps zero i c q = q
first_free-keeps taken Q next_candidate keeps (suc k) i c q =
    if_intro Q (taken c)
      (λ _.
        first_free-keeps taken Q next_candidate keeps k (i + 1) (next_candidate i c) (keeps i c q))
      (λ _. q)

length-append : (s t : Text) → length (s ++ t) ≡ length s + length t
length-append [] t = omega arith
length-append (c ∷ s) t = let rest = length-append s t in omega arith

pub itoa_before-length : (k n : ℕ) (s : Text) → length s < length (itoa_before k n s)
unfolding itoa_before
itoa_before-length zero n s = omega arith
itoa_before-length (suc k) n s =
    let rest = itoa_before-length k (n / 10) ((n % 10 + b'0') ∷ s) in
    if_intro (λ (t : Text). length s < length t) (ltb n 10) (λ _. omega arith) (λ _. omega arith)

IsClean-itoa : (c : Text) (i : ℕ) → IsClean c → IsClean (c ++ itoa i)
unfolding all_bytes
IsClean-itoa c i h =
    all_bytes-append is_username_byte c (itoa i) h (all_bytes-itoa_before i i [] (omega arith) refl)

-- A name that no other user has, of the bytes of a login name, and not empty
abbrev pub IsFresh : Text → List User → Text → Type 0
IsFresh current us v = (value_taken username_of v current us ≡ false) × (IsClean v × (0 < length v))

abbrev Proper : Text → Type 0
Proper v = IsClean v × (0 < length v)

Proper-itoa : (base c : Text) (i : ℕ) → Proper base → Proper (base ++ itoa i)
Proper-itoa base c i (k, n) =
    let long = length-append base (itoa i) in (IsClean-itoa base i k, omega arith)

or_user-Proper : (base : Text) → IsClean base → Proper (or_user base)
unfolding is_empty all_bytes
or_user-Proper [] h = (refl, omega arith)
or_user-Proper (c ∷ s) h = (h, omega arith)

pub generate_username-IsFresh :
    (strategy source nickname current : Text) (us : List User)
    → IsFresh current us (generate_username strategy source nickname current us)
unfolding generate_username
generate_username-IsFresh strategy source nickname current us =
    let base = or_user (normalize_username_base strategy source nickname) in
    let proper = or_user-Proper _ (normalize_username_base-IsClean strategy source nickname) in
    (
      first_free-value_taken username_of current us (rank_after base) (λ i c. rank_after base c < i)
          (λ i _. base ++ itoa i)
          (λ i c before. rw (rank_after-number base i) (before, omega arith)) 2 base
          (rw (rank_after-base base) (omega arith)),
      first_free-keeps _ Proper (λ i _. base ++ itoa i) (λ i c _. Proper-itoa base c i proper) _ 2
          base proper,
    )

numbered-IsFresh :
    (target current : Text) (us : List User)
    → Proper target
    → IsFresh current us (numbered target current us)
numbered-IsFresh target current us proper = (
  first_free-value_taken username_of current us length (λ _ _. Unit {0}) (λ i c. c ++ itoa i)
      (λ i c _. (
        let long = length-append c (itoa i) in
            let some_digit = itoa_before-length i i [] in omega arith,
        tt,
      ))
      2 target tt,
  first_free-keeps _ Proper (λ i c. c ++ itoa i) (λ i c h. Proper-itoa c c i h) _ 2 target proper,
)

non_empty-length : (s : Text) → is_empty s ≡ false → 0 < length s
unfolding is_empty
non_empty-length [] h = cc
non_empty-length (c ∷ s) h = omega arith

-- The login name of an import, whether it is made up or comes from an administrator, is found within
-- one round more than there are users, is not that of another user, is not empty, and has only the
-- bytes a-z, 0-9, '.', '_' and '-'.
pub resolve_import_username-IsFresh :
    (strategy source nickname current override : Text) (us : List User)
    → IsFresh current us (resolve_import_username strategy source nickname current override us)
unfolding resolve_import_username
resolve_import_username-IsFresh strategy source nickname current override us =
    if_intro (IsFresh current us) (is_empty (sanitize_username override))
      (λ _. generate_username-IsFresh strategy source nickname current us)
      (λ e.
        numbered-IsFresh _ current us (sanitize_username-IsClean override, non_empty-length _ e))
