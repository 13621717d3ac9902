-- ===== src/DirectorySync/Paths/Normal.antt =====
-- A trimmed path has no empty part, and is its parent and its leaf.
use mathlib.Core.List.{reverse-cons, reverse-append, reverse-reverse}
use one_auth.Base.{
  ℕ, zero, suc, ◌<◌, ◌≤◌, ◌≡◌, ◌≢◌, refl, ap, sym, ◌∙◌, inl, inr, ◌⊎◌, Bool, true, false, ◌&&◌,
  some, [], ◌∷◌, ◌++◌, reverse, Text, str, is_empty, has_prefix, contains, drop_while, first_byte,
  length, arith, Bool-cases, Option-cases, if_intro, if◌then◌else◌,
}
use one_auth.LoginRule.{trim_space}
use one_auth.DirectorySync.Names.{trim}
use one_auth.DirectorySync.Email.{split_last}
use one_auth.DirectorySync.Paths.{is_slash, halve, collapse, trim_slashes, parent_path, leaf_name}

halve-length : (s : Text) → length (halve s) ≤ length s
unfolding halve
halve-length [] = omega arith
halve-length (c ∷ []) = omega arith
halve-length (c ∷ (d ∷ s)) =
    let past = halve-length s in let rest = halve-length (d ∷ s) in ground (arith, past, rest)

halve-shorter : (s : Text) → contains s (str "//") ≡ true → length (halve s) < length s
unfolding halve contains has_prefix
halve-shorter [] h = cc
halve-shorter (c ∷ []) h = ground arith
halve-shorter (c ∷ (d ∷ s)) h =
    let past = halve-length s in ground (arith, past, halve-shorter (d ∷ s))

collapse-no_double : (k : ℕ) (s : Text) → length s ≤ k → contains (collapse k s) (str "//") ≡ false
unfolding collapse contains
collapse-no_double zero [] h = refl
collapse-no_double zero (c ∷ s) h = absurd (omega arith)
collapse-no_double (suc k) s h = elim (Bool-cases (contains s (str "//"))) [
  | inl e ↦ let shorter = halve-shorter s e in rw (e) (collapse-no_double k (halve s) (omega arith))
  | inr e ↦ rw (e) e
]

unfoldable pub last_byte : Text → ℕ
last_byte [] = 0
last_byte (c ∷ []) = c
last_byte (c ∷ (d ∷ s)) = last_byte (d ∷ s)

last_byte_cons : (c : ℕ) (t : Text) → is_empty t ≡ false → last_byte (c ∷ t) ≡ last_byte t
unfolding last_byte is_empty
last_byte_cons c [] h = cc
last_byte_cons c (d ∷ t) h = refl

halve-non_empty : (c : ℕ) (s : Text) → is_empty (halve (c ∷ s)) ≡ false
unfolding halve is_empty
halve-non_empty c [] = refl
halve-non_empty c (d ∷ s) = ground arith

halve-first : (s : Text) → first_byte (halve s) ≡ first_byte s
unfolding halve
halve-first [] = refl
halve-first (c ∷ []) = refl
halve-first (c ∷ (d ∷ s)) = ground arith

halve-last : (s : Text) → last_byte (halve s) ≡ last_byte s
unfolding halve last_byte
halve-last [] = refl
halve-last (c ∷ []) = refl
halve-last (c ∷ (d ∷ [])) = ground arith
halve-last (c ∷ (d ∷ (e ∷ s))) =
    let past = last_byte_cons c (halve (e ∷ s)) (halve-non_empty e s) ∙ halve-last (e ∷ s) in
    let rest =
      last_byte_cons c (halve (d ∷ (e ∷ s))) (halve-non_empty d (e ∷ s))
      ∙ halve-last (d ∷ (e ∷ s)) in
    if_intro (λ t. last_byte t ≡ last_byte (e ∷ s)) (is_slash c && is_slash d) (λ _. past)
      (λ _. rest)

collapse-ends :
    (k : ℕ) (s : Text)
    → (first_byte (collapse k s) ≡ first_byte s) × (last_byte (collapse k s) ≡ last_byte s)
unfolding collapse
collapse-ends zero s = (refl, refl)
collapse-ends (suc k) s =
    let (f, l) = collapse-ends k (halve s) in
    if_intro (λ (t : Text). (first_byte t ≡ first_byte s) × (last_byte t ≡ last_byte s))
      (contains s (str "//")) (λ _. (f ∙ halve-first s, l ∙ halve-last s)) (λ _. (refl, refl))

drop_while-first : (s : Text) → first_byte (drop_while is_slash s) ≢ b'/'
unfolding drop_while
drop_while-first [] = λ e. omega arith
drop_while-first (c ∷ s) =
    if_intro (λ (t : Text). first_byte t ≢ b'/') (is_slash c) (λ _. drop_while-first s)
      (λ e k. absurd (ground arith))

last_byte-snoc : (s : Text) (c : ℕ) → last_byte (s ++ (c ∷ [])) ≡ c
unfolding last_byte is_empty
last_byte-snoc [] c = refl
last_byte-snoc (d ∷ []) c = refl
last_byte-snoc (d ∷ (e ∷ s)) c = last_byte-snoc (e ∷ s) c

last_byte-reverse : (s : Text) → last_byte (reverse s) ≡ first_byte s
unfolding last_byte
last_byte-reverse [] = refl
last_byte-reverse (c ∷ s) = rw (reverse-cons c s) (last_byte-snoc (reverse s) c)

-- What drop_while drops
unfoldable dropped : (ℕ → Bool) → Text → Text
dropped p [] = []
dropped p (c ∷ s) = let rest = dropped p s in if p c then c ∷ rest else []

dropped-append : (p : ℕ → Bool) (s : Text) → dropped p s ++ drop_while p s ≡ s
unfolding dropped drop_while
dropped-append p [] = refl
dropped-append p (c ∷ s) = ground (arith, dropped-append p s)

first_byte-append : (s t : Text) → (s ≡ []) ⊎ (first_byte (s ++ t) ≡ first_byte s)
first_byte-append [] t = inl refl
first_byte-append (c ∷ s) t = inr refl

slash_ne_zero : first_byte [] ≢ b'/'
slash_ne_zero e = omega arith

-- Trimming at the end keeps the first byte, if any byte is left.
trim_end-first :
    (s : Text) → first_byte s ≢ b'/' → first_byte (reverse (drop_while is_slash (reverse s))) ≢ b'/'
trim_end-first s h e =
    let whole =
      sym (reverse-append (dropped is_slash (reverse s)) (drop_while is_slash (reverse s)))
      ∙ (ap reverse (dropped-append is_slash (reverse s)) ∙ reverse-reverse s) in
    elim (first_byte-append (reverse (drop_while is_slash (reverse s)))
      (reverse (dropped is_slash (reverse s)))) [
        | inl n ↦ slash_ne_zero (sym (ap first_byte n) ∙ e)
        | inr k ↦ h (ap first_byte (sym whole) ∙ (k ∙ e))
      ]

trim-first : (s : Text) → first_byte (trim is_slash s) ≢ b'/'
unfolding trim
trim-first s = trim_end-first (drop_while is_slash s) (drop_while-first s)

trim-last : (s : Text) → last_byte (trim is_slash s) ≢ b'/'
unfolding trim
trim-last s e =
    drop_while-first (reverse (drop_while is_slash s))
      (sym (last_byte-reverse (drop_while is_slash (reverse (drop_while is_slash s)))) ∙ e)

-- No empty part: no two slashes in a row, and none at the ends
abbrev pub IsNormal : Text → Type 0
IsNormal s = (contains s (str "//") ≡ false) × ((first_byte s ≢ b'/') × (last_byte s ≢ b'/'))

trim_slashes-IsNormal : (s : Text) → IsNormal (trim_slashes s)
unfolding trim_slashes
trim_slashes-IsNormal s =
    let t = trim is_slash (trim_space s) in
    let (f, l) = collapse-ends (length t) t in
    (
      collapse-no_double (length t) t (omega arith),
      ((λ e. trim-first (trim_space s) (sym f ∙ e)), (λ e. trim-last (trim_space s) (sym l ∙ e))),
    )

split_last-append :
    (c : ℕ) (s : Text) (p : Text × Text) → split_last c s ≡ some p → p.0 ++ (c ∷ p.1) ≡ s
unfolding split_last
split_last-append c [] p h = cc
split_last-append c (d ∷ s) p h = elim (Option-cases (split_last c s)) [
  | inl n ↦ ground arith
  | inr (q, e) ↦ let rest = split_last-append c s q e in ground (arith, rest)
]

-- The path of a child, for its parent's path, which is empty at the root
abbrev pub child_path : Text → Text → Text
child_path parent leaf = if is_empty parent then leaf else parent ++ (b'/' ∷ leaf)

-- A path that is trimmed has no two slashes in a row and none at the ends, after no more rounds than
-- it has bytes; and it is the path of its leaf under its parent.
pub trim_slashes-child_path :
    (s : Text)
    → IsNormal (trim_slashes s) × (child_path (parent_path s) (leaf_name s) ≡ trim_slashes s)
unfolding parent_path leaf_name is_empty
trim_slashes-child_path s =
    let normal = trim_slashes-IsNormal s in
    (
      normal,
      elim (Option-cases (split_last b'/' (trim_slashes s))) [
        | inl n ↦ ground arith
        | inr (([], leaf), e) ↦ absurd (
            normal.1.0 (ap first_byte (sym (split_last-append b'/' (trim_slashes s) ([], leaf) e))))
        | inr ((c ∷ up, leaf), e) ↦
            let whole = split_last-append b'/' (trim_slashes s) (c ∷ up, leaf) e in
            ground (arith, whole)
      ],
    )
