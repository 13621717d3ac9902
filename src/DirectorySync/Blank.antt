-- ===== src/DirectorySync/Blank.antt =====
-- Texts that strings.TrimSpace leaves nothing of.
use mathlib.Core.List.{reverse-cons}
use one_auth.Base.{
  ℕ, ◌≡◌, refl, sym, ◌∙◌, Bool, false, ◌&&◌, [], ◌∷◌, ◌++◌, reverse, Text, is_empty, drop_while,
  arith,
}
use one_auth.LoginRule.{trim_space, is_space}
use one_auth.DirectorySync.Names.{all_bytes}

abbrev pub blank : Text → Bool
blank s = all_bytes is_space s

pub blank-append : (s t : Text) → blank (s ++ t) ≡ (blank s && blank t)
unfolding all_bytes
blank-append [] t = refl
blank-append (c ∷ s) t = ground (arith, blank-append s t)

blank-reverse : (s : Text) → blank (reverse s) ≡ blank s
unfolding all_bytes
blank-reverse [] = refl
blank-reverse (c ∷ s) =
    let whole = blank-append (reverse s) (c ∷ []) in
    let rest = blank-reverse s in rw (reverse-cons c s) (ground (arith, whole, rest))

blank-drop_while : (s : Text) → is_empty (drop_while is_space s) ≡ blank s
unfolding all_bytes drop_while is_empty
blank-drop_while [] = refl
blank-drop_while (c ∷ s) = ground (arith, blank-drop_while s)

blank_of-drop_while : (s : Text) → blank (drop_while is_space s) ≡ blank s
unfolding all_bytes drop_while
blank_of-drop_while [] = refl
blank_of-drop_while (c ∷ s) = ground (arith, blank_of-drop_while s)

is_empty-snoc : (t : Text) (c : ℕ) → is_empty (t ++ (c ∷ [])) ≡ false
unfolding is_empty
is_empty-snoc [] c = refl
is_empty-snoc (d ∷ t) c = refl

is_empty-reverse : (s : Text) → is_empty (reverse s) ≡ is_empty s
unfolding is_empty
is_empty-reverse [] = refl
is_empty-reverse (c ∷ s) = rw (reverse-cons c s) (is_empty-snoc (reverse s) c)

pub trim_space-blank : (s : Text) → is_empty (trim_space s) ≡ blank s
unfolding trim_space
trim_space-blank s =
    is_empty-reverse (drop_while is_space (reverse (drop_while is_space s)))
    ∙ (blank-drop_while (reverse (drop_while is_space s))
        ∙ (blank-reverse (drop_while is_space s) ∙ blank_of-drop_while s))

pub blank-trim : (s : Text) → blank (trim_space s) ≡ blank s
unfolding trim_space
blank-trim s =
    blank-reverse (drop_while is_space (reverse (drop_while is_space s)))
    ∙ (blank_of-drop_while (reverse (drop_while is_space s))
        ∙ (blank-reverse (drop_while is_space s) ∙ blank_of-drop_while s))

-- A trimmed text is empty if it is blank.
pub trimmed_is_empty : (s : Text) → is_empty (trim_space (trim_space s)) ≡ is_empty (trim_space s)
trimmed_is_empty s = trim_space-blank (trim_space s) ∙ (blank-trim s ∙ sym (trim_space-blank s))
