-- ===== src/DirectorySync/Unique/Names.antt =====
-- The login names that are made up are free.
use one_auth.Base.{
  ℕ, zero, suc, ◌+◌, ◌-◌, ◌*◌, ◌/◌, ◌%◌, ◌<◌, ◌≤◌, ◌≡◌, refl, ap, sym, ◌∙◌, inl, inr, Bool, true,
  false, not, List, [], ◌∷◌, ◌++◌, Text, drop_prefix, length, arith, Bool-cases, if◌then◌else◌, ltb,
}
use one_auth.Model.User.{User}
use one_auth.DirectorySync.Names.{is_digit}
use one_auth.DirectorySync.Unique.{itoa_before, itoa, Column, value_taken, first_free}
use one_auth.DirectorySync.Unique.Free.{first_free-value_taken}

-- The number that a text starts with, after n
unfoldable pub number_from : ℕ → Text → ℕ
number_from n [] = n
number_from n (c ∷ s) =
    let rest = number_from (n * 10 + (c - b'0')) s in if is_digit c then rest else n

number_from-itoa_before :
    (k n : ℕ) (s : Text) → n ≤ k → number_from 0 (itoa_before k n s) ≡ number_from n s
unfolding itoa_before number_from
number_from-itoa_before zero n s h = ground arith
number_from-itoa_before (suc k) n s h = elim (Bool-cases (ltb n 10)) [
  | inl e ↦ ground arith
  | inr e ↦
      let rest = number_from-itoa_before k (n / 10) ((n % 10 + b'0') ∷ s) (omega arith) in
      let whole : n / 10 * 10 + (n % 10 + b'0' - b'0') ≡ n = omega arith in
      let same = ap (λ m. number_from m s) whole in ground (arith, rest, same)
]

itoa_before-append : (k n : ℕ) (s t : Text) → itoa_before k n s ++ t ≡ itoa_before k n (s ++ t)
unfolding itoa_before
itoa_before-append zero n s t = refl
itoa_before-append (suc k) n s t =
    ground (arith, itoa_before-append k (n / 10) ((n % 10 + b'0') ∷ s) t)

drop_prefix-append : (p s : Text) → drop_prefix (p ++ s) p ≡ s
unfolding drop_prefix
drop_prefix-append [] s = refl
drop_prefix-append (c ∷ p) s = drop_prefix-append p s

-- A suffix at which a number ends
unfoldable pub ends_number : Text → Bool
ends_number [] = true
ends_number (c ∷ s) = not (is_digit c)

number_from-ends : (n : ℕ) (s : Text) → ends_number s ≡ true → number_from n s ≡ n
unfolding number_from ends_number
number_from-ends n [] h = refl
number_from-ends n (c ∷ s) h = ground arith

number_from-itoa : (i : ℕ) (s : Text) → ends_number s ≡ true → number_from 0 (itoa i ++ s) ≡ i
number_from-itoa i s h =
    rw (itoa_before-append i i [] s, number_from-itoa_before i i s (omega arith))
      (number_from-ends i s h)

-- The number behind p
abbrev pub rank_after : Text → Text → ℕ
rank_after p t = number_from 0 (drop_prefix t p)

rank_after-itoa :
    (p s : Text) (i : ℕ) → ends_number s ≡ true → rank_after p (p ++ (itoa i ++ s)) ≡ i
rank_after-itoa p s i h = rw (drop_prefix-append p (itoa i ++ s)) (number_from-itoa i s h)

rank_after-plain : (p s : Text) → ends_number s ≡ true → rank_after p (p ++ s) ≡ 0
rank_after-plain p s h = rw (drop_prefix-append p s) (number_from-ends 0 s h)

-- Numbers between p and s, after p s itself
pub first_free-between :
    (field : Column) (current : Text) (us : List User) (p s : Text)
    → ends_number s ≡ true
    → value_taken field
        (first_free
          (suc (length us))
          (λ v. value_taken field v current us)
          (λ i _. p ++ (itoa i ++ s))
          2
          (p ++ s))
        current
        us
      ≡ false
first_free-between field current us p s h =
    first_free-value_taken field current us (rank_after p) (λ i c. rank_after p c < i)
      (λ i _. p ++ (itoa i ++ s)) (λ i c before. rw (rank_after-itoa p s i h) (before, omega arith))
      2 (p ++ s) (rw (rank_after-plain p s h) (omega arith))

append-nil : (s : Text) → s ++ [] ≡ s
append-nil [] = refl
append-nil (c ∷ s) = ap (λ t. c ∷ t) (append-nil s)

pub rank_after-number : (p : Text) (i : ℕ) → rank_after p (p ++ itoa i) ≡ i
unfolding ends_number
rank_after-number p i =
    ap (λ t. rank_after p (p ++ t)) (sym (append-nil (itoa i))) ∙ rank_after-itoa p [] i refl

pub rank_after-base : (p : Text) → rank_after p p ≡ 0
unfolding ends_number
rank_after-base p = ap (rank_after p) (sym (append-nil p)) ∙ rank_after-plain p [] refl
