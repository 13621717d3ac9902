-- ===== src/DirectorySync/Unique/Free.antt =====
-- A loop over candidates that rise in a rank ends by its condition.
use one_auth.Base.{
  ℕ, zero, suc, ◌+◌, ◌<◌, ◌≤◌, ◌≡◌, ap, inl, inr, Bool, true, false, ◌||◌, none, some, List, [],
  ◌∷◌, Text, text_eq, text_eq_iff, length, arith, Bool-cases, if◌then◌else◌, leb,
}
use one_auth.Model.User.{User}
use one_auth.DirectorySync.Unique.{Column, any_other, value_taken, first_free}

unfoldable among : Text → List Text → Bool
among v [] = false
among v (t ∷ ts) = text_eq t v || among v ts

-- How many of the values are ranked at m or above
unfoldable ahead : (Text → ℕ) → ℕ → List Text → ℕ
ahead rank m [] = 0
ahead rank m (t ∷ ts) = let rest = ahead rank m ts in if leb m (rank t) then suc rest else rest

ahead-le :
    (rank : Text → ℕ) (m m' : ℕ) (ts : List Text) → m ≤ m' → ahead rank m' ts ≤ ahead rank m ts
unfolding ahead
ahead-le rank m m' [] h = ground arith
ahead-le rank m m' (t ∷ ts) h = let rest = ahead-le rank m m' ts h in ground (arith, rest)

ahead-lt :
    (rank : Text → ℕ) (v : Text) (m : ℕ) (ts : List Text)
    → among v ts ≡ true
    → rank v < m
    → ahead rank m ts < ahead rank (rank v) ts
unfolding ahead among
ahead-lt rank v m [] h before = cc
ahead-lt rank v m (t ∷ ts) h before = elim (Bool-cases (text_eq t v)) [
  | inl e ↦
      let same = ap rank ((text_eq_iff t v).0 e) in
      let rest = ahead-le rank (rank v) m ts (omega arith) in ground (arith, same, rest)
  | inr e ↦ let rest = ahead-lt rank v m ts (ground arith) before in ground (arith, rest)
]

ahead-length : (rank : Text → ℕ) (m : ℕ) (ts : List Text) → ahead rank m ts ≤ length ts
unfolding ahead
ahead-length rank m [] = ground arith
ahead-length rank m (t ∷ ts) = let rest = ahead-length rank m ts in ground (arith, rest)

module _ (taken : Text → Bool) (ts : List Text)
    (within : (v : Text) → taken v ≡ true → among v ts ≡ true) (rank : Text → ℕ)
    (P : ℕ → Text → Type 0) (next_candidate : ℕ → Text → Text)
    (rises : (i : ℕ) (c : Text)
      → P i c
      → (rank c < rank (next_candidate i c)) × P (i + 1) (next_candidate i c)) where
  -- The fuel exceeds the number of values at the candidate's rank or above.
  first_free-ends :
      (k i : ℕ) (c : Text)
      → P i c
      → ahead rank (rank c) ts < k
      → taken (first_free k taken next_candidate i c) ≡ false
  unfolding first_free
  first_free-ends zero i c p enough = absurd (omega arith)
  first_free-ends (suc k) i c p enough = elim (Bool-cases (taken c)) [
    | inl e ↦
        let (up, q) = rises i c p in
        let fewer = ahead-lt rank c (rank (next_candidate i c)) ts (within c e) up in
        rw (e) (first_free-ends k (i + 1) (next_candidate i c) q (omega arith))
    | inr e ↦ rw (e) e
  ]

-- The values of a column
unfoldable values_of : Column → List User → List Text
values_of field [] = []
values_of field (u ∷ us) =
    let rest = values_of field us in elim (field u) [ none ↦ rest | some t ↦ t ∷ rest ]

values_of-length : (field : Column) (us : List User) → length (values_of field us) ≤ length us
unfolding values_of
values_of-length field [] = ground arith
values_of-length field (u ∷ us) = let rest = values_of-length field us in ground (arith, rest)

any_other-among :
    (field : Column) (current : Text) (us : List User) (v : Text)
    → any_other field v current us ≡ true
    → among v (values_of field us) ≡ true
unfolding any_other values_of among
any_other-among field current [] v h = cc
any_other-among field current (u ∷ us) v h = ground (arith, any_other-among field current us v)

value_taken-among :
    (field : Column) (current : Text) (us : List User) (v : Text)
    → value_taken field v current us ≡ true
    → among v (values_of field us) ≡ true
unfolding value_taken
value_taken-among field current us v h = any_other-among field current us v (ground arith)

-- One round more than there are users is enough.
pub first_free-value_taken :
    (field : Column) (current : Text) (us : List User) (rank : Text → ℕ) (P : ℕ → Text → Type 0)
    (next_candidate : ℕ → Text → Text)
    → ((i : ℕ) (c : Text)
        → P i c
        → (rank c < rank (next_candidate i c)) × P (i + 1) (next_candidate i c))
    → (i : ℕ) (c : Text) → P i c
    → value_taken field
        (first_free (suc (length us)) (λ v. value_taken field v current us) next_candidate i c)
        current
        us
      ≡ false
first_free-value_taken field current us rank P next_candidate rises i c p =
    let rows = values_of-length field us in
    let most = ahead-length rank (rank c) (values_of field us) in
    first_free-ends (λ v. value_taken field v current us) (values_of field us)
      (value_taken-among field current us) rank P next_candidate rises (suc (length us)) i c p
      (omega arith)
