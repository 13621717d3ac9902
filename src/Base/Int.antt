-- ===== src/Base/Int.antt =====
-- Go's signed integers, as far as the program uses them: the sign test and the sum with an instant.
use Prim.Native.Nat.{ℕ, zero, suc, ◌≤◌, ◌+◌, ◌-◌, ◌*◌, ◌/◌, ◌%◌, ◌^◌}
use one_auth.Base.Tests.{ltb, if◌then◌else◌}
use mathlib.Core.Bool.{Bool, true, false}
use native.Mathlib.Omega.{arith}

-- `negsuc n` is -(n + 1).
pub data ℤ : Type 0 where
  pos : ℕ → ℤ
  negsuc : ℕ → ℤ

-- n > 0
abbrev pub is_positive : ℤ → Bool
is_positive (pos zero) = false
is_positive (pos (suc n)) = true
is_positive (negsuc n) = false

abbrev pub pos_part : ℤ → ℕ
pos_part (pos n) = n
pos_part (negsuc n) = 0

abbrev pub neg_part : ℤ → ℕ
neg_part (pos n) = 0
neg_part (negsuc n) = suc n

-- a < b
abbrev pub ltz : ℤ → ℤ → Bool
ltz a b = ltb (pos_part a + neg_part b) (pos_part b + neg_part a)

-- Instants are counted from the epoch in nanoseconds; none before it occurs.
abbrev pub add_duration : ℕ → ℤ → ℕ
add_duration now (pos n) = now + n
add_duration now (negsuc n) = now - suc n

pub add_duration-le : (now : ℕ) (d : ℤ) → add_duration now d ≤ now + pos_part d
add_duration-le now (pos n) = omega arith
add_duration-le now (negsuc n) = omega arith

abbrev pub second : ℕ
second = 1_000_000_000

-- t.Unix()
abbrev pub unix : ℕ → ℕ
unix now = now / second

-- The int64 with the bits of n
abbrev pub to_int64 : ℕ → ℤ
to_int64 n = let m : ℕ = n % 2 ^ 64 in if ltb m (2 ^ 63) then pos m else negsuc (2 ^ 64 - m - 1)

-- time.Duration(n) * time.Second: an int64 product that wraps
unfoldable pub seconds : ℤ → ℤ
seconds (pos n) = to_int64 (n * second)
seconds (negsuc n) = to_int64 (2 ^ 64 - suc n * second % 2 ^ 64)

abbrev pub neg : ℕ → ℤ
neg zero = pos zero
neg (suc n) = negsuc n

-- int(d.Seconds()), which truncates towards 0
abbrev pub whole_seconds : ℤ → ℤ
whole_seconds (pos n) = pos (n / second)
whole_seconds (negsuc n) = neg (suc n / second)
