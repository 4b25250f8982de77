-- ===== src/Prelude/Int.antt =====
-- `i64` values: integers, with the wrap of a subtraction that leaves the range.
use Prim.Native.Nat.{ℕ, suc, zero, ◌+◌, ◌-◌, ◌^◌}
use mathlib.Core.Bool.{Bool, true, false}
use ferriskv.Prelude.Tests.{ltb, leb, if◌then◌else◌}

-- `negsuc n` is -(n + 1).
pub data ℤ : Type 0 where
  pos : ℕ → ℤ
  negsuc : ℕ → ℤ

-- a - b, as an integer.
abbrev pub sub_ℕ : ℕ → ℕ → ℤ
sub_ℕ a b = if leb b a then pos (a - b) else negsuc (b - a - 1)

-- The `i64` with the bits of an integer between -2^64 and 2^64.
abbrev pub wrap_i64 : ℤ → ℤ
wrap_i64 (pos n) = if ltb n (2 ^ 63) then pos n else sub_ℕ n (2 ^ 64)
wrap_i64 (negsuc n) = if ltb n (2 ^ 63) then negsuc n else pos (2 ^ 64 - (n + 1))

-- `a as i64 - b as i64`, for `u64` values a and b.
abbrev pub sub_i64 : ℕ → ℕ → ℤ
sub_i64 a b = wrap_i64 (sub_ℕ a b)

-- `-(a as i64)`.
abbrev pub neg_i64 : ℕ → ℤ
neg_i64 a = sub_i64 0 a

abbrev pub is_zero : ℤ → Bool
is_zero (pos zero) = true
is_zero (pos (suc n)) = false
is_zero (negsuc n) = false

abbrev pub is_positive : ℤ → Bool
is_positive (pos zero) = false
is_positive (pos (suc n)) = true
is_positive (negsuc n) = false
