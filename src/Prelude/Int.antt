-- ===== src/Prelude/Int.antt =====
-- Go's signed integers: `int` as ℤ, and the conversions to `int32` and `int64`, which keep the
-- low bits and read them in two's complement.
use Prim.Native.Nat.{ℕ, suc, ◌+◌, ◌-◌, ◌%◌, ◌<◌}
use mathlib.Core.Path.{◌≡◌}
use mathlib.Core.Bool.{Bool, false}
use native.Mathlib.Omega.{arith}
use executr.Prelude.Tests.{ltb, if◌then◌else◌}

-- `negsuc n` is -(n + 1).
pub data ℤ : Type 0 where
  pos : ℕ → ℤ
  negsuc : ℕ → ℤ

abbrev pub pos_part : ℤ → ℕ
pos_part (pos n) = n
pos_part (negsuc n) = 0

-- The integer that a bit pattern below `2 * half` stands for.
abbrev pub signed : ℕ → ℕ → ℤ
signed half n = if ltb n half then pos n else negsuc (half + half - 1 - n)

-- The low bits of an integer, as a number below `m`.
abbrev pub low_bits : ℕ → ℤ → ℕ
low_bits m (pos n) = n % m
low_bits m (negsuc n) = m - 1 - n % m

pub to_int32 : ℤ → ℤ
to_int32 a = signed 2147483648 (low_bits 4294967296 a)

pub to_int64 : ℤ → ℤ
to_int64 a = signed 9223372036854775808 (low_bits 18446744073709551616 a)

-- `n < a` for a count `n` and an integer `a`.
abbrev pub ltb_ℤ : ℕ → ℤ → Bool
ltb_ℤ n (pos m) = ltb n m
ltb_ℤ n (negsuc m) = false

-- `a + i < b` for instants `a`, `b` and a signed interval `i`.
abbrev pub earlier_by : ℕ → ℤ → ℕ → Bool
earlier_by a (pos i) b = ltb (a + i) b
earlier_by a (negsuc i) b = ltb a (b + suc i)

pub to_int32-pos : (n : ℕ) → n < 2147483648 → to_int32 (pos n) ≡ pos n
unfolding to_int32
to_int32-pos n h = ground arith

pub to_int32-lt : (a : ℤ) → pos_part (to_int32 a) < 2147483648
unfolding to_int32
to_int32-lt (pos n) = ground arith
to_int32-lt (negsuc n) = ground arith

pub to_int64-pos : (n : ℕ) → n < 9223372036854775808 → to_int64 (pos n) ≡ pos n
unfolding to_int64
to_int64-pos n h = ground arith
