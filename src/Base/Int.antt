-- ===== src/Base/Int.antt =====
-- Go's signed integers. `negsuc n` is -(n + 1). An intN is the integer, a uintN the number.
use Prim.Native.Nat.{ℕ, ◌-◌, ◌/◌, ◌%◌, ◌<◌}
use mathlib.Core.Path.{◌≡◌}
use mathlib.Core.Bool.{Bool, true, false}
use native.Mathlib.Omega.{arith}
use go_iot_client.Base.Tests.{ltb, if◌then◌else◌}

pub data ℤ : Type 0 where
  pos : ℕ → ℤ
  negsuc : ℕ → ℤ

-- `z > 0` and `z < 0`
abbrev pub is_positive : ℤ → Bool
is_positive (pos n) = ltb 0 n
is_positive (negsuc n) = false

abbrev pub is_negative : ℤ → Bool
is_negative (pos n) = false
is_negative (negsuc n) = true

-- A number that is not negative, as a native number; 0 for a negative one.
abbrev pub pos_part : ℤ → ℕ
pos_part (pos n) = n
pos_part (negsuc n) = 0

-- The conversion of an integer to a uintN, for m = 2 ^ N: its residue modulo m.
abbrev pub wrap : ℕ → ℤ → ℕ
wrap m (pos n) = n % m
wrap m (negsuc n) = m - 1 - n % m

-- The conversion of a uintN below m = 2 ^ N to the intN with the same bits.
abbrev pub signed : ℕ → ℕ → ℤ
signed m n = if ltb n (m / 2) then pos n else negsuc (m - 1 - n)

-- The range of an intN, for half = 2 ^ (N - 1).
abbrev pub InRange : ℕ → ℤ → Type 0
InRange half (pos n) = n < half
InRange half (negsuc n) = n < half

-- The two conversions at the widths of the code.
pub signed-wrap_16 : (z : ℤ) → InRange 32768 z → signed 65536 (wrap 65536 z) ≡ z
signed-wrap_16 (pos n) h = ground arith
signed-wrap_16 (negsuc n) h = ground arith

pub signed-wrap_32 : (z : ℤ) → InRange 2147483648 z → signed 4294967296 (wrap 4294967296 z) ≡ z
signed-wrap_32 (pos n) h = ground arith
signed-wrap_32 (negsuc n) h = ground arith

pub wrap-lt_16 : (z : ℤ) → wrap 65536 z < 65536
wrap-lt_16 (pos n) = omega arith
wrap-lt_16 (negsuc n) = omega arith

pub wrap-lt_32 : (z : ℤ) → wrap 4294967296 z < 4294967296
wrap-lt_32 (pos n) = omega arith
wrap-lt_32 (negsuc n) = omega arith
