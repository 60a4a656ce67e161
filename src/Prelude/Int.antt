-- ===== src/Prelude/Int.antt =====
-- Go's signed integers: `ℤ` over the native numbers, and the wrap-around of `int32` and `int64`.
use Prim.Native.Nat.{ℕ, ◌+◌, ◌-◌, ◌*◌, ◌%◌, ◌<◌}
use mathlib.Core.Path.{◌≡◌}
use mathlib.Core.Logic.{◌↔◌}
use mathlib.Core.Bool.{Bool, true, false}
use native.Mathlib.Omega.{arith}
use cluster_api_provider_yan.Prelude.Tests.{ltb, eqb, if◌then◌else◌}

-- `negsuc n` is -(n + 1).
pub data ℤ : Type 0 where
  pos : ℕ → ℤ
  negsuc : ℕ → ℤ

-- `a == b`
abbrev pub eqz : ℤ → ℤ → Bool
eqz (pos a) (pos b) = eqb a b
eqz (negsuc a) (negsuc b) = eqb a b
eqz _ _ = false

-- `a < b`
abbrev pub ltz : ℤ → ℤ → Bool
ltz (pos a) (pos b) = ltb a b
ltz (pos a) (negsuc b) = false
ltz (negsuc a) (pos b) = true
ltz (negsuc a) (negsuc b) = ltb b a

pub eqz_iff : (a b : ℤ) → (eqz a b ≡ true) ↔ (a ≡ b)
eqz_iff (pos a) (pos b) = ground arith
eqz_iff (pos a) (negsuc b) = ground arith
eqz_iff (negsuc a) (pos b) = ground arith
eqz_iff (negsuc a) (negsuc b) = ground arith

-- The signed value of the low `w` bits, from their unsigned value `r < 2 * half`.
abbrev signed : ℕ → ℕ → ℤ
signed half r = if ltb r half then pos r else negsuc (half + half - r - 1)

-- `int32(x)`, the conversion of a wider integer.
unfoldable pub to_int32 : ℤ → ℤ
to_int32 (pos n) = signed 2147483648 (n % 4294967296)
to_int32 (negsuc n) = signed 2147483648 (4294967295 - n % 4294967296)

-- What an `int64` operation leaves of its exact result.
unfoldable pub to_int64 : ℤ → ℤ
to_int64 (pos n) = signed 9223372036854775808 (n % 18446744073709551616)
to_int64 (negsuc n) = signed 9223372036854775808 (18446744073709551615 - n % 18446744073709551616)

-- The exact product of an integer by a number that is not 0.
abbrev pub scale : ℕ → ℤ → ℤ
scale k (pos n) = pos (k * n)
scale k (negsuc n) = negsuc (k * n + k - 1)

-- The conversion keeps what fits into 31 bits.
pub to_int32_small : (n : ℕ) → n < 2147483648 → to_int32 (pos n) ≡ pos n
unfolding to_int32
to_int32_small n h = ground arith

pub to_int64_small : (n : ℕ) → n < 9223372036854775808 → to_int64 (pos n) ≡ pos n
unfolding to_int64
to_int64_small n h = ground arith
