-- ===== src/Base/Integers.antt =====
-- Machine integers. An int32 or an int64 is the number of its two's-complement bit pattern; a
-- `time.Duration` is never computed with, only compared, and is a signed integer.
use Prim.Native.Nat.{ℕ, ◌+◌, ◌%◌, ◌≤◌, ◌<◌}
use mathlib.Core.Path.{◌≡◌, refl}
use mathlib.Core.Bool.{Bool, true, false}
use native.Mathlib.Omega.{arith}
use k_deskflight.Base.Tests.{ltb}

abbrev pub two_32 : ℕ
two_32 = 4294967296

abbrev pub two_64 : ℕ
two_64 = 18446744073709551616

-- x++ on an int32
unfoldable pub inc_32 : ℕ → ℕ
inc_32 a = (a + 1) % two_32

-- int32(n) of a length
unfoldable pub int_32 : ℕ → ℕ
int_32 n = n % two_32

-- a + b on int64
unfoldable pub add_64 : ℕ → ℕ → ℕ
add_64 a b = (a + b) % two_64

-- The pattern with its sign bit flipped has the order of the signed values.
abbrev pub offset_64 : ℕ → ℕ
offset_64 a = (a + 9223372036854775808) % two_64

-- a < b on int64
unfoldable pub lt_64 : ℕ → ℕ → Bool
lt_64 a b = ltb (offset_64 a) (offset_64 b)

pub lt_64-nonneg :
    (a b : ℕ) → a < 9223372036854775808 → b < 9223372036854775808 → lt_64 a b ≡ ltb a b
unfolding lt_64
lt_64-nonneg a b h k = ground arith

-- `negsuc n` is -(n + 1).
pub data ℤ : Type 0 where
  pos : ℕ → ℤ
  negsuc : ℕ → ℤ

-- a < b
abbrev pub ltb_ℤ : ℤ → ℤ → Bool
ltb_ℤ (pos a) (pos b) = ltb a b
ltb_ℤ (pos a) (negsuc b) = false
ltb_ℤ (negsuc a) (pos b) = true
ltb_ℤ (negsuc a) (negsuc b) = ltb b a

infix 50 ◌≤ℤ◌
abbrev pub ◌≤ℤ◌ : ℤ → ℤ → Type 0
pos a ≤ℤ pos b = a ≤ b
pos a ≤ℤ negsuc b = ⊥
negsuc a ≤ℤ pos b = Unit
negsuc a ≤ℤ negsuc b = b ≤ a

lt_64_tests : (lt_64 18446744073709551615 0 ≡ true) × (lt_64 0 18446744073709551615 ≡ false)
unfolding lt_64
lt_64_tests = (refl, refl)
