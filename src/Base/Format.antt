-- ===== src/Base/Format.antt =====
-- Text from values. The decimal numbers of `%d` are written out; what else `fmt` does, `%q` and the
-- text of a duration, is a parameter.
pub mod Digits
use Prim.Native.Nat.{ℕ, zero, suc, ◌-◌, ◌/◌, ◌%◌}
use Prim.Native.String.{String, ◌++◌}
use mathlib.Core.Path.{◌≡◌, refl}
use k_deskflight.Base.Tests.{ltb, if◌then◌else◌}
use k_deskflight.Base.Integers.{ℤ, two_32, two_64}

pub record Fmt : Type 0 where
  -- %q
  pub quote : String → String
  -- time.Duration's String, with %s
  pub show_duration : ℤ → String

pub digit : ℕ → String
digit zero = "0"
digit (suc zero) = "1"
digit (suc (suc zero)) = "2"
digit (suc (suc (suc zero))) = "3"
digit (suc (suc (suc (suc zero)))) = "4"
digit (suc (suc (suc (suc (suc zero))))) = "5"
digit (suc (suc (suc (suc (suc (suc zero)))))) = "6"
digit (suc (suc (suc (suc (suc (suc (suc zero))))))) = "7"
digit (suc (suc (suc (suc (suc (suc (suc (suc zero)))))))) = "8"
digit _ = "9"

-- A number has at most one digit more than its value, so the fuel `n` is enough.
show_from : ℕ → ℕ → String → String
show_from zero n out = digit (n % 10) ++ out
show_from (suc fuel) n out =
    let rest = show_from fuel (n / 10) (digit (n % 10) ++ out) in
    if ltb n 10 then digit n ++ out else rest

-- %d of a number that is not negative
unfoldable pub show_nat : ℕ → String
unfolding digit show_from
show_nat n = show_from n n ""

-- %d of an int64
unfoldable pub show_64 : ℕ → String
unfolding show_nat
show_64 n = if ltb n 9223372036854775808 then show_nat n else "-" ++ show_nat (two_64 - n)

show_tests :
    (show_nat 0 ≡ "0") × (show_nat 8589934592 ≡ "8589934592") × (show_64 (two_64 - 5) ≡ "-5")
unfolding show_64
show_tests = (refl, refl, refl)

-- %d of an int32
unfoldable pub show_32 : ℕ → String
unfolding show_nat
show_32 n = if ltb n 2147483648 then show_nat n else "-" ++ show_nat (two_32 - n)

-- %d of an int
unfoldable pub show_ℤ : ℤ → String
unfolding show_nat
show_ℤ (ℤ.pos n) = show_nat n
show_ℤ (ℤ.negsuc n) = "-" ++ show_nat (suc n)
