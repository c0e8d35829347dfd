-- ===== src/Base/Format/Digits.antt =====
-- The fuel of the printing of a number is enough: the digits are those of all its decimal places.
use Prim.Native.Nat.{ℕ, zero, suc, ◌/◌, ◌%◌, ◌≤◌}
use Prim.Native.String.{String, ◌++◌}
use mathlib.Core.Path.{◌≡◌, refl, sym, ap, ◌∙◌}
use mathlib.Core.Logic.{inl, inr}
use text.Mathlib.TextLemmas.{append-nil, nil-append, append_assoc}
use native.Mathlib.Omega.{arith}
use k_deskflight.Base.Tests.{ltb, if◌then◌else◌, Bool-cases}
use k_deskflight.Base.Format.{digit, show_from, show_nat}

-- More fuel than the number changes nothing.
show_from_enough :
    (f g n : ℕ) (out : String) → n ≤ f → n ≤ g → show_from f n out ≡ show_from g n out
unfolding show_from
show_from_enough zero zero n out h k = refl
show_from_enough zero (suc g) n out h k =
    let none_left : n ≡ 0 = omega (arith, h) in rw none_left refl
show_from_enough (suc f) zero n out h k =
    let none_left : n ≡ 0 = omega (arith, k) in rw none_left refl
show_from_enough (suc f) (suc g) n out h k = elim (Bool-cases (ltb n 10)) [
  | inl one_digit ↦ rw one_digit refl
  | inr more ↦
      let big : 10 ≤ n = ground (arith, more) in
      rw more (
        show_from_enough f g (n / 10) (digit (n % 10) ++ out) (omega (arith, h, big))
          (omega (arith, k, big)))
]

-- The digits that are printed already stay at the end.
show_from-append :
    (f n : ℕ) (out rest : String) → show_from f n (out ++ rest) ≡ show_from f n out ++ rest
unfolding show_from
show_from-append zero n out rest = sym (append_assoc (digit (n % 10)) out rest)
show_from-append (suc f) n out rest = elim (Bool-cases (ltb n 10)) [
  | inl one_digit ↦ rw one_digit (sym (append_assoc (digit n) out rest))
  | inr more ↦ rw more (
      ap (show_from f (n / 10)) (sym (append_assoc (digit (n % 10)) out rest))
      ∙ show_from-append f (n / 10) (digit (n % 10) ++ out) rest)
]

-- A number of one digit is printed as that digit, and another one as what its tens are printed as,
-- followed by its last digit.
pub show_nat-step :
    (n : ℕ) → show_nat n ≡ (if ltb n 10 then digit n else show_nat (n / 10) ++ digit (n % 10))
unfolding show_nat show_from
show_nat-step zero = refl
show_nat-step (suc m) = elim (Bool-cases (ltb (suc m) 10)) [
  | inl one_digit ↦ rw one_digit (append-nil (digit (suc m)))
  | inr more ↦
      let big : 10 ≤ suc m = ground (arith, more) in
      let last = digit (suc m % 10) in
      rw more (
        ap (show_from m (suc m / 10)) (append-nil last)
        ∙ show_from_enough m (suc m / 10) (suc m / 10) last (omega (arith, big)) (omega arith)
        ∙ ap (show_from (suc m / 10) (suc m / 10)) (sym (nil-append last))
        ∙ show_from-append (suc m / 10) (suc m / 10) "" last)
]
