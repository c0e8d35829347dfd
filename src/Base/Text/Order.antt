-- ===== src/Base/Text/Order.antt =====
-- The order of Go strings is a strict total order.
use Prim.Native.Nat.{compare as compare_ℕ, ◌<◌}
use Prim.Native.Char.{Char, code}
use Prim.Native.String.compare
use Prim.Native.String.{String, [], ◌∷◌, compare, then}
use mathlib.Core.Path.{◌≡◌, refl, ap, ◌∙◌, sym}
use mathlib.Core.Logic.{◌⊎◌, inl, inr, ◌≢◌}
use mathlib.Core.Bool.{Bool, true, false}
use native.Mathlib.Omega.{arith}
use text.Mathlib.Text.{is_lt}
use k_deskflight.Base.Tests.{Bool-cases}
use text.Mathlib.TextEquality.{Char-path}
use text.Mathlib.TextPositions.{compare_refl}

-- s < t
unfoldable pub str_ltb : String → String → Bool
str_ltb s t = is_lt (compare s t)

pub str_ltb_irrefl : (s : String) → str_ltb s s ≡ false
unfolding str_ltb
str_ltb_irrefl s = ap is_lt (compare_refl s)

nil_lt_cons : (d : Char) (t : String) → str_ltb [] (d ∷ t) ≡ true
unfolding str_ltb
nil_lt_cons d t = ap is_lt (compare.nil-cons d t)

cons_lt_nil : (d : Char) (t : String) → str_ltb (d ∷ t) [] ≡ false
unfolding str_ltb
cons_lt_nil d t = ap is_lt (compare.cons-nil d t)

-- The order of two texts with a first character each.
abbrev Below : Char → String → Char → String → Type 0
Below c s d t = (code c < code d) ⊎ ((code c ≡ code d) × (str_ltb s t ≡ true))

cons-cons :
    (c d : Char) (s t : String)
    → compare (c ∷ s) (d ∷ t) ≡ then (compare_ℕ (code c) (code d)) (compare s t)
cons-cons c d s t = compare.cons-cons c d s t

cons_lt_cons : (c d : Char) (s t : String) → str_ltb (c ∷ s) (d ∷ t) ≡ true → Below c s d t
unfolding str_ltb
cons_lt_cons c d s t h = ground (arith, cons-cons c d s t)

cons_lt_cons_of : (c d : Char) (s t : String) → Below c s d t → str_ltb (c ∷ s) (d ∷ t) ≡ true
unfolding str_ltb
cons_lt_cons_of c d s t h = ground (arith, cons-cons c d s t)

Below-trans :
    (c d e : Char) (s t u : String)
    → (str_ltb s t ≡ true → str_ltb t u ≡ true → str_ltb s u ≡ true)
    → Below c s d t
    → Below d t e u
    → Below c s e u
Below-trans c d e s t u step (inl h) (inl k) = inl (omega arith)
Below-trans c d e s t u step (inl h) (inr (k, _)) = inl (omega arith)
Below-trans c d e s t u step (inr (h, _)) (inl k) = inl (omega arith)
Below-trans c d e s t u step (inr (h, h')) (inr (k, k')) = inr (h ∙ k, step h' k')

pub str_ltb_trans : (s t u : String) → str_ltb s t ≡ true → str_ltb t u ≡ true → str_ltb s u ≡ true
str_ltb_trans [] [] u h k = k
str_ltb_trans [] (d ∷ t) [] h k = cc (cons_lt_nil d t)
str_ltb_trans [] (d ∷ t) (e ∷ u) h k = nil_lt_cons e u
str_ltb_trans (c ∷ s) [] u h k = cc (cons_lt_nil c s)
str_ltb_trans (c ∷ s) (d ∷ t) [] h k = cc (cons_lt_nil d t)
str_ltb_trans (c ∷ s) (d ∷ t) (e ∷ u) h k = cons_lt_cons_of c e s u (
    Below-trans c d e s t u (str_ltb_trans s t u) (cons_lt_cons c d s t h) (cons_lt_cons d e t u k))

codes_trichotomy : (c d : Char) → (code c < code d) ⊎ (code d < code c) ⊎ (code c ≡ code d)
codes_trichotomy c d = grind arith

-- Of two different texts one is below the other.
pub str_ltb_connex : (s t : String) → str_ltb s t ≡ false → str_ltb t s ≡ false → s ≡ t
str_ltb_connex [] [] h k = refl
str_ltb_connex [] (d ∷ t) h k = cc (nil_lt_cons d t)
str_ltb_connex (c ∷ s) [] h k = cc (nil_lt_cons c s)
str_ltb_connex (c ∷ s) (d ∷ t) h k = elim (codes_trichotomy c d) [
  | inl lt ↦ cc (cons_lt_cons_of c d s t (inl lt))
  | inr (inl gt) ↦ cc (cons_lt_cons_of d c t s (inl gt))
  | inr (inr same) ↦ elim (Bool-cases (str_ltb s t)) [
    | inl lt ↦ cc (cons_lt_cons_of c d s t (inr (same, lt)))
    | inr not_lt ↦ elim (Bool-cases (str_ltb t s)) [
      | inl gt ↦ cc (cons_lt_cons_of d c t s (inr (sym same, gt)))
      | inr not_gt ↦ λ i. Char-path c d same i ∷ str_ltb_connex s t not_lt not_gt i
    ]
  ]
]

-- `t` is not below `s`, and `u` is not below `t`.
pub str_le_trans :
    (s t u : String) → str_ltb t s ≡ false → str_ltb u t ≡ false → str_ltb u s ≡ false
str_le_trans s t u h k = elim (Bool-cases (str_ltb u s)) [
  | inr not_lt ↦ not_lt
  | inl lt ↦ elim (Bool-cases (str_ltb t u)) [
    | inl below ↦ cc (str_ltb_trans t u s below lt)
    | inr above ↦ cc (str_ltb_connex t u above k)
  ]
]

pub str_ltb_asymm : (s t : String) → str_ltb s t ≡ true → str_ltb t s ≡ false
str_ltb_asymm s t h = elim (Bool-cases (str_ltb t s)) [
  | inr not_lt ↦ not_lt
  | inl lt ↦ cc (str_ltb_irrefl s, str_ltb_trans s t s h lt)
]

-- One of two different texts is below the other.
pub str_ltb_of_ne : (s t : String) → s ≢ t → str_ltb t s ≡ false → str_ltb s t ≡ true
str_ltb_of_ne s t ne h = elim (Bool-cases (str_ltb s t)) [
  | inl lt ↦ lt
  | inr not_lt ↦ absurd (ne (str_ltb_connex s t not_lt h))
]
