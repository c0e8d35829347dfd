-- ===== src/Base/Exec.antt =====
-- Go code that changes state and may panic: an action returns a value or panics, and what it
-- changed before a panic stays changed.
pub mod Laws
use Prim.Native.String.{String}
use mathlib.Core.Path.{◌≡◌, refl}
use mathlib.Core.Logic.{◌⊎◌, inl, inr}

pub data Outcome {ℓ} (A : Type ℓ) : Type ℓ where
  returned : A → Outcome A
  panicked : String → Outcome A

-- (value, error)
pub data Fallible {ℓ} (A : Type ℓ) : Type ℓ where
  ok : A → Fallible A
  err : String → Fallible A

pub Fallible-cases {ℓ} :
    {A : Type ℓ} (f : Fallible A) → ((a : A) × (f ≡ ok a)) ⊎ ((text : String) × (f ≡ err text))
Fallible-cases (ok a) = inl (a, refl)
Fallible-cases (err text) = inr (text, refl)

abbrev pub Exec {ℓ} : Type ℓ → Type ℓ → Type ℓ
Exec S A = S → Outcome A × S

module _ {ℓ} {S A : Type ℓ} where
  abbrev pub pure : A → Exec S A
  pure a s = (returned a, s)

  abbrev pub panic : String → Exec S A
  panic v s = (panicked v, s)

  abbrev pub recover_with : Outcome A → (String → Exec S A) → Exec S A
  recover_with (returned a) h s = (returned a, s)
  recover_with (panicked v) h s = h v s

  -- `defer func() { if r := recover(); r != nil { … } }()` round `m`
  abbrev pub recover : Exec S A → (String → Exec S A) → Exec S A
  recover m h s = let (o, s') = m s in recover_with o h s'

module _ {ℓ} {S A B : Type ℓ} where
  abbrev pub continue : Outcome A → (A → Exec S B) → Exec S B
  continue (returned a) f s = f a s
  continue (panicked v) f s = (panicked v, s)

  infixl 5 ◌>>=◌
  abbrev pub ◌>>=◌ : Exec S A → (A → Exec S B) → Exec S B
  ◌>>=◌ m f s = let (o, s') = m s in continue o f s'

-- An action that cannot panic, such as a clock.
abbrev pub effect {ℓ} : {S A : Type ℓ} → (S → A × S) → Exec S A
effect f s = let (a, s') = f s in (returned a, s')

abbrev pub modify {ℓ} : {S : Type ℓ} → (S → S) → Exec S (Unit {ℓ})
modify f s = (returned tt, f s)

abbrev pub IsReturned {ℓ} : {A : Type ℓ} → Outcome A → Type 0
IsReturned (returned a) = Unit
IsReturned (panicked v) = ⊥

-- The state of an action.
abbrev pub current {ℓ} : {S : Type ℓ} → Exec S S
current s = (returned s, s)
