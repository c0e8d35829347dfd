-- ===== src/Base/Sort.antt =====
-- sort.SliceStable by a text, as insertion sort: Go promises a stable sort, and there is one only.
pub mod Laws
pub mod Unique
pub mod Insertion
use Prim.Native.String.{String}
use mathlib.Core.Path.{◌≡◌}
use mathlib.Core.Bool.{Bool, true, false}
use mathlib.Core.List.{List, [], ◌∷◌}
use mathlib.Core.Logic.{◌≢◌}
use k_deskflight.Base.Tests.{if◌then◌else◌}
use k_deskflight.Base.Text.{str_ltb}
use k_deskflight.Base.Lists.{All}

module _ {ℓ} {A : Type ℓ} (key : A → String) where
  unfoldable pub insert_by : A → List A → List A
  insert_by x [] = x ∷ []
  insert_by x (y ∷ ys) = if str_ltb (key y) (key x) then y ∷ insert_by x ys else x ∷ y ∷ ys

  unfoldable pub sort_by : List A → List A
  unfolding insert_by
  sort_by [] = []
  sort_by (x ∷ xs) = insert_by x (sort_by xs)

  -- No later key is below an earlier one.
  abbrev pub IsSorted : List A → Type 0
  IsSorted [] = Unit
  IsSorted (x ∷ xs) = All (λ y. str_ltb (key y) (key x) ≡ false) xs × IsSorted xs

  -- Every later key is above every earlier one.
  abbrev pub IsStrictlySorted : List A → Type 0
  IsStrictlySorted [] = Unit
  IsStrictlySorted (x ∷ xs) = All (λ y. str_ltb (key x) (key y) ≡ true) xs × IsStrictlySorted xs

  abbrev pub HasDistinctKeys : List A → Type 0
  HasDistinctKeys [] = Unit
  HasDistinctKeys (x ∷ xs) = All (λ y. key x ≢ key y) xs × HasDistinctKeys xs
