-- ===== src/Base/Text.antt =====
-- Go strings: whole texts are native strings, and code that walks characters goes over the list of
-- their code points. `<` on strings is Go's, by bytes; UTF-8 orders bytes as code points.
mod Order
pub use Order.{
  str_ltb_irrefl, str_ltb_trans, str_ltb_connex, str_le_trans, str_ltb_asymm, str_ltb_of_ne,
}
use Prim.Native.Nat.{ℕ}
use Prim.Native.Char.{code}
use Prim.Native.String.{String, ◌++◌}
use mathlib.Core.List.{List, [], ◌∷◌}
unfoldable pub use Order.{str_ltb}

-- strings.Join
-- s + t
infixr 65 ◌&◌
abbrev pub ◌&◌ : String → String → String
s & t = s ++ t

abbrev pub join : String → List String → String
join sep [] = ""
join sep (x ∷ []) = x
join sep (x ∷ y ∷ ys) = x & sep & join sep (y ∷ ys)

-- the code points of a text
abbrev pub codes : String → List ℕ
codes String.[] = []
codes (String.◌∷◌ c s) = code c ∷ codes s
