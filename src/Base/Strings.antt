-- ===== src/Base/Strings.antt =====
-- The functions of Go's `strings` package that the program calls.
pub mod Splitting
pub mod Trimming
use Prim.Native.Nat.{ℕ}
use Prim.Native.Char.{Char, code}
use Prim.Native.String.{String}
use mathlib.Core.Path.{◌≡◌, refl}
use mathlib.Core.Bool.{Bool, true, false, ◌&&◌, ◌||◌}
use mathlib.Core.List.{List, [], ◌∷◌}
use mathlib.Core.Option.{Option, none, some}
use text.Mathlib.Text.{◌==◌}
use k_deskflight.Base.Tests.{leb, nat_eq, if◌then◌else◌}

-- unicode.IsSpace
unfoldable pub is_space : ℕ → Bool
is_space c =
    leb 9 c && leb c 13
    || nat_eq c 32
    || nat_eq c 0x85
    || nat_eq c 0xa0
    || nat_eq c 0x1680
    || leb 0x2000 c && leb c 0x200a
    || nat_eq c 0x2028
    || nat_eq c 0x2029
    || nat_eq c 0x202f
    || nat_eq c 0x205f
    || nat_eq c 0x3000

unfoldable pub trim_left : String → String
trim_left String.[] = ""
trim_left (String.◌∷◌ c s) =
    let rest = trim_left s in if is_space (code c) then rest else String.◌∷◌ c s

unfoldable pub trim_right : String → String
trim_right String.[] = ""
trim_right (String.◌∷◌ c s) =
    let rest = trim_right s in if rest == "" && is_space (code c) then "" else String.◌∷◌ c rest

-- strings.TrimSpace
unfoldable pub trim_space : String → String
unfolding is_space trim_left trim_right
trim_space s = trim_right (trim_left s)

strip : String → String → Option String
strip String.[] s = some s
strip (String.◌∷◌ p ps) String.[] = none
strip (String.◌∷◌ p ps) (String.◌∷◌ c s) = if nat_eq (code p) (code c) then strip ps s else none

abbrev or_whole : Option String → String → String
or_whole none s = s
or_whole (some rest) s = rest

-- strings.TrimPrefix
unfoldable pub trim_prefix : String → String → String
unfolding strip
trim_prefix s p = or_whole (strip p s) s

abbrev pub grow : Char → List String → List String
grow c [] = String.◌∷◌ c "" ∷ []
grow c (w ∷ ws) = String.◌∷◌ c w ∷ ws

-- strings.Split, at one separator character
unfoldable pub split : ℕ → String → List String
split sep String.[] = "" ∷ []
split sep (String.◌∷◌ c s) =
    let rest = split sep s in if nat_eq (code c) sep then "" ∷ rest else grow c rest

unfoldable pub skip_left : ℕ → String → String
skip_left q String.[] = ""
skip_left q (String.◌∷◌ c s) =
    let rest = skip_left q s in if nat_eq (code c) q then rest else String.◌∷◌ c s

unfoldable pub skip_right : ℕ → String → String
skip_right q String.[] = ""
skip_right q (String.◌∷◌ c s) =
    let rest = skip_right q s in if rest == "" && nat_eq (code c) q then "" else String.◌∷◌ c rest

-- strings.Trim, with one character in its cutset
unfoldable pub trim : ℕ → String → String
unfolding skip_left skip_right
trim q s = skip_right q (skip_left q s)

abbrev before : Char → Option (String × String) → Option (String × String)
before c none = none
before c (some (l, r)) = some (String.◌∷◌ c l, r)

-- strings.IndexByte, with the text before and the text after the character
unfoldable pub cut : ℕ → String → Option (String × String)
cut sep String.[] = none
cut sep (String.◌∷◌ c s) =
    let rest = cut sep s in if nat_eq (code c) sep then some ("", s) else before c rest

abbrev is_some : Option String → Bool
is_some none = false
is_some (some s) = true

-- strings.HasPrefix
unfoldable pub has_prefix : String → String → Bool
unfolding strip
has_prefix s p = is_some (strip p s)

trim_prefix_tests :
    (trim_prefix "v1.2" "v" ≡ "1.2") × (trim_prefix "1.2" "v" ≡ "1.2") × (trim_prefix "v" "v" ≡ "")
unfolding trim_prefix
trim_prefix_tests = (refl, refl, refl)

trim_space_tests : (trim_space "  a b\n" ≡ "a b") × (trim_space " \t" ≡ "")
unfolding trim_space
trim_space_tests = (refl, refl)

split_tests : (split b'.' "1.34" ≡ "1" ∷ "34" ∷ []) × (split b'.' "" ≡ "" ∷ [])
unfolding split
split_tests = (refl, refl)
