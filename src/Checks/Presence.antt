-- ===== src/Checks/Presence.antt =====
-- internal/adapter/check: the map `present` of names that the cluster has, and the names missing.
use k_deskflight.Base.{
  String, List, [], ◌∷◌, Option, none, some, Bool, true, false, ◌||◌, ◌==◌, any, All, Memᴰ, ◌≡◌,
  ◌↔◌, inl, inr, refl, sym, arith, if◌then◌else◌, Bool-cases, eq_iff,
}
use k_deskflight.Base.Maps.{lookup, insert, lookup-insert, string_eq}

-- present[name] = true, for all the names
unfoldable pub mark : List (String × Bool) → List String → List (String × Bool)
unfolding insert
mark present [] = present
mark present (name ∷ names) = mark (insert name true present) names

-- present[name], which is false for a missing key
abbrev or_false : Option Bool → Bool
or_false none = false
or_false (some b) = b

unfoldable pub is_present : List (String × Bool) → String → Bool
unfolding lookup
is_present present name = or_false (lookup name present)

unfoldable pub missing_names : List (String × Bool) → List String → List String
unfolding is_present
missing_names present [] = []
missing_names present (name ∷ names) =
    let rest = missing_names present names in if is_present present name then rest else name ∷ rest

abbrev pub is_none_left : List String → Bool
is_none_left [] = true
is_none_left (x ∷ xs) = false

is_present-insert :
    (present : List (String × Bool)) (name other : String)
    → is_present (insert name true present) other ≡ (name == other || is_present present other)
unfolding is_present
is_present-insert present name other = ground (arith, lookup-insert name other true present)

pub is_present-mark :
    (present : List (String × Bool)) (names : List String) (name : String)
    → is_present (mark present names) name ≡ (any (λ n. n == name) names || is_present present name)
unfolding mark
is_present-mark present [] name = refl
is_present-mark present (n ∷ ns) name =
    ground
      (arith, is_present-mark (insert n true present) ns name, is_present-insert present n name)

any-Memᴰ :
    (names : List String) (name : String) → any (λ n. n == name) names ≡ true → Memᴰ name names
any-Memᴰ [] name e = cc
any-Memᴰ (n ∷ ns) name e = elim (Bool-cases (n == name)) [
  | inl same ↦ Memᴰ.head (sym ((eq_iff n name).0 same))
  | inr other ↦ Memᴰ.tail (any-Memᴰ ns name (rw other at e))
]

any_of_Memᴰ :
    (names : List String) (name : String) → Memᴰ name names → any (λ n. n == name) names ≡ true
any_of_Memᴰ [] name i = elim i [ ]
any_of_Memᴰ (n ∷ ns) name (Memᴰ.head e) = ground (arith, eq_iff n name, sym e)
any_of_Memᴰ (n ∷ ns) name (Memᴰ.tail i) = ground (arith, any_of_Memᴰ ns name i)

module _ (cluster : List String) where
  known_iff : (name : String) → (is_present (mark [] cluster) name ≡ true) ↔ Memᴰ name cluster
  unfolding is_present lookup
  known_iff name = (
    λ e. any-Memᴰ cluster name (ground (arith, is_present-mark [] cluster name)),
    λ i. ground (arith, is_present-mark [] cluster name, any_of_Memᴰ cluster name i),
  )

  -- No name is missing exactly if every name wanted is one of those that the cluster has.
  pub missing_names-none_iff :
      (wanted : List String)
      → (is_none_left (missing_names (mark [] cluster) wanted) ≡ true)
        ↔ All (λ n. Memᴰ n cluster) wanted
  unfolding missing_names
  missing_names-none_iff [] = ((λ _. tt), (λ _. refl))
  missing_names-none_iff (name ∷ names) = elim (Bool-cases (is_present (mark [] cluster) name)) [
    | inl here ↦ rw here (
      (λ e. ((known_iff name).0 here, (missing_names-none_iff names).0 e)),
      (λ h. (missing_names-none_iff names).1 h.1),
    )
    | inr absent ↦ rw absent (
      (λ e. cc),
      (λ h. let here : is_present (mark [] cluster) name ≡ true = (known_iff name).1 h.0 in cc),
    )
  ]
