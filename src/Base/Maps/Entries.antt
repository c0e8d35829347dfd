-- ===== src/Base/Maps/Entries.antt =====
-- The entries of a map with text keys.
use Prim.Native.String.{String}
use mathlib.Core.Path.{◌≡◌, refl, sym, ap, subst}
use mathlib.Core.List.{List, [], ◌∷◌, Memᴰ}
use mathlib.Core.Logic.{◌≢◌, inl, inr}
use mathlib.Core.Option.{some}
use native.Mathlib.Omega.{arith}
use text.Mathlib.Text.{◌==◌}
use text.Mathlib.TextEquality.{eq_iff}
use k_deskflight.Base.Tests.{Bool-cases}
use k_deskflight.Base.Lists.{All, All-mem}
use k_deskflight.Base.Maps.{lookup, insert, string_eq}
use k_deskflight.Base.Sort.{HasDistinctKeys}

abbrev pub entry_key {ℓ} : {V : Type ℓ} → String × V → String
entry_key e = e.0

module _ {V : Type 0} where
  pub insert-All :
      (P : String × V → Type 0) (k : String) (v : V) (m : List (String × V))
      → P (k, v)
      → All P m
      → All P (insert k v m)
  unfolding insert
  insert-All P k v [] p _ = (p, tt)
  insert-All P k v ((j, w) ∷ m) p (q, h) = elim (Bool-cases (j == k)) [
    | inl same ↦ rw same (subst (λ i. P (i, v)) (sym ((eq_iff j k).0 same)) p, h)
    | inr other ↦ rw other (q, insert-All P k v m p h)
  ]

  pub insert-HasDistinctKeys :
      (k : String) (v : V) (m : List (String × V))
      → HasDistinctKeys entry_key m
      → HasDistinctKeys entry_key (insert k v m)
  unfolding insert
  insert-HasDistinctKeys k v [] _ = (tt, tt)
  insert-HasDistinctKeys k v ((j, w) ∷ m) (new, h) = elim (Bool-cases (j == k)) [
    | inl same ↦ rw same (new, h)
    | inr other ↦ rw other (
      insert-All (λ e. j ≢ e.0) k v m (λ p. cc ((eq_iff j k).1 p)) new,
      insert-HasDistinctKeys k v m h,
    )
  ]

  pub mem_of_lookup :
      (k : String) (v : V) (m : List (String × V)) → lookup k m ≡ some v → Memᴰ (k, v) m
  unfolding lookup
  mem_of_lookup k v [] e = cc
  mem_of_lookup k v ((j, w) ∷ m) e = elim (Bool-cases (j == k)) [
    | inl same ↦
        let e' : some w ≡ some v = rw same at e in
        let key : j ≡ k = (eq_iff j k).0 same in Memᴰ.head (cc)
    | inr other ↦ Memᴰ.tail (mem_of_lookup k v m (rw other at e))
  ]

  pub lookup_of_mem :
      (k : String) (v : V) (m : List (String × V))
      → HasDistinctKeys entry_key m
      → Memᴰ (k, v) m
      → lookup k m ≡ some v
  unfolding lookup
  lookup_of_mem k v [] _ i = elim i [ ]
  lookup_of_mem k v ((j, w) ∷ m) (new, h) (Memᴰ.head e) =
      let same : k ≡ j = ap entry_key e in
      let value : v ≡ w = ap (λ (x : String × V). x.1) e in ground (arith, eq_iff j k)
  lookup_of_mem k v ((j, w) ∷ m) (new, h) (Memᴰ.tail i) =
      let ne : j ≢ k = All-mem (λ e. j ≢ e.0) m new i in
      ground (arith, eq_iff j k, lookup_of_mem k v m h i)

  pub found_of_mem :
      (name : String) (spec : V) (specs : List (String × V))
      → Memᴰ (name, spec) specs
      → (found : V) × (lookup name specs ≡ some found)
  unfolding lookup
  found_of_mem name spec [] i = elim i [ ]
  found_of_mem name spec ((k, s) ∷ specs) (Memᴰ.head e) =
      let same : k ≡ name = ap (λ (x : String × V). x.0) (sym e) in
      (s, rw ((eq_iff k name).1 same) refl)
  found_of_mem name spec ((k, s) ∷ specs) (Memᴰ.tail i) = elim (Bool-cases (k == name)) [
    | inl same ↦ (s, rw same refl)
    | inr other ↦ let (found, e) = found_of_mem name spec specs i in (found, rw other e)
  ]
