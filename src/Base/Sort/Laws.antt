-- ===== src/Base/Sort/Laws.antt =====
-- Sorting sorts, keeps the entries, and leaves a sorted list as it is.
use Prim.Native.String.{String}
use mathlib.Core.Path.{◌≡◌, refl}
use mathlib.Core.Bool.{true, false}
use mathlib.Core.List.{List, [], ◌∷◌, Permᴰ}
use mathlib.Core.List.Permᴰ
use mathlib.Core.Logic.{inl, inr, ◌≢◌}
use k_deskflight.Base.Tests.{Bool-cases}
use k_deskflight.Base.Text.{str_ltb, str_le_trans, str_ltb_asymm, str_ltb_of_ne}
use k_deskflight.Base.Lists.{All, All-perm, All-mono}
use k_deskflight.Base.Sort.{insert_by, sort_by, IsSorted, IsStrictlySorted, HasDistinctKeys}

module _ {ℓ} {A : Type ℓ} (key : A → String) where
  pub insert_by-perm : (x : A) (xs : List A) → Permᴰ (insert_by key x xs) (x ∷ xs)
  unfolding insert_by
  insert_by-perm x [] = Permᴰ.refl (x ∷ [])
  insert_by-perm x (y ∷ ys) = elim (Bool-cases (str_ltb (key y) (key x))) [
    | inl below ↦
        rw below (Permᴰ.trans (Permᴰ.cons refl (insert_by-perm x ys)) (Permᴰ.swap refl refl))
    | inr above ↦ rw above (Permᴰ.refl (x ∷ y ∷ ys))
  ]

  -- Sorting keeps the entries.
  pub sort_by-perm : (xs : List A) → Permᴰ (sort_by key xs) xs
  unfolding sort_by
  sort_by-perm [] = Permᴰ.nil
  sort_by-perm (x ∷ xs) =
      Permᴰ.trans (insert_by-perm x (sort_by key xs)) (Permᴰ.cons refl (sort_by-perm xs))

  pub insert_by-IsSorted :
      (x : A) (xs : List A) → IsSorted key xs → IsSorted key (insert_by key x xs)
  unfolding insert_by
  insert_by-IsSorted x [] h = (tt, tt)
  insert_by-IsSorted x (y ∷ ys) (low, h) = elim (Bool-cases (str_ltb (key y) (key x))) [
    | inl below ↦ rw below (
      All-perm _ (Permᴰ.symm (insert_by-perm x ys)) (str_ltb_asymm (key y) (key x) below, low),
      insert_by-IsSorted x ys h,
    )
    | inr above ↦ rw above (
      (above, All-mono _ _ ys (λ z p. str_le_trans (key x) (key y) (key z) above p) low),
      (low, h),
    )
  ]

  -- Sorting sorts.
  pub sort_by-IsSorted : (xs : List A) → IsSorted key (sort_by key xs)
  unfolding sort_by
  sort_by-IsSorted [] = tt
  sort_by-IsSorted (x ∷ xs) = insert_by-IsSorted x (sort_by key xs) (sort_by-IsSorted xs)

  -- A sorted list with distinct keys is strictly sorted.
  pub IsStrictlySorted-of_distinct :
      (xs : List A) → IsSorted key xs → HasDistinctKeys key xs → IsStrictlySorted key xs
  IsStrictlySorted-of_distinct [] _ _ = tt
  IsStrictlySorted-of_distinct (x ∷ xs) (low, h) (new, d) =
      (strict xs low new, IsStrictlySorted-of_distinct xs h d)
    where
      strict :
          (ys : List A)
          → All (λ y. str_ltb (key y) (key x) ≡ false) ys
          → All (λ y. key x ≢ key y) ys
          → All (λ y. str_ltb (key x) (key y) ≡ true) ys
      strict [] _ _ = tt
      strict (y ∷ ys) (p, ps) (q, qs) = (str_ltb_of_ne (key x) (key y) q p, strict ys ps qs)
