-- ===== src/Base/Sort/Unique.antt =====
-- Sorting forgets the order of its input where the keys are distinct.
use Prim.Native.String.{String}
use mathlib.Core.Path.{◌≡◌, refl, sym, ap, ap₂, subst, ◌∙◌}
use mathlib.Core.Bool.{true}
use mathlib.Core.List.{List, [], ◌∷◌, Permᴰ}
use mathlib.Core.Logic.{inl, inr, ◌≢◌}
use k_deskflight.Base.Tests.{Bool-cases}
use k_deskflight.Base.Text.{str_ltb, str_ltb_asymm, str_ltb_trans, str_ltb_connex}
use k_deskflight.Base.Lists.{All, All-perm}
use k_deskflight.Base.Sort.{insert_by, sort_by, HasDistinctKeys}
use native.Mathlib.Omega.{arith}

module _ {ℓ} {A : Type ℓ} (key : A → String) where
  -- Inserting a smaller entry and a larger one can be done in either order.
  insert_by_swap :
      (x y : A) (zs : List A)
      → str_ltb (key x) (key y) ≡ true
      → insert_by key x (insert_by key y zs) ≡ insert_by key y (insert_by key x zs)
  unfolding insert_by
  insert_by_swap x y [] lt = ground (arith, str_ltb_asymm (key x) (key y))
  insert_by_swap x y (z ∷ zs) lt = ground (
    arith,
    str_ltb_asymm (key x) (key y),
    str_ltb_trans (key z) (key x) (key y),
    insert_by_swap x y zs lt,
  )

  insert_by_comm :
      (x y : A) (zs : List A)
      → key x ≢ key y
      → insert_by key x (insert_by key y zs) ≡ insert_by key y (insert_by key x zs)
  insert_by_comm x y zs ne = elim (Bool-cases (str_ltb (key x) (key y))) [
    | inl lt ↦ insert_by_swap x y zs lt
    | inr not_lt ↦ elim (Bool-cases (str_ltb (key y) (key x))) [
      | inl gt ↦ sym (insert_by_swap y x zs gt)
      | inr not_gt ↦ absurd (ne (str_ltb_connex (key x) (key y) not_lt not_gt))
    ]
  ]

  pub HasDistinctKeys-perm :
      {xs ys : List A} → Permᴰ xs ys → HasDistinctKeys key xs → HasDistinctKeys key ys
  HasDistinctKeys-perm Permᴰ.nil h = tt
  HasDistinctKeys-perm (Permᴰ.cons {l₁ = l} e d) (new, h) =
      (All-perm _ d (subst (λ a. All (λ y. key a ≢ key y) l) e new), HasDistinctKeys-perm d h)
  HasDistinctKeys-perm (Permᴰ.swap {l = l} e f) ((ne, new), (new', h)) = (
    (λ p. ne (ap key e ∙ sym p ∙ ap key (sym f)), subst (λ a. All (λ y. key a ≢ key y) l) f new'),
    (subst (λ a. All (λ y. key a ≢ key y) l) e new, h),
  )
  HasDistinctKeys-perm (Permᴰ.trans d d') h = HasDistinctKeys-perm d' (HasDistinctKeys-perm d h)

  -- Two orders of the same entries with distinct keys are sorted into the same list.
  pub sort_by-eq_of_perm :
      {xs ys : List A} → Permᴰ xs ys → HasDistinctKeys key xs → sort_by key xs ≡ sort_by key ys
  unfolding sort_by
  sort_by-eq_of_perm Permᴰ.nil h = refl
  sort_by-eq_of_perm (Permᴰ.cons e d) (new, h) = ap₂ (insert_by key) e (sort_by-eq_of_perm d h)
  sort_by-eq_of_perm (Permᴰ.swap {a} {b} {l = l} e f) ((ne, new), _) =
      insert_by_comm a b (sort_by key l) ne
      ∙ ap₂ (λ u v. insert_by key u (insert_by key v (sort_by key l))) f e
  sort_by-eq_of_perm (Permᴰ.trans d d') h =
      sort_by-eq_of_perm d h ∙ sort_by-eq_of_perm d' (HasDistinctKeys-perm d h)

  -- Where the key is the whole of an entry, equal keys do not matter.
  pub sort_by-eq_of_perm_injective :
      {xs ys : List A}
      → ((a b : A) → key a ≡ key b → a ≡ b)
      → Permᴰ xs ys
      → sort_by key xs ≡ sort_by key ys
  unfolding sort_by
  sort_by-eq_of_perm_injective inj Permᴰ.nil = refl
  sort_by-eq_of_perm_injective inj (Permᴰ.cons e d) =
      ap₂ (insert_by key) e (sort_by-eq_of_perm_injective inj d)
  sort_by-eq_of_perm_injective inj (Permᴰ.swap {a} {b} {l = l} e f) =
      either a b (sort_by key l)
      ∙ ap₂ (λ u v. insert_by key u (insert_by key v (sort_by key l))) f e
    where
      either :
          (x y : A) (zs : List A)
          → insert_by key x (insert_by key y zs) ≡ insert_by key y (insert_by key x zs)
      either x y zs = elim (Bool-cases (str_ltb (key x) (key y))) [
        | inl lt ↦ insert_by_swap x y zs lt
        | inr not_lt ↦ elim (Bool-cases (str_ltb (key y) (key x))) [
          | inl gt ↦ sym (insert_by_swap y x zs gt)
          | inr not_gt ↦
              ap₂ (λ u v. insert_by key u (insert_by key v zs))
                (inj x y (str_ltb_connex (key x) (key y) not_lt not_gt))
                (sym (inj x y (str_ltb_connex (key x) (key y) not_lt not_gt)))
        ]
      ]
  sort_by-eq_of_perm_injective inj (Permᴰ.trans d d') =
      sort_by-eq_of_perm_injective inj d ∙ sort_by-eq_of_perm_injective inj d'
