-- ===== src/Base/Sort/Insertion.antt =====
-- Insertion from the left: an entry that comes later goes behind its equals. Sorting a list so, entry
-- by entry from the front, is the stable sort.
use Prim.Native.String.{String}
use mathlib.Core.Path.{◌≡◌, refl, sym, ap, subst, ◌∙◌}
use mathlib.Core.Bool.{true, false}
use mathlib.Core.List.{List, [], ◌∷◌, ◌++◌, reverse, reverse-cons, append_assoc, append-nil}
use native.Mathlib.Omega.{arith}
use mathlib.Core.Logic.{inl, inr}
use k_deskflight.Base.Tests.{if◌then◌else◌, Bool-cases}
use k_deskflight.Base.Text.{str_ltb, str_ltb_trans, str_le_trans}
use k_deskflight.Base.Lists.{All, All-last, All-init}
use k_deskflight.Base.Sort.{insert_by, sort_by, IsSorted}
use k_deskflight.Base.Sort.Laws.{sort_by-IsSorted}

module _ {ℓ} {A : Type ℓ} (key : A → String) where
  -- The inner loop on the sorted part, whose last entry stands first: `x` sinks below every larger key.
  unfoldable pub sink : A → List A → List A
  sink x [] = x ∷ []
  sink x (p ∷ ps) = if str_ltb (key x) (key p) then p ∷ sink x ps else x ∷ p ∷ ps

  insert_right : A → List A → List A
  insert_right x [] = x ∷ []
  insert_right x (y ∷ ys) = if str_ltb (key x) (key y) then x ∷ y ∷ ys else y ∷ insert_right x ys

  insert_right_comm :
      (a b : A) (ys : List A)
      → insert_by key a (insert_right b ys) ≡ insert_right b (insert_by key a ys)
  unfolding insert_by insert_right
  insert_right_comm a b [] = ground arith
  insert_right_comm a b (y ∷ ys) = ground (
    arith,
    insert_right_comm a b ys,
    str_ltb_trans (key b) (key y) (key a),
    str_le_trans (key a) (key y) (key b),
  )

  sort_by-concat :
      (xs : List A) (b : A) → sort_by key (xs ++ b ∷ []) ≡ insert_right b (sort_by key xs)
  unfolding sort_by insert_right
  sort_by-concat [] b = refl
  sort_by-concat (a ∷ xs) b =
      ap (insert_by key a) (sort_by-concat xs b) ∙ insert_right_comm a b (sort_by key xs)

  insert_right_below :
      (x p : A) (ys : List A)
      → str_ltb (key x) (key p) ≡ true
      → insert_right x (ys ++ p ∷ []) ≡ insert_right x ys ++ p ∷ []
  unfolding insert_right
  insert_right_below x p [] h = rw h
  insert_right_below x p (y ∷ ys) h = ground (arith, insert_right_below x p ys h)

  insert_right_last :
      (x : A) (ys : List A)
      → All (λ y. str_ltb (key x) (key y) ≡ false) ys
      → insert_right x ys ≡ ys ++ x ∷ []
  unfolding insert_right
  insert_right_last x [] _ = refl
  insert_right_last x (y ∷ ys) (h, hs) = rw h (ap (λ l. y ∷ l) (insert_right_last x ys hs))

  -- Nothing in a sorted list is above what is not below its last entry.
  above_last :
      (x p : A) (ys : List A)
      → IsSorted key (ys ++ p ∷ [])
      → str_ltb (key x) (key p) ≡ false
      → All (λ y. str_ltb (key x) (key y) ≡ false) (ys ++ p ∷ [])
  above_last x p [] _ h = (h, tt)
  above_last x p (y ∷ ys) (low, s) h = (
    str_le_trans (key y) (key p) (key x) (All-last (λ z. str_ltb (key z) (key y) ≡ false) ys p low)
        h,
    above_last x p ys s h,
  )

  IsSorted-init : (ys : List A) (p : A) → IsSorted key (ys ++ p ∷ []) → IsSorted key ys
  IsSorted-init [] p _ = tt
  IsSorted-init (y ∷ ys) p (low, s) =
      (All-init (λ z. str_ltb (key z) (key y) ≡ false) ys p low, IsSorted-init ys p s)

  -- With the sorted part in reverse, sinking is insertion from the left.
  reverse-sink :
      (x : A) (ps : List A)
      → IsSorted key (reverse ps)
      → reverse (sink x ps) ≡ insert_right x (reverse ps)
  unfolding sink insert_right
  reverse-sink x [] _ = refl
  reverse-sink x (p ∷ ps) s =
      let s' : IsSorted key (reverse ps ++ p ∷ []) = subst (IsSorted key) (reverse-cons p ps) s in
      elim (Bool-cases (str_ltb (key x) (key p))) [
        | inl below ↦ rw below (
            reverse-cons p (sink x ps)
            ∙ ap (λ l. l ++ p ∷ []) (reverse-sink x ps (IsSorted-init (reverse ps) p s'))
            ∙ sym (insert_right_below x p (reverse ps) below)
            ∙ ap (insert_right x) (sym (reverse-cons p ps)))
        | inr above ↦ rw above (
            reverse-cons x (p ∷ ps)
            ∙ sym (
                insert_right_last x (reverse (p ∷ ps)) (
                  subst (All (λ y. str_ltb (key x) (key y) ≡ false)) (sym (reverse-cons p ps))
                    (above_last x p (reverse ps) s' above))))
      ]

  -- The outer loop, from the entries `rest` that are not sorted yet.
  unfoldable pub sink_all : List A → List A → List A
  unfolding sink
  sink_all ps [] = reverse ps
  sink_all ps (x ∷ rest) = sink_all (sink x ps) rest

  sink_all-eq :
      (ps done rest : List A)
      → reverse ps ≡ sort_by key done
      → sink_all ps rest ≡ sort_by key (done ++ rest)
  unfolding sink_all
  sink_all-eq ps done [] e = e ∙ ap (sort_by key) (sym (append-nil done))
  sink_all-eq ps done (x ∷ rest) e =
      sink_all-eq (sink x ps) (done ++ x ∷ []) rest (
        reverse-sink x ps (rw e (sort_by-IsSorted key done))
        ∙ ap (insert_right x) e
        ∙ sym (sort_by-concat done x))
      ∙ ap (sort_by key) (append_assoc done (x ∷ []) rest)

  -- Insertion sort in place is the stable sort.
  pub sink_all-eq-sort_by : (xs : List A) → sink_all [] xs ≡ sort_by key xs
  unfolding sort_by
  sink_all-eq-sort_by xs = sink_all-eq [] [] xs refl
