-- ===== src/Merge/Sorting.antt =====
-- The conditions stay in strict alphabetical order of their types.
use k_deskflight.Base.{
  String, List, [], ◌∷◌, ◌++◌, Option, none, some, true, ◌≡◌, ◌≢◌, ◌⊎◌, inl, inr, sym, ap, subst,
  arith, All, Permᴰ, ◌==◌, eq_iff, Bool-cases, Option-cases, All-append,
}
use mathlib.Core.List.Permᴰ
use mathlib.Core.Option.{some-injective}
use k_deskflight.Base.Text.{str_ltb, str_ltb_irrefl}
use k_deskflight.Base.Sort.{sort_by, IsStrictlySorted, HasDistinctKeys}
use k_deskflight.Base.Sort.Insertion.{sink_all-eq-sort_by}
use k_deskflight.Base.Sort.Laws.{sort_by-perm, sort_by-IsSorted, IsStrictlySorted-of_distinct}
use k_deskflight.Base.Sort.Unique.{HasDistinctKeys-perm}
use k_deskflight.Domain.{Time}
use k_deskflight.Api.{Condition}
use k_deskflight.Aggregator.{AggregationOutput}
use k_deskflight.Aggregator.Dedupe.{kind_of}
use k_deskflight.Interval.{ConditionWarning}
use k_deskflight.Merge.{
  sort_conditions_by_type, severer, merge_same_type, or_append, warning_condition,
  merge_interval_warning,
}

-- The insertion sort of the reconciler, which swaps neighbours in place, is the stable sort by type
-- that the aggregator uses.
pub sort_conditions_by_type-eq-sort_by :
    (cs : List Condition) → sort_conditions_by_type cs ≡ sort_by kind_of cs
unfolding sort_conditions_by_type
sort_conditions_by_type-eq-sort_by cs = sink_all-eq-sort_by kind_of cs

pub sort_conditions-perm : (cs : List Condition) → Permᴰ (sort_conditions_by_type cs) cs
sort_conditions-perm cs = rw (sort_conditions_by_type-eq-sort_by cs) (sort_by-perm kind_of cs)

sort_conditions-IsStrictlySorted :
    (cs : List Condition)
    → HasDistinctKeys kind_of cs
    → IsStrictlySorted kind_of (sort_conditions_by_type cs)
sort_conditions-IsStrictlySorted cs d = rw (sort_conditions_by_type-eq-sort_by cs) (
    IsStrictlySorted-of_distinct kind_of (sort_by kind_of cs) (sort_by-IsSorted kind_of cs)
      (HasDistinctKeys-perm kind_of (Permᴰ.symm (sort_by-perm kind_of cs)) d))

kind-severer : (cond c : Condition) → c.kind ≡ cond.kind → (severer cond c).kind ≡ c.kind
kind-severer cond c e = ground arith

strict_above :
    (k : String) (cs : List Condition)
    → All (λ c. str_ltb k c.kind ≡ true) cs
    → All (λ c. k ≢ c.kind) cs
strict_above k [] _ = tt
strict_above k (c ∷ cs) (lt, h) =
    ((λ e. cc (str_ltb_irrefl k, ap (str_ltb k) e, lt)), strict_above k cs h)

pub HasDistinctKeys-of_sorted :
    (cs : List Condition) → IsStrictlySorted kind_of cs → HasDistinctKeys kind_of cs
HasDistinctKeys-of_sorted [] _ = tt
HasDistinctKeys-of_sorted (c ∷ cs) (low, s) =
    (strict_above c.kind cs low, HasDistinctKeys-of_sorted cs s)

-- What the loop does with the first condition.
pub merge_same_type-inv :
    (cond c : Condition) (cs ds : List Condition)
    → merge_same_type cond (c ∷ cs) ≡ some ds
    → ((c.kind ≡ cond.kind) × (ds ≡ severer cond c ∷ cs))
      ⊎ ((ds' : List Condition) × (merge_same_type cond cs ≡ some ds') × (ds ≡ c ∷ ds'))
unfolding merge_same_type
merge_same_type-inv cond c cs ds e = elim (Bool-cases (c.kind == cond.kind)) [
  | inl same ↦ inl ((eq_iff c.kind cond.kind).0 same, sym (some-injective _ _ (rw same at e)))
  | inr another ↦ elim (Option-cases (merge_same_type cond cs)) [
    | inl missing ↦ cc (rw (another, missing) at e)
    | inr (ds', found) ↦ inr (ds', found, sym (some-injective _ _ (rw (another, found) at e)))
  ]
]

-- The types of the conditions do not change.
merge_same_type-All :
    (P : String → Type 0) (cond : Condition) (cs ds : List Condition)
    → merge_same_type cond cs ≡ some ds
    → All (λ c. P c.kind) cs
    → All (λ c. P c.kind) ds
merge_same_type-All P cond [] ds e h = unfold merge_same_type in cc
merge_same_type-All P cond (c ∷ cs) ds e (p, h) = elim (merge_same_type-inv cond c cs ds e) [
  | inl (same, made) ↦ rw made (subst P (sym (kind-severer cond c same)) p, h)
  | inr (ds', found, made) ↦ rw made (p, merge_same_type-All P cond cs ds' found h)
]

merge_same_type-HasDistinctKeys :
    (cond : Condition) (cs ds : List Condition)
    → merge_same_type cond cs ≡ some ds
    → HasDistinctKeys kind_of cs
    → HasDistinctKeys kind_of ds
merge_same_type-HasDistinctKeys cond [] ds e h = unfold merge_same_type in cc
merge_same_type-HasDistinctKeys cond (c ∷ cs) ds e (new, h) =
    elim (merge_same_type-inv cond c cs ds e) [
      | inl (same, made) ↦
          rw made (subst (λ k. All (λ y. k ≢ y.kind) cs) (sym (kind-severer cond c same)) new, h)
      | inr (ds', found, made) ↦ rw made (
        merge_same_type-All (λ k. c.kind ≢ k) cond cs ds' found new,
        merge_same_type-HasDistinctKeys cond cs ds' found h,
      )
    ]

-- Without a condition of its type the warning's type is new.
pub merge_same_type-none :
    (cond : Condition) (cs : List Condition)
    → merge_same_type cond cs ≡ none
    → All (λ c. c.kind ≢ cond.kind) cs
unfolding merge_same_type
merge_same_type-none cond [] e = tt
merge_same_type-none cond (c ∷ cs) e =
    ground (arith, eq_iff c.kind cond.kind, merge_same_type-none cond cs)

append-HasDistinctKeys :
    (cond : Condition) (cs : List Condition)
    → All (λ c. c.kind ≢ cond.kind) cs
    → HasDistinctKeys kind_of cs
    → HasDistinctKeys kind_of (cs ++ cond ∷ [])
append-HasDistinctKeys cond [] _ _ = (tt, tt)
append-HasDistinctKeys cond (c ∷ cs) (ne, nes) (new, h) = (
  All-append (λ y. c.kind ≢ y.kind) cs (cond ∷ []) new (ne, tt),
  append-HasDistinctKeys cond cs nes h,
)

or_append-HasDistinctKeys :
    (cond : Condition) (cs : List Condition)
    → HasDistinctKeys kind_of cs
    → HasDistinctKeys kind_of (or_append (merge_same_type cond cs) cs cond)
or_append-HasDistinctKeys cond cs h = elim (Option-cases (merge_same_type cond cs)) [
  | inl missing ↦
      rw missing (append-HasDistinctKeys cond cs (merge_same_type-none cond cs missing) h)
  | inr (ds, found) ↦ rw found (merge_same_type-HasDistinctKeys cond cs ds found h)
]

-- Merging a warning into conditions in strict alphabetical order of their types leaves them in that
-- order, so that no type stands twice.
pub merge_interval_warning-IsStrictlySorted :
    (out : AggregationOutput) (w : Option ConditionWarning) (now : Time)
    → IsStrictlySorted kind_of out.conditions
    → IsStrictlySorted kind_of (merge_interval_warning out w now).conditions
unfolding merge_interval_warning
merge_interval_warning-IsStrictlySorted out none now s = s
merge_interval_warning-IsStrictlySorted out (some w) now s = sort_conditions-IsStrictlySorted _ (
    or_append-HasDistinctKeys (warning_condition w now) out.conditions
      (HasDistinctKeys-of_sorted out.conditions s))
