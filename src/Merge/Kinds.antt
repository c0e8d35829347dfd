-- ===== src/Merge/Kinds.antt =====
-- The types of the conditions after the merge of a warning.
use k_deskflight.Base.{
  String, List, [], ◌∷◌, ◌++◌, Option, none, some, ◌≡◌, ◌⊎◌, ◌↔◌, inl, inr, refl, sym, ap, Memᴰ,
  mem-perm, Option-cases, arith,
}
use mathlib.Core.List.Memᴰ
use mathlib.Core.List.Permᴰ
use k_deskflight.Domain.{Time}
use k_deskflight.Api.{Condition}
use k_deskflight.Aggregator.{AggregationOutput}
use k_deskflight.Aggregator.Dedupe.{kind_of}
use k_deskflight.Aggregator.Kinds.{kinds}
use k_deskflight.Interval.{ConditionWarning}
use k_deskflight.Merge.{
  severer, merge_same_type, or_append, warning_condition, merge_interval_warning,
}
use k_deskflight.Merge.Sorting.{merge_same_type-inv, sort_conditions-perm}

-- The type of a warning, if there is one.
abbrev pub IsWarned : String → Option ConditionWarning → Type 0
IsWarned k none = ⊥
IsWarned k (some w) = k ≡ w.kind

severer-kind : (cond c : Condition) → c.kind ≡ cond.kind → (severer cond c).kind ≡ c.kind
severer-kind cond c same = ground arith

-- A merge into a condition of the same type keeps the types, and that type is one of them.
kinds-merge_same_type :
    (cond : Condition) (cs ds : List Condition)
    → merge_same_type cond cs ≡ some ds
    → (kinds ds ≡ kinds cs) × Memᴰ cond.kind (kinds cs)
kinds-merge_same_type cond [] ds e = unfold merge_same_type in cc
kinds-merge_same_type cond (c ∷ cs) ds e = elim (merge_same_type-inv cond c cs ds e) [
  | inl (same, made) ↦
      rw made (ap (λ k. k ∷ kinds cs) (severer-kind cond c same), Memᴰ.head (sym same))
  | inr (ds', found, made) ↦
      let (kept, i) = kinds-merge_same_type cond cs ds' found in
      rw made (ap (λ ks. c.kind ∷ ks) kept, Memᴰ.tail i)
]

kinds-appended :
    (cs : List Condition) (cond : Condition) → kinds (cs ++ cond ∷ []) ≡ kinds cs ++ cond.kind ∷ []
kinds-appended [] cond = refl
kinds-appended (c ∷ cs) cond = ap (λ ks. c.kind ∷ ks) (kinds-appended cs cond)

or_append_iff :
    (cond : Condition) (cs : List Condition) (k : String)
    → Memᴰ k (kinds (or_append (merge_same_type cond cs) cs cond))
      ↔ (Memᴰ k (kinds cs) ⊎ (k ≡ cond.kind))
or_append_iff cond cs k = elim (Option-cases (merge_same_type cond cs)) [
  | inl missing ↦
      rw (missing, kinds-appended cs cond)
        (
          (λ i. elim (Memᴰ.append_cases (kinds cs) i) [
            | inl j ↦ inl j
            | inr j ↦ inr (Memᴰ.eq_of_singleton j)
          ]),
          (λ h. elim h [
            | inl i ↦ Memᴰ.append_left (cond.kind ∷ []) i
            | inr e ↦ Memᴰ.append_right (kinds cs) (Memᴰ.head e)
          ]),
        )
  | inr (ds, found) ↦
      let (kept, here) = kinds-merge_same_type cond cs ds found in
      rw (found, kept) ((λ i. inl i), (λ h. elim h [ inl i ↦ i | inr e ↦ Memᴰ.cast e here ]))
]

-- Merging a warning adds its type.
pub kinds-merge_iff :
    (out : AggregationOutput) (warning : Option ConditionWarning) (now : Time) (k : String)
    → Memᴰ k (kinds (merge_interval_warning out warning now).conditions)
      ↔ (Memᴰ k (kinds out.conditions) ⊎ IsWarned k warning)
unfolding merge_interval_warning
kinds-merge_iff out none now k = ((λ i. inl i), (λ h. elim h [ inl i ↦ i | inr e ↦ absurd e ]))
kinds-merge_iff out (some w) now k =
    let cond = warning_condition w now in
    let merged = or_append (merge_same_type cond out.conditions) out.conditions cond in
    let perm = Permᴰ.map kind_of (sort_conditions-perm merged) in
    (
      (λ i. (or_append_iff cond out.conditions k).0 (mem-perm perm i)),
      (λ h. mem-perm (Permᴰ.symm perm) ((or_append_iff cond out.conditions k).1 h)),
    )
