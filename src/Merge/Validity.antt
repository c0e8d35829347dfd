-- ===== src/Merge/Validity.antt =====
-- A merge of a valid warning keeps the conditions valid.
use k_deskflight.Base.{
  List, [], ◌∷◌, Option, none, some, true, ◌≡◌, inl, inr, All, All-perm, All-append, Option-cases,
  Bool-cases, ltb,
}
use mathlib.Core.List.Permᴰ
use k_deskflight.Domain.{Time}
use k_deskflight.Api.{Condition}
use k_deskflight.Api.Schema.{IsValidCondition, are_valid_fields}
use k_deskflight.Aggregator.{AggregationOutput}
use k_deskflight.Aggregator.Validity.{AreOrderly}
use k_deskflight.Interval.{ConditionWarning}
use k_deskflight.Merge.{
  severer, merge_same_type, or_append, warning_condition, merge_interval_warning,
  condition_severity_rank,
}
use k_deskflight.Merge.Sorting.{
  merge_same_type-inv, sort_conditions-perm, merge_interval_warning-IsStrictlySorted,
}

-- A warning that makes a valid condition, if there is one.
abbrev pub IsValidWarning : Option ConditionWarning → Type 0
IsValidWarning none = Unit
IsValidWarning (some w) = are_valid_fields w.kind w.reason w.severity ≡ true

module _ (P : Condition → Type 0) (cond : Condition) (p : P cond) where
  severer-keeps : (c : Condition) → P c → P (severer cond c)
  severer-keeps c h =
      elim (Bool-cases
        (ltb (condition_severity_rank c.severity) (condition_severity_rank cond.severity))) [
          | inl above ↦ rw above p
          | inr below ↦ rw below h
        ]

  merge_same_type-keeps :
      (cs ds : List Condition) → merge_same_type cond cs ≡ some ds → All P cs → All P ds
  merge_same_type-keeps [] ds e h = unfold merge_same_type in cc
  merge_same_type-keeps (c ∷ cs) ds e (q, h) = elim (merge_same_type-inv cond c cs ds e) [
    | inl (same, made) ↦ rw made (severer-keeps c q, h)
    | inr (ds', found, made) ↦ rw made (q, merge_same_type-keeps cs ds' found h)
  ]

  or_append-keeps :
      (cs : List Condition) → All P cs → All P (or_append (merge_same_type cond cs) cs cond)
  or_append-keeps cs h = elim (Option-cases (merge_same_type cond cs)) [
    | inl missing ↦ rw missing (All-append P cs (cond ∷ []) h (p, tt))
    | inr (ds, found) ↦ rw found (merge_same_type-keeps cs ds found h)
  ]

merge_interval_warning-valid :
    (out : AggregationOutput) (warning : Option ConditionWarning) (now : Time)
    → IsValidWarning warning
    → All IsValidCondition out.conditions
    → All IsValidCondition (merge_interval_warning out warning now).conditions
unfolding merge_interval_warning
merge_interval_warning-valid out none now _ valid = valid
merge_interval_warning-valid out (some x) now p valid =
    All-perm IsValidCondition (Permᴰ.symm (sort_conditions-perm _))
      (or_append-keeps IsValidCondition (warning_condition x now) p out.conditions valid)

pub merge_interval_warning-AreOrderly :
    (out : AggregationOutput) (warning : Option ConditionWarning) (now : Time)
    → IsValidWarning warning
    → AreOrderly out.conditions
    → AreOrderly (merge_interval_warning out warning now).conditions
merge_interval_warning-AreOrderly out warning now w (valid, sorted) = (
  merge_interval_warning-valid out warning now w valid,
  merge_interval_warning-IsStrictlySorted out warning now sorted,
)
