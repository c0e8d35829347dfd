-- ===== src/Aggregator/Validity.antt =====
-- The conditions of valid results are valid.
use k_deskflight.Base.{String, List, [], ◌∷◌, ◌≢◌, All, All-mem, All-of_mem, subst, AreDistinct}
use k_deskflight.Base.Sort.{HasDistinctKeys, IsStrictlySorted}
use k_deskflight.Domain.{Time, Result}
use k_deskflight.Api.{Condition}
use k_deskflight.Api.Schema.{IsValidCondition, IsValidResult, AreValid}
use k_deskflight.Aggregator.{aggregate, dedupe_and_sort_conditions}
use k_deskflight.Aggregator.Dedupe.{kind_of, conditions_sound, conditions-IsStrictlySorted}
use k_deskflight.Aggregator.Kinds.{kinds}
use k_deskflight.Merge.Sorting.{HasDistinctKeys-of_sorted}

kinds-All : (P : String → Type 0) (cs : List Condition) → All (λ c. P c.kind) cs → All P (kinds cs)
kinds-All P [] _ = tt
kinds-All P (c ∷ cs) (p, h) = (p, kinds-All P cs h)

-- Conditions with distinct types have distinct types in the list of their types.
kinds-AreDistinct : (cs : List Condition) → HasDistinctKeys kind_of cs → AreDistinct (kinds cs)
kinds-AreDistinct [] _ = tt
kinds-AreDistinct (c ∷ cs) (new, h) = (kinds-All (λ k. c.kind ≢ k) cs new, kinds-AreDistinct cs h)

-- Valid conditions, in strict alphabetical order of their types.
abbrev pub AreOrderly : List Condition → Type 0
AreOrderly cs = All IsValidCondition cs × IsStrictlySorted kind_of cs

pub AreValid-of_AreOrderly : (cs : List Condition) → AreOrderly cs → AreValid cs
AreValid-of_AreOrderly cs (valid, sorted) =
    (valid, kinds-AreDistinct cs (HasDistinctKeys-of_sorted cs sorted))

pub aggregate-AreOrderly :
    (results : List Result) (now : Time)
    → All IsValidResult results
    → AreOrderly (aggregate results now).conditions
unfolding aggregate
aggregate-AreOrderly results now valid =
    let cs = dedupe_and_sort_conditions results in
    (
      All-of_mem IsValidCondition cs (λ c i.
          let (r, j, same) = conditions_sound results c i in
          subst IsValidCondition same (All-mem IsValidResult results valid j)),
      conditions-IsStrictlySorted results,
    )
