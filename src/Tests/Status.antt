-- ===== src/Tests/Status.antt =====
-- The status of a run.
use k_deskflight.Base.{[], ◌∷◌, ◌≡◌, ◌≢◌, ◌↔◌, refl, arith, some, Memᴰ, Permᴰ, map, length}
use mathlib.Core.List.Permᴰ
use k_deskflight.Base.Text.{str_ltb}
use k_deskflight.Base.Sort.{sort_by, IsStrictlySorted}
use k_deskflight.Domain.{Result}
use k_deskflight.Api.{Phase, Condition}
use k_deskflight.Aggregator.{
  aggregate, by_name, dedupe_and_sort_conditions, entry_condition, to_condition,
}
use k_deskflight.Aggregator.Counts.{Class, count, aggregate-counts}
use k_deskflight.Aggregator.Verdict.{CallsFor, aggregate-phase_iff}
use k_deskflight.Aggregator.Dedupe.{kind_of, Outranks, conditions-IsStrictlySorted, conditions_best}
use k_deskflight.Aggregator.Order.{conditions_of_iteration, aggregate-perm}
use k_deskflight.Interval.{normalize_interval}
use k_deskflight.Interval.Bounds.{IsAllowed, normalize_interval_bounds}
use k_deskflight.Merge.{merge_interval_warning, sort_conditions_by_type}
use k_deskflight.Merge.Laws.{IsAtLeast, merge_interval_warning_lem}
use k_deskflight.Merge.Sorting.{sort_conditions_by_type-eq-sort_by}
use k_deskflight.Tests.Fixtures.{
  plain_fmt, parse_minutes, two_results, three_results, storage_failed, storage_passed,
  manager_missing, passed_output, clamped,
}

aggregate-phase_iff_example :
    ((aggregate two_results 9).phase ≡ Phase.failed) ↔ CallsFor two_results Phase.failed
aggregate-phase_iff_example = aggregate-phase_iff two_results 9 Phase.failed

aggregate-counts_example :
    ((aggregate two_results 9).summary.passed ≡ count Class.pass two_results)
    × ((aggregate two_results 9).summary.failed ≡ count Class.hard_failure two_results)
    × ((aggregate two_results 9).summary.warning ≡ count Class.soft_failure two_results)
    × ((aggregate two_results 9).summary.unknown ≡ count Class.undetermined two_results)
    × ((aggregate two_results 9).summary.checks_total ≡ length two_results)
aggregate-counts_example = aggregate-counts two_results 9 (omega arith)

conditions-IsStrictlySorted_example :
    IsStrictlySorted kind_of (dedupe_and_sort_conditions three_results)
conditions-IsStrictlySorted_example = conditions-IsStrictlySorted three_results

conditions_best_example :
    (b : Result) × Memᴰ (to_condition b) (dedupe_and_sort_conditions three_results)
    × (b.name ≡ "StorageClassReady")
    × Outranks b storage_passed
conditions_best_example = conditions_best three_results storage_passed (Memᴰ.head refl)

kept : Memᴰ (to_condition storage_failed) (dedupe_and_sort_conditions three_results)
unfolding dedupe_and_sort_conditions str_ltb
kept = Memᴰ.tail (Memᴰ.head refl)

conditions_of_iteration_example :
    sort_by kind_of (map entry_condition (by_name three_results))
    ≡ dedupe_and_sort_conditions three_results
conditions_of_iteration_example =
    conditions_of_iteration three_results (by_name three_results)
      (Permᴰ.refl (by_name three_results))

aggregate-perm_example :
    aggregate (storage_failed ∷ manager_missing ∷ []) 9
    ≡ aggregate (manager_missing ∷ storage_failed ∷ []) 9
aggregate-perm_example =
    aggregate-perm 9 (Permᴰ.swap refl refl)
      (((λ (e : "StorageClassReady" ≡ "CertManagerInstalled"). cc), tt), (tt, tt))

normalize_interval_bounds_example : IsAllowed (normalize_interval plain_fmt parse_minutes "1s").0
normalize_interval_bounds_example = normalize_interval_bounds plain_fmt parse_minutes "1s"

merge_interval_warning_lem_example :
    (Phase.passed ≡ Phase.passed
      → (merge_interval_warning passed_output (some clamped) 9).phase ≡ Phase.warning)
    × (Phase.passed ≡ Phase.failed
        → (merge_interval_warning passed_output (some clamped) 9).phase ≡ Phase.failed)
    × (Phase.passed ≡ Phase.warning
        → (merge_interval_warning passed_output (some clamped) 9).phase ≡ Phase.warning)
    × ((merge_interval_warning passed_output (some clamped) 9).summary ≡ passed_output.summary)
    × ((c : Condition) × Memᴰ c (merge_interval_warning passed_output (some clamped) 9).conditions
        × (c.kind ≡ clamped.kind)
        × IsAtLeast c.severity clamped.severity)
    × ((k : Condition)
        → k.kind ≢ clamped.kind
        → Memᴰ k passed_output.conditions
        → Memᴰ k (merge_interval_warning passed_output (some clamped) 9).conditions)
merge_interval_warning_lem_example = merge_interval_warning_lem passed_output clamped 9

sort_conditions_by_type-eq-sort_by_example :
    sort_conditions_by_type passed_output.conditions ≡ sort_by kind_of passed_output.conditions
sort_conditions_by_type-eq-sort_by_example =
    sort_conditions_by_type-eq-sort_by passed_output.conditions
