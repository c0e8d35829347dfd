-- ===== src/Merge.antt =====
-- internal/hexagon/application/reconciler.go: the warning about the interval goes into the status.
pub mod Sorting
pub mod Laws
pub mod Kinds
pub mod Validity
use k_deskflight.Base.{
  ℕ, String, List, [], ◌∷◌, ◌++◌, Option, none, some, Bool, ltb, leb, ◌==◌, if◌then◌else◌,
}
use k_deskflight.Base.Text.{str_ltb}
use k_deskflight.Base.Sort.Insertion.{sink_all}
use k_deskflight.Domain.{Severity, ConditionStatus, Time, utc}
use k_deskflight.Api.{Phase, Condition}
use k_deskflight.Aggregator.{AggregationOutput}
use k_deskflight.Interval.{ConditionWarning}

abbrev pub condition_severity_rank : Severity → ℕ
condition_severity_rank Severity.critical = 3
condition_severity_rank Severity.warning = 2
condition_severity_rank Severity.info = 1
condition_severity_rank (Severity.other _) = 0

-- Each round of the outer loop lets the next condition sink below the larger types before it.
unfoldable pub sort_conditions_by_type : List Condition → List Condition
unfolding sink_all
sort_conditions_by_type conds = sink_all (λ c. c.kind) [] conds

abbrev pub phase_rank : Phase → ℕ
phase_rank Phase.failed = 4
phase_rank Phase.warning = 3
phase_rank Phase.unknown = 2
phase_rank Phase.passed = 1
phase_rank _ = 0

unfoldable pub escalate_phase : Phase → Phase → Phase
escalate_phase current floor =
    if leb (phase_rank floor) (phase_rank current) then current else floor

abbrev prepend : Condition → Option (List Condition) → Option (List Condition)
prepend c none = none
prepend c (some cs) = some (c ∷ cs)

abbrev pub severer : Condition → Condition → Condition
severer cond c =
    if ltb (condition_severity_rank c.severity) (condition_severity_rank cond.severity)
    then cond
    else c

-- the loop that looks for a condition of the same type; `none` if there is none
unfoldable pub merge_same_type : Condition → List Condition → Option (List Condition)
merge_same_type cond [] = none
merge_same_type cond (c ∷ cs) =
    let later = merge_same_type cond cs in
    if c.kind == cond.kind then some (severer cond c ∷ cs) else prepend c later

abbrev or_append : Option (List Condition) → List Condition → Condition → List Condition
or_append none cs cond = cs ++ cond ∷ []
or_append (some merged) cs cond = merged

abbrev pub warning_condition : ConditionWarning → Time → Condition
warning_condition w now = record {
  kind = w.kind;
  status = ConditionStatus.is_true;
  reason = w.reason;
  message = w.message;
  last_transition_time = utc now;
  severity = w.severity;
}

unfoldable pub merge_interval_warning :
    AggregationOutput → Option ConditionWarning → Time → AggregationOutput
unfolding merge_same_type sort_conditions_by_type escalate_phase
merge_interval_warning out none now = out
merge_interval_warning out (some w) now =
    let cond = warning_condition w now in
    record out {
      conditions =
          sort_conditions_by_type
            (or_append (merge_same_type cond out.conditions) out.conditions cond);
      phase = escalate_phase out.phase Phase.warning;
    }
