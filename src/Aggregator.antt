-- ===== src/Aggregator.antt =====
-- internal/hexagon/application/aggregator.go: the results of a run become the phase, the counters
-- and the conditions of the status.
pub mod Counts
pub mod Verdict
pub mod Dedupe
pub mod Kinds
pub mod Validity
pub mod Order
use k_deskflight.Base.{
  ℕ, String, List, [], ◌∷◌, Option, none, some, Bool, true, false, ◌&&◌, map, length, ltb, nat_eq,
  if◌then◌else◌,
}
use k_deskflight.Base.Integers.{inc_32, int_32}
use k_deskflight.Base.Maps.{lookup, insert, string_eq}
use k_deskflight.Base.Sort.{sort_by}
use k_deskflight.Domain.{Severity, ConditionStatus, Time, utc, after, Result}
use k_deskflight.Api.{Phase, Condition, Summary}

pub record AggregationOutput : Type 0 where
  pub phase : Phase
  pub summary : Summary
  pub conditions : List Condition

-- the local type `bucket`
pub record Bucket : Type 0 where
  pub has_failed_critical : Bool
  pub has_failed_non_crit : Bool
  pub has_unknown : Bool

abbrev pub Tally : Type 0
Tally = Summary × Bucket

-- one round of the counting loop of `Aggregate`
unfoldable pub count_result : ConditionStatus → Severity → Tally → Tally
count_result ConditionStatus.is_true _ (s, b) = (record s { passed = inc_32 s.passed }, b)
count_result ConditionStatus.is_false Severity.critical (s, b) =
    (record s { failed = inc_32 s.failed }, record b { has_failed_critical = true })
count_result ConditionStatus.is_false _ (s, b) =
    (record s { warning = inc_32 s.warning }, record b { has_failed_non_crit = true })
count_result ConditionStatus.unknown _ (s, b) =
    (record s { unknown = inc_32 s.unknown }, record b { has_unknown = true })
count_result (ConditionStatus.other _) _ t = t

unfoldable pub count_results : List Result → Tally → Tally
count_results [] t = t
count_results (r ∷ rs) t = count_results rs (count_result r.status r.severity t)

unfoldable pub derive_phase : Bool → Bool → Bool → ℕ → Phase
derive_phase has_failed_critical has_failed_non_crit has_unknown total =
    if has_failed_critical
    then Phase.failed
    else if has_failed_non_crit
    then Phase.warning
    else if has_unknown
    then Phase.unknown
    else if nat_eq total 0
    then Phase.passed
    else Phase.passed

abbrev pub severity_rank : Severity → ℕ
severity_rank Severity.critical = 3
severity_rank Severity.warning = 2
severity_rank Severity.info = 1
severity_rank (Severity.other _) = 0

-- whether `r` takes the place of `existing`
unfoldable pub replaces : Result → Result → Bool
replaces r existing =
    if ltb (severity_rank existing.severity) (severity_rank r.severity)
    then true
    else nat_eq (severity_rank r.severity) (severity_rank existing.severity)
      && after r.last_transition existing.last_transition

-- what one round of the deduplication leaves under the result's name
unfoldable pub better : Option Result → Result → Result
better none r = r
better (some existing) r = if replaces r existing then r else existing

-- the map `byName`
unfoldable pub by_name_from : List (String × Result) → List Result → List (String × Result)
by_name_from m [] = m
by_name_from m (r ∷ rs) = by_name_from (insert r.name (better (lookup r.name m) r) m) rs

unfoldable pub by_name : List Result → List (String × Result)
unfolding by_name_from better replaces lookup insert
by_name results = by_name_from [] results

abbrev pub to_condition : Result → Condition
to_condition r = record {
  kind = r.name;
  status = r.status;
  reason = r.reason;
  message = r.message;
  last_transition_time = r.last_transition;
  severity = r.severity;
}

abbrev pub entry_condition : String × Result → Condition
entry_condition (name, r) = to_condition r

unfoldable pub dedupe_and_sort_conditions : List Result → List Condition
unfolding by_name sort_by
dedupe_and_sort_conditions results = sort_by (λ c. c.kind) (map entry_condition (by_name results))

abbrev no_tally : ℕ → Time → Tally
no_tally total now = (
  record {
    passed = 0;
    warning = 0;
    failed = 0;
    unknown = 0;
    checks_total = int_32 total;
    last_checked = some (utc now);
  },
  record { has_failed_critical = false; has_failed_non_crit = false; has_unknown = false },
)

unfoldable pub aggregate : List Result → Time → AggregationOutput
unfolding count_results count_result derive_phase dedupe_and_sort_conditions inc_32 int_32
aggregate results now =
    let (summary, b) = count_results results (no_tally (length results) now) in
    record {
      phase =
          derive_phase b.has_failed_critical b.has_failed_non_crit b.has_unknown (length results);
      summary = summary;
      conditions = dedupe_and_sort_conditions results;
    }
