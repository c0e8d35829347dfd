-- ===== src/Reconciler/Outputs.antt =====
-- internal/hexagon/application/reconciler.go: the statuses that a reconcile writes without a run.
use k_deskflight.Base.{ℕ, String, List, [], ◌∷◌, some, Bool, true, false, map, ◌&◌, join}
use k_deskflight.Base.Integers.{int_32}
use k_deskflight.Domain.{Severity, ConditionStatus, Time, utc}
use k_deskflight.Api.{Phase, Condition, no_summary}
use k_deskflight.Logging.{sanitize_message}
use k_deskflight.Aggregator.{AggregationOutput}
use k_deskflight.Registry.{CheckSelectionIssue}
use k_deskflight.Specs.{SpecError}

-- string(phase)
abbrev pub phase_text : Phase → String
phase_text Phase.pending = "Pending"
phase_text Phase.running = "Running"
phase_text Phase.passed = "Passed"
phase_text Phase.warning = "Warning"
phase_text Phase.failed = "Failed"
phase_text Phase.unknown = "Unknown"
phase_text (Phase.other s) = s

-- the switch of `isAlreadyReconciled`
abbrev pub is_terminal : Phase → Bool
is_terminal Phase.passed = true
is_terminal Phase.warning = true
is_terminal Phase.failed = true
is_terminal Phase.unknown = true
is_terminal _ = false

abbrev pub sanitize_condition : Condition → Condition
sanitize_condition c = record c { message = sanitize_message c.message }

unfoldable pub sanitize_conditions : List Condition → List Condition
unfolding sanitize_message
sanitize_conditions [] = []
sanitize_conditions (c ∷ cs) = sanitize_condition c ∷ map sanitize_condition cs

unfoldable pub reconcile_panic_output : String → Time → AggregationOutput
unfolding sanitize_message
reconcile_panic_output panic_value now = record {
  phase = Phase.unknown;
  summary = record no_summary { last_checked = some (utc now) };
  conditions =
      record {
        kind = "ReconcileError";
        status = ConditionStatus.is_false;
        reason = "ReconcilePanic";
        message = sanitize_message ("reconcile panic recovered: " & panic_value);
        last_transition_time = utc now;
        severity = Severity.critical;
      }
      ∷ [];
}

abbrev error_message : SpecError → String
error_message e = e.check & ": " & e.error

unfoldable pub spec_invalid_output : List SpecError → Time → AggregationOutput
spec_invalid_output errs now = record {
  phase = Phase.failed;
  summary = record no_summary { last_checked = some (utc now) };
  conditions =
      record {
        kind = "SpecInvalid";
        status = ConditionStatus.is_false;
        reason = "SpecInvalid";
        message = join "; " (map error_message errs);
        last_transition_time = utc now;
        severity = Severity.critical;
      }
      ∷ [];
}

abbrev issue_message : CheckSelectionIssue → String
issue_message i = i.name & ": " & i.reason

-- The first issue gives the reason; the caller has one at least.
unfoldable pub selection_issue_output :
    CheckSelectionIssue → List CheckSelectionIssue → ℕ → Time → AggregationOutput
unfolding int_32
selection_issue_output first rest spec_count now = record {
  phase = Phase.failed;
  summary = record no_summary { checks_total = int_32 spec_count; last_checked = some (utc now) };
  conditions =
      record {
        kind = "SpecInvalid";
        status = ConditionStatus.is_false;
        reason = first.reason;
        message = join "; " (map issue_message (first ∷ rest));
        last_transition_time = utc now;
        severity = Severity.critical;
      }
      ∷ [];
}
