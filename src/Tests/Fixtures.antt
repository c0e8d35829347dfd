-- ===== src/Tests/Fixtures.antt =====
-- The inputs of the tests: results, conditions, checks and a cluster whose state is a clock.
use k_deskflight.Base.{ℕ, suc, String, List, [], ◌∷◌, ◌==◌, if◌then◌else◌}
use k_deskflight.Base.Exec.{returned, panicked, Exec, Fallible, ok, err}
use k_deskflight.Base.Format.{Fmt}
use k_deskflight.Base.Integers.{ℤ, pos}
use k_deskflight.Domain.{Severity, ConditionStatus, Time, Result, Check}
use k_deskflight.Domain.Permission.{PermissionRequest}
use k_deskflight.Api.{Phase, Condition, no_summary}
use k_deskflight.Aggregator.{AggregationOutput}
use k_deskflight.Interval.{ConditionWarning}

abbrev pub plain_fmt : Fmt
plain_fmt = record { quote = λ s. s; show_duration = λ d. "d" }

abbrev pub parse_minutes : String → Fallible ℤ
parse_minutes s =
    if s == "10m"
    then ok (pos 600000000000)
    else if s == "1s"
    then ok (pos 1000000000)
    else err "invalid duration"

abbrev pub ten_minutes : String
ten_minutes = "10m"

abbrev pub result_of : String → ConditionStatus → Severity → Time → Result
result_of name status severity at = record {
  name = name;
  status = status;
  reason = "Reason";
  severity = severity;
  message = "message";
  last_transition = at;
}

abbrev pub storage_failed : Result
storage_failed = result_of "StorageClassReady" ConditionStatus.is_false Severity.critical 4

abbrev pub storage_passed : Result
storage_passed = result_of "StorageClassReady" ConditionStatus.is_true Severity.info 5

abbrev pub manager_missing : Result
manager_missing = result_of "CertManagerInstalled" ConditionStatus.is_false Severity.warning 6

abbrev pub two_results : List Result
two_results = storage_failed ∷ manager_missing ∷ []

abbrev pub three_results : List Result
three_results = storage_passed ∷ manager_missing ∷ storage_failed ∷ []

abbrev pub condition_of : String → Severity → Condition
condition_of kind severity = record {
  kind = kind;
  status = ConditionStatus.is_true;
  reason = "Reason";
  message = "message";
  last_transition_time = 3;
  severity = severity;
}

abbrev pub passed_output : AggregationOutput
passed_output = record {
  phase = Phase.passed;
  summary = no_summary;
  conditions =
      condition_of "CertManagerInstalled" Severity.info
      ∷ condition_of "StorageClassReady" Severity.info
      ∷ [];
}

abbrev pub clamped : ConditionWarning
clamped = record {
  kind = "ConfigurationInvalid";
  reason = "IntervalClampedMin";
  severity = Severity.warning;
  message = "clamped";
}

-- The state of the test cluster is its clock.
abbrev pub tick : ℕ → Time × ℕ
tick w = (w, suc w)

abbrev pub answers : {A : Type 0} → A → Exec ℕ A
answers a w = (returned a, w)

abbrev pub list_nodes : PermissionRequest
list_nodes = record {
  group = "";
  resource = "nodes";
  subresource = "";
  verb = "list";
  namespace = "";
}

abbrev pub list_classes : PermissionRequest
list_classes = record {
  group = "storage.k8s.io";
  resource = "storageclasses";
  subresource = "";
  verb = "list";
  namespace = "";
}

abbrev pub check_of : String → String → List PermissionRequest → Exec ℕ Result → Check ℕ
check_of name condition perms run = record {
  name = name;
  spec_kind = name;
  condition_type = condition;
  required_permissions = perms;
  run = λ spec. run;
}

abbrev pub storage_check : Check ℕ
storage_check =
    check_of "storageClass" "StorageClassReady" (list_classes ∷ []) (answers storage_passed)

abbrev pub crashing_check : Check ℕ
crashing_check = check_of "certManager" "CertManagerInstalled" [] (λ w. (panicked "nil map", w))
