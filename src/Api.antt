-- ===== src/Api.antt =====
-- api/v1alpha1/opendeskpreflightcheck_types.go: the resource `OpenDeskPreflightCheck`. What the
-- program does not read of the object's metadata is left out.
pub mod Schema
use k_deskflight.Base.{ℕ, String, List, [], Option, none, Bool}
use k_deskflight.Domain.{Severity, ConditionStatus, Time}

-- `other` is any other text; the phase of a new object is the empty text.
pub data Phase : Type 0 where
  pending running passed warning failed unknown : Phase
  other : String → Phase

-- An absent pointer is `none`. The profile is a text with two values that the program names.
abbrev pub profile_production : String
profile_production = "production"

abbrev pub profile_evaluation : String
profile_evaluation = "evaluation"

pub record StorageClassCheckSpec : Type 0 where
  pub names : List String
  pub require_default : Bool

pub record ClusterResourcesCheckSpec : Type 0 where
  pub min_cpu : String
  pub min_memory : String

-- `kubernetes_version` is the field `Min`, and `ingress_class` the field `Names`, of the sub-spec.
pub record ChecksSpec : Type 0 where
  pub kubernetes_version : Option String
  pub storage_class : Option StorageClassCheckSpec
  pub ingress_class : Option (List String)
  pub cert_manager : Option (Unit {0})
  pub cluster_resources : Option ClusterResourcesCheckSpec

pub record PreflightSpec : Type 0 where
  pub profile : String
  pub interval : String
  pub checks : ChecksSpec

-- `kind` is the field `Type`.
pub record Condition : Type 0 where
  pub kind : String
  pub status : ConditionStatus
  pub reason : String
  pub message : String
  pub last_transition_time : Time
  pub severity : Severity

-- The counters are int32, by their bit patterns.
pub record Summary : Type 0 where
  pub passed : ℕ
  pub warning : ℕ
  pub failed : ℕ
  pub unknown : ℕ
  pub checks_total : ℕ
  pub last_checked : Option Time

pub record PreflightStatus : Type 0 where
  pub phase : Phase
  pub observed_generation : ℕ
  pub summary : Summary
  pub conditions : List Condition

pub record PreflightCheck : Type 0 where
  pub generation : ℕ
  pub resource_version : String
  pub spec : PreflightSpec
  pub status : PreflightStatus

-- The zero values of Go.
abbrev pub no_summary : Summary
no_summary = record {
  passed = 0;
  warning = 0;
  failed = 0;
  unknown = 0;
  checks_total = 0;
  last_checked = none;
}

abbrev pub no_checks : ChecksSpec
no_checks = record {
  kubernetes_version = none;
  storage_class = none;
  ingress_class = none;
  cert_manager = none;
  cluster_resources = none;
}

abbrev pub no_status : PreflightStatus
no_status = record {
  phase = Phase.other "";
  observed_generation = 0;
  summary = no_summary;
  conditions = [];
}

abbrev pub no_check : PreflightCheck
no_check = record {
  generation = 0;
  resource_version = "";
  spec = record { profile = ""; interval = ""; checks = no_checks };
  status = no_status;
}
