-- ===== src/Reconciler.antt =====
-- internal/hexagon/application/reconciler.go: one reconcile of a resource. The API of the cluster and
-- the clock are parameters, which act on the rest of the world, `W`.
pub mod Outputs
pub mod Lifecycle
pub mod Writes
pub mod Steps
pub mod Loop
use k_deskflight.Base.{
  ℕ, String, List, [], ◌∷◌, Option, none, some, Bool, true, false, ◌==◌, nat_eq, length,
  if◌then◌else◌, ◌&◌, leb,
}
use k_deskflight.Base.Exec.{
  Outcome, returned, panicked, Exec, Fallible, pure, panic, recover, effect, modify, current,
  continue, ◌>>=◌,
}
use k_deskflight.Base.Integers.{ℤ, pos}
use k_deskflight.Base.Format.{Fmt, show_64, show_32}
use k_deskflight.Base.Maps.{lookup, string_eq}
use k_deskflight.Domain.{Time, Result, Check}
use k_deskflight.Domain.Permission.{PermissionRequest}
use k_deskflight.Domain.Specs.{CheckSpec}
use k_deskflight.Api.{Phase, Condition, PreflightCheck, no_check}
use k_deskflight.Logging.{
  Level, Logger, LogEntry, Attr, log_entry, log_with, log_result, sanitize_attrs,
}
use k_deskflight.Aggregator.{AggregationOutput, aggregate}
use k_deskflight.Interval.{ConditionWarning, normalize_interval}
use k_deskflight.Merge.{merge_interval_warning}
use k_deskflight.Registry.{Registry, CheckSelectionIssue, list_by_profile, all_checks}
use k_deskflight.Runner.{RunnerEnv, RunState, Race, run_check_safely}
use k_deskflight.Specs.{
  SpecError, Built, build_spec_map, defaults_for_profile, profile_with_default,
}
use Outputs.{
  phase_text, is_terminal, sanitize_conditions, reconcile_panic_output, spec_invalid_output,
  selection_issue_output,
}

-- What the functions of apierrors tell of an error; wrapping with `%w` keeps it.
pub data ErrorKind : Type 0 where
  not_found conflict unclassified : ErrorKind

pub record ApiError : Type 0 where
  pub kind : ErrorKind
  pub text : String

pub data Answer : Type 0 where
  object : PreflightCheck → Answer
  failure : ApiError → Answer

abbrev pub wrap : String → ApiError → ApiError
wrap prefix e = record e { text = prefix & ": " & e.text }

-- ctrl.Request
pub record Request : Type 0 where
  pub name : String
  pub namespace : String

-- ctrl.Result
pub record CtrlResult : Type 0 where
  pub requeue : Bool
  pub requeue_after : ℤ

abbrev pub no_result : CtrlResult
no_result = record { requeue = false; requeue_after = pos 0 }

abbrev pub after_interval : ℤ → CtrlResult
after_interval d = record { requeue = false; requeue_after = d }

abbrev pub requeue_now : CtrlResult
requeue_now = record { requeue = true; requeue_after = pos 0 }

-- The struct `Reconciler` with its client. `update_status` is `Status().Update`, whose answer takes the
-- place of the object. `default_logger` and `wall_clock` are what a nil logger and a nil clock fall
-- back to.
pub record Reconciler (W : Type 0) : Type 0 where
  pub get : Request → Exec W Answer
  pub update_status : PreflightCheck → Exec W Answer
  pub registry : Option (Registry W)
  pub access_reviewer : Option (PermissionRequest → Exec W (Bool × Option String))
  pub logger : Option (Logger W)
  pub default_logger : Logger W
  pub check_timeout : ℤ
  pub now : Option (W → Time × W)
  pub wall_clock : W → Time × W
  pub race : W → Race × W
  pub stack : String
  pub fmt : Fmt
  pub parse_duration : String → Fallible ℤ

-- The variables of `Reconcile` that its deferred function reads.
pub record Session (W : Type 0) : Type 0 where
  pub world : W
  pub cr : PreflightCheck
  pub cr_loaded : Bool
  pub interval_warning : Option ConditionWarning
  pub now : Time

abbrev pub start : {W : Type 0} → W → Session W
start w = record { world = w; cr = no_check; cr_loaded = false; interval_warning = none; now = 0 }

-- what `Reconcile` returns
abbrev pub Reply : Type 0
Reply = CtrlResult × Option ApiError
