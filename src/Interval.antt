-- ===== src/Interval.antt =====
-- internal/hexagon/application/interval.go: the interval of a resource, held to [30s, 24h].
pub mod Bounds
pub mod Validity
use k_deskflight.Base.{String, Option, none, some, Bool, ◌==◌, if◌then◌else◌, ◌&◌}
use k_deskflight.Base.Exec.{Fallible, ok, err}
use k_deskflight.Base.Integers.{ℤ, pos, ltb_ℤ}
use k_deskflight.Base.Format.{Fmt}
use k_deskflight.Domain.{Severity}

-- Durations are numbers of nanoseconds.
abbrev pub default_interval : ℤ
default_interval = pos 300000000000

abbrev pub min_interval : ℤ
min_interval = pos 30000000000

abbrev pub max_interval : ℤ
max_interval = pos 86400000000000

abbrev pub condition_type_configuration_invalid : String
condition_type_configuration_invalid = "ConfigurationInvalid"

abbrev pub reason_interval_unparseable : String
reason_interval_unparseable = "IntervalUnparseable"

abbrev pub reason_interval_clamped_min : String
reason_interval_clamped_min = "IntervalClampedMin"

abbrev pub reason_interval_clamped_max : String
reason_interval_clamped_max = "IntervalClampedMax"

pub record ConditionWarning : Type 0 where
  pub kind : String
  pub reason : String
  pub severity : Severity
  pub message : String

abbrev interval_warning : String → String → Option ConditionWarning
interval_warning reason message = some (record {
  kind = condition_type_configuration_invalid;
  reason = reason;
  severity = Severity.warning;
  message = message;
})

-- `time.ParseDuration` computes fractions in floating point and is a parameter.
module _ (fmt : Fmt) (parse_duration : String → Fallible ℤ) where
  abbrev clamp_parsed : ℤ → ℤ × Option ConditionWarning
  clamp_parsed parsed =
      if ltb_ℤ parsed min_interval
      then (
        min_interval,
        interval_warning reason_interval_clamped_min (
            "spec.interval "
            & fmt.show_duration parsed
            & " is below minimum "
            & fmt.show_duration min_interval
            & "; clamped to "
            & fmt.show_duration min_interval),
      )
      else if ltb_ℤ max_interval parsed
      then (
        max_interval,
        interval_warning reason_interval_clamped_max (
            "spec.interval "
            & fmt.show_duration parsed
            & " exceeds maximum "
            & fmt.show_duration max_interval
            & "; clamped to "
            & fmt.show_duration max_interval),
      )
      else (parsed, none)

  abbrev normalize_parsed : String → Fallible ℤ → ℤ × Option ConditionWarning
  normalize_parsed raw (err text) = (
    default_interval,
    interval_warning reason_interval_unparseable (
        "spec.interval "
        & fmt.quote raw
        & " is not a valid Go duration ("
        & text
        & "); falling back to default "
        & fmt.show_duration default_interval),
  )
  normalize_parsed raw (ok parsed) = clamp_parsed parsed

  unfoldable pub normalize_interval : String → ℤ × Option ConditionWarning
  normalize_interval raw =
      if raw == "" then (default_interval, none) else normalize_parsed raw (parse_duration raw)
