-- ===== src/Checks.antt =====
-- internal/adapter/check: the five checks. Here is what they share; the discovery of the cluster
-- (internal/hexagon/port) and the clock are parameters of each.
pub mod Presence
pub mod KubernetesVersion
pub mod StorageClass
pub mod IngressClass
pub mod CertManager
pub mod ClusterResources
pub mod Naming
pub mod Reading
use k_deskflight.Base.{ℕ, String, List, [], Option, none, some, Bool, ◌≡◌, ◌&◌}
use k_deskflight.Base.Exec.{
  Outcome, returned, panicked, Exec, Fallible, ok, err, ◌>>=◌, effect, pure,
}
use k_deskflight.Base.Format.{Fmt}
use k_deskflight.Domain.{Severity, ConditionStatus, Time, utc, Result}
use k_deskflight.Domain.Specs.{CheckSpec, kind}

-- What a check is built with besides its discovery: the clock, and how text is formatted.
pub record CheckEnv (W : Type 0) : Type 0 where
  pub now : W → Time × W
  pub fmt : Fmt

-- A constructor's clock, which is the wall clock of the environment if it is nil.
abbrev pub with_clock : {W : Type 0} → CheckEnv W → Option (W → Time × W) → CheckEnv W
with_clock env none = env
with_clock env (some now) = record env { now = now }

module _ {W : Type 0} (env : CheckEnv W) where
  -- a Result with the time of its making
  abbrev pub result_now : String → ConditionStatus → String → Severity → String → Exec W Result
  result_now name status reason severity message = effect env.now >>= λ ts. pure (record {
    name = name;
    status = status;
    reason = reason;
    severity = severity;
    message = message;
    last_transition = utc ts;
  })

  -- the three methods `passed`, `failed` and `unknown` that the checks repeat
  abbrev pub passed : String → String → String → Exec W Result
  passed name reason message = result_now name ConditionStatus.is_true reason Severity.info message

  abbrev pub failed : String → String → String → Exec W Result
  failed name reason message =
      result_now name ConditionStatus.is_false reason Severity.critical message

  abbrev pub unknown : String → String → String → Exec W Result
  unknown name reason message =
      result_now name ConditionStatus.unknown reason Severity.critical message

  abbrev pub invalid_spec : String → String → CheckSpec → Exec W Result
  invalid_spec name expected spec =
      unknown name "InvalidSpec"
        ("expected spec kind " & env.fmt.quote expected & ", got " & env.fmt.quote (kind spec))

-- The result of a run, for the laws.
abbrev pub HasStatus : ConditionStatus → Outcome Result → Type 0
HasStatus status (returned r) = r.status ≡ status
HasStatus status (panicked v) = ⊥

abbrev pub HasReason : String → Outcome Result → Type 0
HasReason reason (returned r) = r.reason ≡ reason
HasReason reason (panicked v) = ⊥
