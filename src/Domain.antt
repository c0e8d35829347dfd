-- ===== src/Domain.antt =====
-- internal/hexagon/domain: the results of a check, permissions, and the interface of a check.
pub mod Specs
pub mod Permission
use k_deskflight.Base.{ℕ, String, List, ltb, Bool}
use k_deskflight.Base.Exec.{Exec}
use Specs.{CheckSpec}
use Permission.{PermissionRequest}

-- A Go string type with named values; `other` stands for any text that is none of them. The types
-- of this name in internal/hexagon/domain and in api/v1alpha1 have the same values, and the
-- conversion between them is the identity.
pub data Severity : Type 0 where
  info warning critical : Severity
  other : String → Severity

pub data ConditionStatus : Type 0 where
  is_true is_false unknown : ConditionStatus
  other : String → ConditionStatus

-- time.Time: the instant, with 0 for the zero time. `UTC()` changes how an instant is shown, not
-- the instant.
abbrev pub Time : Type 0
Time = ℕ

abbrev pub utc : Time → Time
utc t = t

-- t.After(u)
abbrev pub after : Time → Time → Bool
after t u = ltb u t

pub record Result : Type 0 where
  pub name : String
  pub status : ConditionStatus
  pub reason : String
  pub severity : Severity
  pub message : String
  pub last_transition : Time

-- The interface `Check`; `run` may read the cluster and the clock, which are part of `W`.
pub record Check (W : Type 0) : Type 0 where
  pub name : String
  pub spec_kind : String
  pub condition_type : String
  pub required_permissions : List PermissionRequest
  pub run : CheckSpec → Exec W Result
