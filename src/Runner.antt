-- ===== src/Runner.antt =====
-- internal/hexagon/application/runner.go: one check of a run, with the review of its permissions, its
-- deadline and the recovery of its panics.
pub mod Results
pub mod Permissions
pub mod Outcomes
pub mod Invariants
pub mod Reviews
pub mod Validity
pub mod Returns
use k_deskflight.Base.{
  ℕ, String, List, [], ◌∷◌, ◌++◌, Option, none, some, Bool, true, false, map, leb, length,
  if◌then◌else◌, ◌&◌, join,
}
use k_deskflight.Base.Exec.{
  Outcome, returned, panicked, Exec, pure, panic, recover, effect, modify, continue, ◌>>=◌,
}
use k_deskflight.Base.Integers.{ℤ, pos, ltb_ℤ}
use k_deskflight.Base.Format.{Fmt}
use k_deskflight.Base.Maps.{lookup, insert}
use k_deskflight.Base.Sort.{sort_by}
use k_deskflight.Domain.{Severity, ConditionStatus, Time, utc, Result, Check}
use k_deskflight.Domain.Permission.{PermissionRequest, canonical_string, permission_eq}
use k_deskflight.Domain.Specs.{CheckSpec}
use k_deskflight.Runner.Results.{
  rbac_insufficient_result, rbac_check_failed_result, timeout_result, reconcile_timeout_result,
  reconcile_canceled_result, internal_error_result,
}
use k_deskflight.Logging.{
  Level, Logger, LogEntry, Attr, log_entry, log_with, sanitize_message, sanitize_attrs,
}

-- How a context ended: `ctx.Err()` and `context.Cause(ctx)`.
pub data ContextError : Type 0 where
  deadline_exceeded canceled : ContextError
  other : String → ContextError

pub data Cause : Type 0 where
  per_check_timeout inherited : Cause

pub record ContextEnd : Type 0 where
  pub error : ContextError
  pub cause : Cause

-- How the select between the worker's result and the context went: the branch that Go took, and what
-- the context was found to be there.
pub data Race : Type 0 where
  result_first : Option ContextEnd → Race
  done_first : ContextEnd → Race

-- The arguments of `RunCheckSafely` that are the same for every check of a run. `now`, the reviewer
-- and the race act on the rest of the world, `W`; a nil reviewer panics when it is called.
pub record RunnerEnv (W : Type 0) : Type 0 where
  pub logger : Option (Logger W)
  pub reviewer : Option (PermissionRequest → Exec W (Bool × Option String))
  pub now : W → Time × W
  pub race : W → Race × W
  pub check_timeout : ℤ
  pub stack : String
  pub fmt : Fmt

abbrev pub default_check_timeout : ℤ
default_check_timeout = pos 30000000000

pub record PermOutcome : Type 0 where
  pub allowed : Bool
  pub error : Option String

abbrev pub PermissionCache : Type 0
PermissionCache = List (PermissionRequest × PermOutcome)

abbrev pub RunState : Type 0 → Type 0
RunState W = PermissionCache × W

-- denied and failed permissions
abbrev pub Buckets : Type 0
Buckets = List PermissionRequest × List PermissionRequest

abbrev add_to_bucket : PermissionRequest → Bool → Option String → Buckets → Buckets
add_to_bucket p allowed (some error) (denied, failed) = (denied, p ∷ failed)
add_to_bucket p false none (denied, failed) = (p ∷ denied, failed)
add_to_bucket p true none (denied, failed) = (denied, failed)

module _ {W A : Type 0} where
  -- a step of the rest of the world, which leaves the cache
  abbrev pub on_world : Exec W A → Exec (RunState W) A
  on_world m (cache, w) = let (o, w') = m w in (o, (cache, w'))

module _ {W : Type 0} (env : RunnerEnv W) where
  abbrev log_review_error : Check W → PermissionRequest → Option String → W → W
  log_review_error check p none w = w
  log_review_error check p (some text) w =
      log_with env.logger
        (log_entry Level.error "self subject access review failed" (
          sanitize_attrs
            (("check", check.name) ∷ ("permission", canonical_string p) ∷ ("err", text) ∷ [])))
        w

  -- the answer of the reviewer goes into the cache
  remember :
      Check W
      → PermissionRequest
      → Outcome (Bool × Option String)
      → RunState W
      → Outcome PermOutcome × RunState W
  unfolding sanitize_attrs canonical_string
  remember check p (panicked v) s = (panicked v, s)
  remember check p (returned (allowed, error)) (cache, w) =
      let outcome : PermOutcome = record { allowed = allowed; error = error } in
      (returned outcome, (insert p outcome cache, log_review_error check p error w))

  abbrev call_reviewer :
      Option (PermissionRequest → Exec W (Bool × Option String))
      → PermissionRequest
      → Exec W (Bool × Option String)
  call_reviewer none p = panic "invalid memory address or nil pointer dereference"
  call_reviewer (some can_i) p = can_i p

  review_if_absent :
      Check W → PermissionRequest → Option PermOutcome → Exec (RunState W) PermOutcome
  unfolding remember
  review_if_absent check p (some outcome) s = (returned outcome, s)
  review_if_absent check p none s =
      let (o, s') = on_world (call_reviewer env.reviewer p) s in remember check p o s'

  -- the answer for one permission, from the cache or from the reviewer
  unfoldable pub review : Check W → PermissionRequest → Exec (RunState W) PermOutcome
  unfolding review_if_absent lookup insert
  review check p s = review_if_absent check p (lookup p s.0) s

  unfoldable pub classify_permissions : Check W → List PermissionRequest → Exec (RunState W) Buckets
  unfolding review
  classify_permissions check [] = pure ([], [])
  classify_permissions check (p ∷ ps) = review check p >>= λ outcome.
      classify_permissions check ps >>= λ buckets.
      pure (add_to_bucket p outcome.allowed outcome.error buckets)

  abbrev pub end_result : Check W → ℤ → ContextError → Cause → Time → Result
  end_result check timeout ContextError.deadline_exceeded Cause.per_check_timeout ts =
      timeout_result env.fmt check timeout ts
  end_result check timeout ContextError.deadline_exceeded Cause.inherited ts =
      reconcile_timeout_result check ts
  end_result check timeout ContextError.canceled cause ts = reconcile_canceled_result check ts
  end_result check timeout (ContextError.other text) cause ts = internal_error_result check ts

  unfoldable pub classify_context_end : ContextEnd → Check W → ℤ → Exec W Result
  classify_context_end ended check timeout =
      effect env.now >>= λ ts. pure (end_result check timeout ended.error ended.cause ts)

  -- what the worker sends: the result of the check, or that of its late recovery
  unfoldable pub worker : Check W → CheckSpec → Exec W Result
  worker check spec =
      recover (check.run spec) (λ v. effect env.now >>= λ ts. pure (internal_error_result check ts))

  abbrev finish_race : Check W → ℤ → Result → Race → Exec W Result
  finish_race check timeout res (Race.result_first none) = pure res
  finish_race check timeout res (Race.result_first (some ended)) =
      classify_context_end ended check timeout
  finish_race check timeout res (Race.done_first ended) = classify_context_end ended check timeout

  -- The worker runs beside the select; what it changes is put before it, and a result that comes too
  -- late is dropped.
  unfoldable pub run_with_timeout : Check W → CheckSpec → ℤ → Exec W Result
  unfolding worker classify_context_end
  run_with_timeout check spec timeout =
      worker check spec >>= λ res. effect env.race >>= λ race. finish_race check timeout res race

  abbrev pub effective_timeout : ℤ
  effective_timeout =
      if ltb_ℤ (pos 0) env.check_timeout then env.check_timeout else default_check_timeout

  abbrev decide_run : Check W → CheckSpec → Buckets → Exec W Result
  decide_run check spec (denied, (p ∷ ps)) =
      effect env.now >>= λ ts. pure (rbac_check_failed_result check (p ∷ ps) ts)
  decide_run check spec ((p ∷ ps), []) =
      effect env.now >>= λ ts. pure (rbac_insufficient_result check (p ∷ ps) ts)
  decide_run check spec ([], []) = run_with_timeout check spec effective_timeout

  abbrev recovered_entry : Check W → String → LogEntry
  recovered_entry check v =
      log_entry Level.error "panic recovered in check pipeline"
        (sanitize_attrs (("check", check.name) ∷ ("recover", v) ∷ ("stack", env.stack) ∷ []))

  unfoldable pub on_panic : Check W → String → Exec W Result
  unfolding sanitize_attrs internal_error_result
  on_panic check v = modify (log_with env.logger (recovered_entry check v)) >>= λ _.
      effect env.now >>= λ ts. pure (internal_error_result check ts)

  unfoldable pub run_check_safely : Check W → CheckSpec → Exec (RunState W) Result
  unfolding classify_permissions run_with_timeout on_panic
  run_check_safely check spec =
      recover
        (classify_permissions check check.required_permissions >>= λ buckets.
          on_world (decide_run check spec buckets))
        (λ v. on_world (on_panic check v))
