-- ===== src/Runner/Validity.antt =====
-- The results of a checked run are valid if those of the check are.
use k_deskflight.Base.{String, [], ◌∷◌, none, some, false, ◌≡◌, refl, ◌==◌}
use k_deskflight.Base.Exec.{Outcome, returned, panicked, Exec, recover_with, continue}
use k_deskflight.Base.Integers.{ℤ}
use k_deskflight.Domain.{Time, Result, Check}
use k_deskflight.Domain.Specs.{CheckSpec}
use k_deskflight.Api.Schema.{are_valid_fields, IsValidResult}
use k_deskflight.Runner.Results.{
  rbac_insufficient_result, rbac_check_failed_result, timeout_result, reconcile_timeout_result,
  reconcile_canceled_result, internal_error_result,
}
use k_deskflight.Runner.{
  ContextError, Cause, Race, RunnerEnv, RunState, Buckets, classify_permissions, end_result,
  classify_context_end, worker, finish_race, run_with_timeout, decide_run, on_panic,
  run_check_safely, effective_timeout,
}

-- A panic, or a result with this property.
abbrev pub MayGive : (Result → Type 0) → Outcome Result → Type 0
MayGive p (returned r) = p r
MayGive p (panicked v) = Unit

-- A valid result of this name.
abbrev pub IsResultOf : String → Result → Type 0
IsResultOf name r = (r.name ≡ name) × IsValidResult r

-- A panic, or a valid result of this name.
abbrev pub MayShow : String → Outcome Result → Type 0
MayShow name = MayGive (IsResultOf name)

-- A check with a condition type, whose results are valid when it does not panic.
abbrev pub GivesValid : {W : Type 0} → Check W → Type 0
GivesValid {W} c =
    ((c.condition_type == "") ≡ false)
    × ((spec : CheckSpec) (w : W) → MayGive IsValidResult (c.run spec w).0)

module _ {S : Type 0} (p : Result → Type 0) where
  pub continue-MayGive :
      {A : Type 0} (o : Outcome A) (f : A → Exec S Result) (s : S)
      → ((a : A) (t : S) → MayGive p (f a t).0)
      → MayGive p (continue o f s).0
  continue-MayGive (returned a) f s h = h a s
  continue-MayGive (panicked v) f s h = tt

  then-MayGive :
      (o : Outcome Result) (f : Result → Exec S Result) (s : S)
      → MayGive p o
      → ((r : Result) (t : S) → p r → MayGive p (f r t).0)
      → MayGive p (continue o f s).0
  then-MayGive (returned r) f s h k = k r s h
  then-MayGive (panicked v) f s h k = tt

  recover_with-MayGive :
      (o : Outcome Result) (h : String → Exec S Result) (s : S)
      → MayGive p o
      → ((v : String) (t : S) → MayGive p (h v t).0)
      → MayGive p (recover_with o h s).0
  recover_with-MayGive (returned r) h s k l = k
  recover_with-MayGive (panicked v) h s k l = l v s

module _ {W : Type 0} (env : RunnerEnv W) (check : Check W) (valid : GivesValid check) where
  end_result-IsValid :
      (timeout : ℤ) (e : ContextError) (cause : Cause) (ts : Time)
      → IsValidResult (end_result env check timeout e cause ts)
  unfolding timeout_result reconcile_timeout_result reconcile_canceled_result internal_error_result
      are_valid_fields
  end_result-IsValid timeout ContextError.deadline_exceeded Cause.per_check_timeout ts =
      rw valid.0 refl
  end_result-IsValid timeout ContextError.deadline_exceeded Cause.inherited ts = rw valid.0 refl
  end_result-IsValid timeout ContextError.canceled cause ts = rw valid.0 refl
  end_result-IsValid timeout (ContextError.other text) cause ts = rw valid.0 refl

  finish_race-IsValid :
      (timeout : ℤ) (res : Result) (race : Race) (w : W)
      → IsValidResult res
      → MayGive IsValidResult (finish_race env check timeout res race w).0
  unfolding classify_context_end
  finish_race-IsValid timeout res (Race.result_first none) w h = h
  finish_race-IsValid timeout res (Race.result_first (some ended)) w h =
      end_result-IsValid timeout _ _ _
  finish_race-IsValid timeout res (Race.done_first ended) w h = end_result-IsValid timeout _ _ _

  worker-IsValid : (spec : CheckSpec) (w : W) → MayGive IsValidResult (worker env check spec w).0
  unfolding worker internal_error_result are_valid_fields
  worker-IsValid spec w =
      recover_with-MayGive IsValidResult (check.run spec w).0 _ _ (valid.1 spec w)
        (λ v t. rw valid.0 refl)

  decide_run-IsValid :
      (spec : CheckSpec) (b : Buckets) (w : W)
      → MayGive IsValidResult (decide_run env check spec b w).0
  unfolding rbac_check_failed_result rbac_insufficient_result run_with_timeout are_valid_fields
  decide_run-IsValid spec (denied, (p ∷ ps)) w = rw valid.0 refl
  decide_run-IsValid spec ((p ∷ ps), []) w = rw valid.0 refl
  decide_run-IsValid spec ([], []) w =
      then-MayGive IsValidResult (worker env check spec w).0 _ _ (worker-IsValid spec w)
        (λ r t h. finish_race-IsValid (effective_timeout env) r (env.race t).0 (env.race t).1 h)

  pub run_check_safely-IsValid :
      (spec : CheckSpec) (s : RunState W)
      → MayGive IsValidResult (run_check_safely env check spec s).0
  unfolding run_check_safely on_panic internal_error_result are_valid_fields
  run_check_safely-IsValid spec s =
      recover_with-MayGive IsValidResult _ _ _
        (continue-MayGive IsValidResult
          (classify_permissions env check check.required_permissions s).0 _ _
          (λ b t. decide_run-IsValid spec b t.1))
        (λ v t. rw valid.0 refl)
