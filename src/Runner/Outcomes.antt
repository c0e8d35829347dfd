-- ===== src/Runner/Outcomes.antt =====
-- The results of one check of a run, whatever the check, the reviewer, the clock and the race do.
use k_deskflight.Base.{
  String, List, [], ◌∷◌, ◌++◌, none, some, map, join, ◌&◌, ◌≡◌, ◌≢◌, refl, subst,
}
use k_deskflight.Base.Exec.{
  Outcome, returned, panicked, Exec, recover, recover_with, continue, ◌>>=◌, IsReturned,
}
use k_deskflight.Base.Exec.Laws.{recover-returns}
use k_deskflight.Base.Integers.{ℤ}
use k_deskflight.Base.Sort.{sort_by}
use k_deskflight.Domain.{Severity, ConditionStatus, Time, Result, Check}
use k_deskflight.Domain.Permission.{PermissionRequest, canonical_string}
use k_deskflight.Logging.{sanitize_message}
use k_deskflight.Domain.Specs.{CheckSpec}
use k_deskflight.Runner.Results.{
  rbac_insufficient_result, rbac_check_failed_result, timeout_result, reconcile_timeout_result,
  reconcile_canceled_result, internal_error_result, join_permissions,
}
use k_deskflight.Runner.{
  ContextError, Cause, ContextEnd, Race, RunnerEnv, RunState, Buckets, on_world,
  classify_permissions, end_result, classify_context_end, worker, finish_race, run_with_timeout,
  decide_run, on_panic, run_check_safely,
}
use k_deskflight.Runner.Permissions.{Reviewed, denied_in, failed_in, classify_permissions-Reviewed}

-- A panic, or a result of this name.
abbrev pub MayName : String → Outcome Result → Type 0
MayName name (returned r) = r.name ≡ name
MayName name (panicked v) = Unit

-- A result of this name, and no panic.
abbrev pub Names : String → Outcome Result → Type 0
Names name (returned r) = r.name ≡ name
Names name (panicked v) = ⊥

MayName-of_Names : (name : String) (o : Outcome Result) → Names name o → MayName name o
MayName-of_Names name (returned r) h = h
MayName-of_Names name (panicked v) h = tt

module _ {S A : Type 0} where
  pub continue-MayName :
      (name : String) (o : Outcome A) (f : A → Exec S Result) (s : S)
      → ((a : A) (t : S) → MayName name (f a t).0)
      → MayName name (continue o f s).0
  continue-MayName name (returned a) f s h = h a s
  continue-MayName name (panicked v) f s h = tt

module _ {S : Type 0} where
  recover_with-Names :
      (name : String) (o : Outcome Result) (h : String → Exec S Result) (s : S)
      → MayName name o
      → ((v : String) (t : S) → Names name (h v t).0)
      → Names name (recover_with o h s).0
  recover_with-Names name (returned r) h s k l = k
  recover_with-Names name (panicked v) h s k l = l v s

  continue-Names :
      (name : String) (o : Outcome Result) (f : Result → Exec S Result) (s : S)
      → Names name o
      → ((r : Result) (t : S) → r.name ≡ name → Names name (f r t).0)
      → Names name (continue o f s).0
  continue-Names name (returned r) f s k l = l r s k
  continue-Names name (panicked v) f s k l = absurd k

module _ {W : Type 0} (env : RunnerEnv W) (check : Check W) where
  end_result-name :
      (timeout : ℤ) (e : ContextError) (cause : Cause) (ts : Time)
      → (end_result env check timeout e cause ts).name ≡ check.condition_type
  unfolding timeout_result reconcile_timeout_result reconcile_canceled_result internal_error_result
  end_result-name timeout ContextError.deadline_exceeded Cause.per_check_timeout ts = refl
  end_result-name timeout ContextError.deadline_exceeded Cause.inherited ts = refl
  end_result-name timeout ContextError.canceled cause ts = refl
  end_result-name timeout (ContextError.other text) cause ts = refl

  classify_context_end-Names :
      (ended : ContextEnd) (timeout : ℤ) (w : W)
      → Names check.condition_type (classify_context_end env ended check timeout w).0
  unfolding classify_context_end
  classify_context_end-Names ended timeout w = end_result-name timeout _ _ _

  finish_race-Names :
      (timeout : ℤ) (res : Result) (race : Race) (w : W)
      → res.name ≡ check.condition_type
      → Names check.condition_type (finish_race env check timeout res race w).0
  finish_race-Names timeout res (Race.result_first none) w h = h
  finish_race-Names timeout res (Race.result_first (some ended)) w h =
      classify_context_end-Names ended timeout w
  finish_race-Names timeout res (Race.done_first ended) w h =
      classify_context_end-Names ended timeout w

  on_panic-Names : (v : String) (w : W) → Names check.condition_type (on_panic env check v w).0
  unfolding on_panic internal_error_result
  on_panic-Names v w = refl

  module _
      (own : (spec : CheckSpec) (w : W) → MayName check.condition_type (check.run spec w).0) where
    worker-Names :
        (spec : CheckSpec) (w : W) → Names check.condition_type (worker env check spec w).0
    unfolding worker internal_error_result
    worker-Names spec w =
        recover_with-Names check.condition_type (check.run spec w).0 _ _ (own spec w) (λ v t. refl)

    run_with_timeout-Names :
        (spec : CheckSpec) (timeout : ℤ) (w : W)
        → Names check.condition_type (run_with_timeout env check spec timeout w).0
    unfolding run_with_timeout
    run_with_timeout-Names spec timeout w =
        continue-Names check.condition_type (worker env check spec w).0 _ _ (worker-Names spec w)
          (λ r t h. finish_race-Names timeout r (env.race t).0 (env.race t).1 h)

    decide_run-Names :
        (spec : CheckSpec) (b : Buckets) (w : W)
        → Names check.condition_type (decide_run env check spec b w).0
    unfolding rbac_check_failed_result rbac_insufficient_result
    decide_run-Names spec (denied, (p ∷ ps)) w = refl
    decide_run-Names spec ((p ∷ ps), []) w = refl
    decide_run-Names spec ([], []) w = run_with_timeout-Names spec _ w

    -- Running a check never panics, whatever the check, the reviewer, the clock and the context do,
    -- and gives a result that has the condition type of the check as its name, if the check itself
    -- names its results so when it does not panic.
    pub run_check_safely-Names :
        (spec : CheckSpec) (s : RunState W)
        → Names check.condition_type (run_check_safely env check spec s).0
    unfolding run_check_safely
    run_check_safely-Names spec s =
        recover_with-Names check.condition_type _ _ _
          (continue-MayName check.condition_type
            (classify_permissions env check check.required_permissions s).0 _ _
            (λ b t. MayName-of_Names check.condition_type _ (decide_run-Names spec b t.1)))
          (λ v t. on_panic-Names v t.1)

  -- The result that stands in for a check which did not run: the message names the permissions.
  abbrev pub stand_in : String → String → List PermissionRequest → Time → Result
  stand_in reason intro perms ts = record {
    name = check.condition_type;
    status = ConditionStatus.unknown;
    reason = reason;
    severity = Severity.critical;
    message = intro & join ", " (sort_by (λ name. name) (map canonical_string perms));
    last_transition = ts;
  }

  -- The result without a run, by the lists of the denied and of the failed permissions.
  abbrev pub refusal : List PermissionRequest → List PermissionRequest → Time → Result
  refusal denied [] ts = stand_in "RBACInsufficient" "missing permissions: " denied ts
  refusal denied (p ∷ ps) ts =
      stand_in "RBACCheckFailed" "SelfSubjectAccessReview failed for: " (p ∷ ps) ts

  refused_lem :
      (spec : CheckSpec) (denied failed : List PermissionRequest) (s : RunState W)
      → denied ++ failed ≢ []
      → recover
          (on_world (decide_run env check spec (denied, failed)))
          (λ v. on_world (on_panic env check v))
          s
        ≡ (returned (refusal denied failed (env.now s.1).0), (s.0, (env.now s.1).1))
  unfolding rbac_insufficient_result rbac_check_failed_result join_permissions sanitize_message
  refused_lem spec denied (p ∷ ps) s ne = refl
  refused_lem spec (p ∷ ps) [] s ne = refl
  refused_lem spec [] [] s ne = absurd (ne refl)

  -- When the review of the permissions does not panic, and after it the cache has an answer for some
  -- required permission that is not a grant, the check does not run: reading the clock is all that
  -- happens after the review. If the review of some permission failed, the result is critical and
  -- unknown with the reason RBACCheckFailed, and its message names all the failed permissions,
  -- sorted. If none failed, the reason is RBACInsufficient and the message names the denied ones.
  pub run_check_safely_refused :
      (spec : CheckSpec) (s t : RunState W) (b : Buckets)
      → classify_permissions env check check.required_permissions s ≡ (returned b, t)
      → denied_in t.0 check.required_permissions ++ failed_in t.0 check.required_permissions ≢ []
      → run_check_safely env check spec s ≡ (
        returned (
            refusal
              (denied_in t.0 check.required_permissions)
              (failed_in t.0 check.required_permissions)
              (env.now t.1).0),
        (t.0, (env.now t.1).1),
      )
  unfolding run_check_safely
  run_check_safely_refused spec s t b e ne =
      let reviewed : Reviewed check.required_permissions s.0 (returned b, t) =
        subst (Reviewed check.required_permissions s.0) e
          (classify_permissions-Reviewed env check check.required_permissions s) in
      rw (e, reviewed.2) (refused_lem spec _ _ t ne)

  -- Running a check never panics, even if the check does not name its results as it should.
  pub run_check_safely-returns :
      (spec : CheckSpec) (s : RunState W) → IsReturned (run_check_safely env check spec s).0
  unfolding run_check_safely on_panic
  run_check_safely-returns spec s =
      recover-returns
        (classify_permissions env check check.required_permissions >>= λ buckets.
          on_world (decide_run env check spec buckets))
        (λ v. on_world (on_panic env check v)) (λ v t. tt) s
