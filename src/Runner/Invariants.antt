-- ===== src/Runner/Invariants.antt =====
-- What a checked run keeps of the world: a property that the check, the reviewer, the clock, the race
-- and the logger keep.
use k_deskflight.Base.{refl, Memᴰ, ◌≡◌, sym, subst, String, List, [], ◌∷◌, Option, none, some, Bool}
use k_deskflight.Base.Exec.{Outcome, returned, panicked, Exec, effect, ◌>>=◌}
use k_deskflight.Base.Exec.Laws.{Preserves, bind-Preserves, recover-Preserves}
use k_deskflight.Base.Integers.{ℤ}
use k_deskflight.Base.Maps.{lookup}
use k_deskflight.Domain.{Result, Check}
use k_deskflight.Domain.Permission.{PermissionRequest, permission_eq}
use k_deskflight.Domain.Specs.{CheckSpec}
use k_deskflight.Logging.{LogEntry, log_with}
use k_deskflight.Runner.{
  Race, RunnerEnv, PermOutcome, PermissionCache, Buckets, RunState, on_world, call_reviewer,
  remember, review_if_absent, review, classify_permissions, classify_context_end, worker,
  finish_race, run_with_timeout, decide_run, on_panic, run_check_safely, effective_timeout,
}

module _ {W : Type 0} (env : RunnerEnv W) (i : W → Type 0) where
  -- The clock, the race and the logger keep the property.
  pub record IsQuiet : Type 0 where
    pub clock : (w : W) → i w → i (env.now w).1
    pub races : (w : W) → i w → i (env.race w).1
    pub logs : (e : LogEntry) (w : W) → i w → i (log_with env.logger e w)

  -- So does the reviewer, if there is one.
  abbrev pub ReviewsKeep : Option (PermissionRequest → Exec W (Bool × Option String)) → Type 0
  ReviewsKeep none = Unit
  ReviewsKeep (some can_i) = (p : PermissionRequest) → Preserves i (can_i p)

  -- And the check.
  abbrev pub RunsKeep : Check W → Type 0
  RunsKeep c = (spec : CheckSpec) → Preserves i (c.run spec)

  module _ (q : IsQuiet) where
    ends-Keep :
        (check : Check W) (spec : CheckSpec) (timeout : ℤ) (res : Result) (race : Race)
        → Preserves i (finish_race env check timeout res race)
    unfolding classify_context_end
    ends-Keep check spec timeout res (Race.result_first none) w h = h
    ends-Keep check spec timeout res (Race.result_first (some ended)) w h = q.clock w h
    ends-Keep check spec timeout res (Race.done_first ended) w h = q.clock w h

    worker-Keeps :
        (check : Check W) (spec : CheckSpec) → RunsKeep check → Preserves i (worker env check spec)
    unfolding worker
    worker-Keeps check spec runs =
        recover-Preserves i (check.run spec) _ (runs spec) (λ v w h. q.clock w h)

    run_with_timeout-Keeps :
        (check : Check W) (spec : CheckSpec) (timeout : ℤ)
        → RunsKeep check
        → Preserves i (run_with_timeout env check spec timeout)
    unfolding run_with_timeout
    run_with_timeout-Keeps check spec timeout runs =
        bind-Preserves i (worker env check spec)
          (λ res. effect env.race >>= λ race. finish_race env check timeout res race)
          (worker-Keeps check spec runs)
          (λ res w h. ends-Keep check spec timeout res _ _ (q.races w h))

    decide_run-Keeps :
        (check : Check W) (spec : CheckSpec) (buckets : Buckets)
        → RunsKeep check
        → Preserves i (decide_run env check spec buckets)
    decide_run-Keeps check spec (denied, (p ∷ ps)) runs w h = q.clock w h
    decide_run-Keeps check spec ((p ∷ ps), []) runs w h = q.clock w h
    decide_run-Keeps check spec ([], []) runs w h =
        run_with_timeout-Keeps check spec (effective_timeout env) runs w h

    on_panic-Keeps : (check : Check W) (v : String) → Preserves i (on_panic env check v)
    unfolding on_panic
    on_panic-Keeps check v w h = q.clock _ (q.logs _ w h)

-- The clock, the race and the logger leave what is observed of the world.
pub record Leaves {W B : Type 0} (env : RunnerEnv W) (observe : W → B) : Type 0 where
  pub clock : (w : W) → observe (env.now w).1 ≡ observe w
  pub races : (w : W) → observe (env.race w).1 ≡ observe w
  pub logs : (e : LogEntry) (w : W) → observe (log_with env.logger e w) ≡ observe w

pub IsQuiet-of_Leaves :
    {W B : Type 0} (env : RunnerEnv W) (observe : W → B) (p : B → Type 0)
    → Leaves env observe
    → IsQuiet env (λ w. p (observe w))
IsQuiet-of_Leaves env observe p l = record {
  clock = λ w h. subst p (sym (l.clock w)) h;
  races = λ w h. subst p (sym (l.races w)) h;
  logs = λ e w h. subst p (sym (l.logs e w)) h;
}

-- A property of the cache and the world that every part of a run keeps.
module _ {W : Type 0} (env : RunnerEnv W) (i : PermissionCache → W → Type 0)
    (q : (c : PermissionCache) → IsQuiet env (i c)) where
  abbrev pub Holds : RunState W → Type 0
  Holds s = i s.0 s.1

  on_world-Keeps :
      {A : Type 0} (m : Exec W A)
      → ((c : PermissionCache) → Preserves (i c) m)
      → Preserves Holds (on_world m)
  on_world-Keeps m h (cache, w) k = h cache w k

  -- A checked run keeps what the classification of the permissions keeps.
  pub run_check_safely-Keeps :
      (check : Check W) (spec : CheckSpec)
      → ((c : PermissionCache) → RunsKeep env (i c) check)
      → Preserves Holds (classify_permissions env check check.required_permissions)
      → Preserves Holds (run_check_safely env check spec)
  unfolding run_check_safely
  run_check_safely-Keeps check spec runs classified =
      recover-Preserves Holds _ _
        (bind-Preserves Holds (classify_permissions env check check.required_permissions) _
          classified
          (λ buckets.
            on_world-Keeps (decide_run env check spec buckets)
              (λ c. decide_run-Keeps env (i c) (q c) check spec buckets (runs c))))
        (λ v. on_world-Keeps (on_panic env check v) (λ c. on_panic-Keeps env (i c) (q c) check v))

  -- The classification keeps what each review keeps.
  pub classify_permissions-Keeps :
      (check : Check W) (ps : List PermissionRequest)
      → ((p : PermissionRequest) → Memᴰ p ps → Preserves Holds (review env check p))
      → Preserves Holds (classify_permissions env check ps)
  unfolding classify_permissions
  classify_permissions-Keeps check [] reviews = λ s h. h
  classify_permissions-Keeps check (p ∷ ps) reviews =
      bind-Preserves Holds (review env check p) _ (reviews p (Memᴰ.head refl)) (λ outcome.
        bind-Preserves Holds (classify_permissions env check ps) _
          (classify_permissions-Keeps check ps (λ q m. reviews q (Memᴰ.tail m))) (λ buckets s h. h))

-- A property of the world that the reviewer keeps as well.
module _ {W : Type 0} (env : RunnerEnv W) (i : W → Type 0) (q : IsQuiet env i) where
  remember-Keeps :
      (check : Check W) (p : PermissionRequest) (o : Outcome (Bool × Option String))
      (s : RunState W)
      → i s.1
      → i (remember env check p o s).1.1
  unfolding remember
  remember-Keeps check p (panicked v) s h = h
  remember-Keeps check p (returned (allowed, none)) s h = h
  remember-Keeps check p (returned (allowed, some text)) s h = q.logs _ s.1 h

  call_reviewer-Keeps :
      (reviewer : Option (PermissionRequest → Exec W (Bool × Option String)))
      → ReviewsKeep env i reviewer
      → (p : PermissionRequest) → Preserves i (call_reviewer env reviewer p)
  call_reviewer-Keeps none k p w h = h
  call_reviewer-Keeps (some can_i) k p w h = k p w h

  review_if_absent-Keeps :
      (check : Check W) (p : PermissionRequest) (o : Option PermOutcome)
      → ReviewsKeep env i env.reviewer
      → Preserves (λ (s : RunState W). i s.1) (review_if_absent env check p o)
  unfolding review_if_absent
  review_if_absent-Keeps check p (some outcome) k s h = h
  review_if_absent-Keeps check p none k s h =
      remember-Keeps check p _ _ (call_reviewer-Keeps env.reviewer k p s.1 h)

  -- A checked run keeps the property.
  pub run_check_safely-keeps_world :
      (check : Check W) (spec : CheckSpec)
      → ReviewsKeep env i env.reviewer
      → RunsKeep env i check
      → Preserves (λ (s : RunState W). i s.1) (run_check_safely env check spec)
  unfolding review
  run_check_safely-keeps_world check spec reviews runs =
      run_check_safely-Keeps env (λ c. i) (λ c. q) check spec (λ c. runs)
        (classify_permissions-Keeps env (λ c. i) (λ c. q) check check.required_permissions
          (λ p m s h. review_if_absent-Keeps check p (lookup p s.0) reviews s h))
