-- ===== src/Reconciler/Steps/Validity/Runs.antt =====
-- The results of a run of valid checks are valid.
use k_deskflight.Base.{String, List, [], ◌∷◌, Option, none, some, All, All-mono}
use k_deskflight.Base.Exec.{Outcome, returned, panicked, Exec, continue, pure, ◌>>=◌}
use k_deskflight.Base.Maps.{lookup, string_eq}
use k_deskflight.Domain.{Check, Result}
use k_deskflight.Domain.Specs.{CheckSpec}
use k_deskflight.Api.Schema.{IsValidResult}
use k_deskflight.Runner.{RunState, run_check_safely}
use k_deskflight.Runner.Invariants.{RunsKeep}
use k_deskflight.Runner.Validity.{MayGive, GivesValid, run_check_safely-IsValid}
use k_deskflight.Reconciler.{Reconciler, Session}
use k_deskflight.Reconciler.Steps.{in_world, runner_env, run_found, run_all, run_checks}
use k_deskflight.Reconciler.Steps.Reviews.{run_checks-Keeps}
use k_deskflight.Reconciler.Steps.Validity.{IsFine, ServesValid, Sound, Yields}

module _ {W : Type 0} (r : Reconciler W) where
  abbrev AllValid : Outcome (List Result) → Type 0
  AllValid (returned results) = All IsValidResult results
  AllValid (panicked v) = Unit

  gather :
      (o : Outcome Result) (rest : Exec (RunState W) (List Result)) (s : RunState W)
      → MayGive IsValidResult o
      → ((t : RunState W) → AllValid (rest t).0)
      → AllValid (continue o (λ res. rest >>= λ results. pure (res ∷ results)) s).0
  gather (returned res) rest s h k = more (rest s) (k s)
    where
      more :
          (o : Outcome (List Result) × RunState W)
          → AllValid o.0
          → AllValid (continue o.0 (λ results. pure (res ∷ results)) o.1).0
      more (returned results, t) all = (h, all)
      more (panicked v, t) all = tt
  gather (panicked v) rest s h k = tt

  run_found-AllValid :
      (c : Check W) (found : Option CheckSpec) (rest : Exec (RunState W) (List Result))
      (s : RunState W)
      → GivesValid c
      → ((t : RunState W) → AllValid (rest t).0)
      → AllValid (run_found r c found rest s).0
  unfolding run_found
  run_found-AllValid c none rest s valid k = k s
  run_found-AllValid c (some spec) rest s valid k =
      gather (run_check_safely (runner_env r) c spec s).0 rest _
        (run_check_safely-IsValid (runner_env r) c valid spec s) k

  run_all-AllValid :
      (active : List (Check W)) (specs : List (String × CheckSpec)) (s : RunState W)
      → All GivesValid active
      → AllValid (run_all r active specs s).0
  unfolding run_all
  run_all-AllValid [] specs s _ = tt
  run_all-AllValid (c ∷ cs) specs s (v, vs) =
      run_found-AllValid c (lookup c.name specs) (run_all r cs specs) s v
        (λ t. run_all-AllValid cs specs t vs)

  run_checks-AllValid :
      (active : List (Check W)) (specs : List (String × CheckSpec)) (w : W)
      → All GivesValid active
      → AllValid (run_checks r active specs w).0
  unfolding run_checks
  run_checks-AllValid active specs w valid = run_all-AllValid active specs ([], w) valid

  -- A run keeps a session sound, and gives valid results.
  pub run_checks-Yields :
      (i : W → Type 0) (serves : ServesValid r i) (active : List (Check W))
      (specs : List (String × CheckSpec)) (s : Session W)
      → All (IsFine r i) active
      → Sound r i serves s
      → Yields r i serves (All IsValidResult) (in_world (run_checks r active specs) s)
  run_checks-Yields i serves active specs s fine (world, valid, warned) =
      pair (run_checks r active specs s.world)
        (run_checks-AllValid active specs s.world
          (All-mono (IsFine r i) GivesValid active (λ c k. k.1) fine))
        (run_checks-Keeps r i active specs serves.quiet serves.reviews
          (All-mono (IsFine r i) (RunsKeep (runner_env r) i) active (λ c k. k.0) fine) s.world
          world)
    where
      pair :
          (o : Outcome (List Result) × W)
          → AllValid o.0
          → i o.1
          → Yields r i serves (All IsValidResult) (o.0, record s { world = o.1 })
      pair (returned results, w) all h = (all, (h, valid, warned))
      pair (panicked v, w) all h = (h, valid, warned)
