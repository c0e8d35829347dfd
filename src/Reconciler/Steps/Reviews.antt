-- ===== src/Reconciler/Steps/Reviews.antt =====
-- What the checks of a run do to the world between them.
use k_deskflight.Base.{
  String, List, [], ◌∷◌, Option, none, some, ◌≡◌, All, All-of_mem, AreDistinct, Memᴰ, All-mono,
}
use k_deskflight.Base.Exec.{Exec}
use k_deskflight.Base.Exec.Laws.{Preserves, bind-Preserves}
use k_deskflight.Base.Maps.{lookup, string_eq}
use k_deskflight.Domain.{Result, Check}
use k_deskflight.Domain.Permission.{PermissionRequest}
use k_deskflight.Domain.Specs.{CheckSpec}
use k_deskflight.Runner.{RunState, run_check_safely}
use k_deskflight.Runner.Invariants.{
  Leaves, IsQuiet, ReviewsKeep, RunsKeep, run_check_safely-keeps_world,
}
use k_deskflight.Runner.Reviews.{AsksOnce, IsSeen, run_check_safely-AsksOnce}
use k_deskflight.Reconciler.{Reconciler}
use k_deskflight.Reconciler.Steps.{run_found, run_all, run_checks, runner_env}

module _ {W : Type 0} (r : Reconciler W) (j : RunState W → Type 0) where
  -- A check that keeps the property when it is run.
  abbrev pub KeepsWhenRun : Check W → Type 0
  KeepsWhenRun c = (spec : CheckSpec) → Preserves j (run_check_safely (runner_env r) c spec)

  run_found-Preserves :
      (check : Check W) (found : Option CheckSpec) (rest : Exec (RunState W) (List Result))
      → KeepsWhenRun check
      → Preserves j rest
      → Preserves j (run_found r check found rest)
  unfolding run_found
  run_found-Preserves check none rest keeps h = h
  run_found-Preserves check (some spec) rest keeps h =
      bind-Preserves j (run_check_safely (runner_env r) check spec) _ (keeps spec)
        (λ res. bind-Preserves j rest _ h (λ results s k. k))

  -- A run keeps what each of its checks keeps.
  run_all-Preserves :
      (active : List (Check W)) (specs : List (String × CheckSpec))
      → All KeepsWhenRun active
      → Preserves j (run_all r active specs)
  unfolding run_all
  run_all-Preserves [] specs _ s h = h
  run_all-Preserves (check ∷ checks) specs (k, ks) s h =
      run_found-Preserves check (lookup check.name specs) (run_all r checks specs) k
        (run_all-Preserves checks specs ks) s h

module _ {W : Type 0} (r : Reconciler W) where
  -- Some of the checks requires the permission.
  abbrev pub IsRequired : List (Check W) → PermissionRequest → Type 0
  IsRequired active p = (c : Check W) × Memᴰ c active × Memᴰ p c.required_permissions

  -- The observation is what the reviewer was asked for: it is told every question, and answers it, and
  -- nothing else in the run changes the observation.
  pub record Observes (asked : W → List PermissionRequest) (active : List (Check W)) : Type 0 where
    pub leaves : Leaves (runner_env r) asked
    pub seen : IsSeen asked r.access_reviewer
    pub runs :
        (c : Check W)
        → Memᴰ c active
        → (spec : CheckSpec) (w : W) → asked (c.run spec w).1 ≡ asked w

  -- If the reviewer answers whatever it is asked for, then a run that starts with no question asked
  -- asks for each permission at most once, over all its checks, and only for permissions that one of
  -- its checks requires.
  pub run_checks-asks_once :
      (asked : W → List PermissionRequest) (active : List (Check W))
      (specs : List (String × CheckSpec)) (w : W)
      → Observes asked active
      → asked w ≡ []
      → AreDistinct (asked (run_checks r active specs w).1)
        × All (IsRequired active) (asked (run_checks r active specs w).1)
  unfolding run_checks
  run_checks-asks_once asked active specs w o start =
      let allowed = IsRequired active in
      let leaves = o.leaves in
      let (known, once) =
        run_all-Preserves r (AsksOnce (runner_env r) asked leaves allowed) active specs
          (All-of_mem _ active (λ c i spec.
            run_check_safely-AsksOnce (runner_env r) asked leaves allowed o.seen c spec (o.runs c i)
              (All-of_mem allowed c.required_permissions (λ p k. (c, i, k)))))
          ([], w) (rw start (tt, tt)) in
      (once, All-mono _ _ _ (λ p k. k.1) known)

  -- A run keeps what the checks, the reviewer, the clock, the race and the logger keep of the world.
  pub run_checks-Keeps :
      (i : W → Type 0) (active : List (Check W)) (specs : List (String × CheckSpec))
      → IsQuiet (runner_env r) i
      → ReviewsKeep (runner_env r) i r.access_reviewer
      → All (RunsKeep (runner_env r) i) active
      → Preserves i (run_checks r active specs)
  unfolding run_checks
  run_checks-Keeps i active specs quiet reviews runs w h =
      run_all-Preserves r (λ s. i s.1) active specs
        (All-mono _ _ active
          (λ c k spec. run_check_safely-keeps_world (runner_env r) i quiet c spec reviews k) runs)
        ([], w) h
