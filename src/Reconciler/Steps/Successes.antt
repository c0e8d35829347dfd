-- ===== src/Reconciler/Steps/Successes.antt =====
-- The steps of a reconcile whose API calls succeed.
use k_deskflight.Base.{
  String, List, [], ◌∷◌, Option, none, some, Bool, true, false, ◌≡◌, refl, arith,
}
use k_deskflight.Base.Exec.{Outcome, returned, panicked, Exec, continue, pure, ◌>>=◌, IsReturned}
use k_deskflight.Base.Exec.Laws.{Achieves, Achieves-mono, bind-returns}
use k_deskflight.Base.Maps.{lookup, string_eq}
use k_deskflight.Domain.{Check, Result}
use k_deskflight.Domain.Specs.{CheckSpec}
use k_deskflight.Api.{Phase, PreflightCheck}
use k_deskflight.Aggregator.{AggregationOutput}
use k_deskflight.Runner.{RunState, run_check_safely}
use k_deskflight.Runner.Outcomes.{run_check_safely-returns}
use k_deskflight.Reconciler.{ApiError, Answer, Reconciler, Session}
use k_deskflight.Reconciler.Outputs.{is_terminal}
use k_deskflight.Reconciler.Steps.{
  is_already_reconciled, stored, update_cr, with_phase, mark_unless, mark_phase, with_output,
  write_status, run_found, run_all, run_checks, runner_env,
}

-- The API takes a status, and gives back the object as it was sent, its version apart.
abbrev pub Takes : PreflightCheck → Outcome Answer → Type 0
Takes cr (returned (Answer.object cr')) =
    (cr'.generation ≡ cr.generation) × (cr'.status ≡ cr.status)
Takes cr (returned (Answer.failure e)) = ⊥
Takes cr (panicked v) = ⊥

abbrev pub TakesStatus : {W : Type 0} → Reconciler W → Type 0
TakesStatus {W} r = (cr : PreflightCheck) (w : W) → Takes cr (r.update_status cr w).0

module _ {W : Type 0} (r : Reconciler W) (takes : TakesStatus r) where
  -- No error, and the resource has the generation and the status of this one.
  abbrev Written : PreflightCheck → Option ApiError → Session W → Type 0
  Written cr e s = (e ≡ none) × (s.cr.generation ≡ cr.generation) × (s.cr.status ≡ cr.status)

  stored-Written :
      (doing : String) (cr : PreflightCheck) (o : Outcome Answer) (s : Session W)
      → Takes cr o
      → Achieves (Written cr) (continue o (stored r doing) s)
  stored-Written doing cr (returned (Answer.object cr')) s (g, st) = (refl, g, st)
  stored-Written doing cr (returned (Answer.failure e)) s h = absurd h
  stored-Written doing cr (panicked v) s h = absurd h

  update_cr-Written :
      (doing : String) (cr : PreflightCheck) (s : Session W)
      → Achieves (Written cr) (update_cr r doing cr s)
  unfolding update_cr
  update_cr-Written doing cr s =
      stored-Written doing cr (r.update_status cr s.world).0 _ (takes cr s.world)

  -- No error.
  abbrev pub Succeeds : Option ApiError → Session W → Type 0
  Succeeds e s = e ≡ none

  mark_unless-Succeeds :
      (b : Bool) (phase : Phase) (s : Session W) → Achieves Succeeds (mark_unless r b phase s.cr s)
  mark_unless-Succeeds true phase s = refl
  mark_unless-Succeeds false phase s =
      Achieves-mono (Written (with_phase r phase s.cr)) Succeeds
        (update_cr r _ (with_phase r phase s.cr) s) (λ e t h. h.0)
        (update_cr-Written _ (with_phase r phase s.cr) s)

  pub mark_phase-Succeeds :
      (phase : Phase) (s : Session W) → Achieves Succeeds (mark_phase r phase s)
  unfolding mark_phase
  mark_phase-Succeeds phase s = mark_unless-Succeeds _ phase s

  -- No error, and the generation is done.
  abbrev pub Finishes : Option ApiError → Session W → Type 0
  Finishes e s = (e ≡ none) × (is_already_reconciled s.cr ≡ true)

  Finishes-of_Written :
      (out : AggregationOutput) (cr : PreflightCheck) (e : Option ApiError) (s : Session W)
      → is_terminal out.phase ≡ true
      → Written (with_output r out cr) e s
      → Finishes e s
  unfolding is_already_reconciled
  Finishes-of_Written out cr e s terminal (ok, generation, status) =
      (ok, rw (generation, status) (ground arith))

  pub write_status-Finishes :
      (out : AggregationOutput) (s : Session W)
      → is_terminal out.phase ≡ true
      → Achieves Finishes (write_status r out s)
  unfolding write_status
  write_status-Finishes out s terminal =
      Achieves-mono (Written (with_output r out s.cr)) Finishes
        (update_cr r _ (with_output r out s.cr) s)
        (λ e t. Finishes-of_Written out s.cr e t terminal)
        (update_cr-Written _ (with_output r out s.cr) s)

module _ {W : Type 0} (r : Reconciler W) where
  run_found-returns :
      (check : Check W) (found : Option CheckSpec) (rest : Exec (RunState W) (List Result))
      → ((s : RunState W) → IsReturned (rest s).0)
      → (s : RunState W) → IsReturned (run_found r check found rest s).0
  unfolding run_found
  run_found-returns check none rest h s = h s
  run_found-returns check (some spec) rest h s =
      bind-returns (run_check_safely (runner_env r) check spec)
        (λ res. rest >>= λ results. pure (res ∷ results))
        (run_check_safely-returns (runner_env r) check spec)
        (λ res. bind-returns rest (λ results. pure (res ∷ results)) h (λ results t. tt)) s

  run_all-returns :
      (checks : List (Check W)) (specs : List (String × CheckSpec)) (s : RunState W)
      → IsReturned (run_all r checks specs s).0
  unfolding run_all
  run_all-returns [] specs s = tt
  run_all-returns (check ∷ checks) specs s =
      run_found-returns check (lookup check.name specs) (run_all r checks specs)
        (run_all-returns checks specs) s

  -- The checks of a run always end with a list of results, whatever they do.
  pub run_checks-returns :
      (active : List (Check W)) (specs : List (String × CheckSpec)) (w : W)
      → IsReturned (run_checks r active specs w).0
  unfolding run_checks
  run_checks-returns active specs w = run_all-returns active specs ([], w)
