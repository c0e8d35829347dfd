-- ===== src/Reconciler/Steps/Validity.antt =====
-- The steps of a reconcile send only statuses that the schema of the resource allows.
pub mod Runs
use k_deskflight.Base.{
  String, List, [], ◌∷◌, Option, none, some, Bool, true, false, ◌≡◌, refl, sym, subst, All,
  AreDistinct, map, All-mono,
}
use k_deskflight.Base.Exec.{Outcome, returned, panicked, Exec, continue, pure, ◌>>=◌}
use k_deskflight.Base.Exec.Laws.{Preserves}
use k_deskflight.Base.Maps.{lookup, string_eq}
use k_deskflight.Domain.{Check, Result}
use k_deskflight.Domain.Specs.{CheckSpec}
use k_deskflight.Logging.{log_result}
use k_deskflight.Api.{Phase, Condition, PreflightCheck}
use k_deskflight.Api.Schema.{
  is_listed_phase, IsValidCondition, IsValidResult, AreValid, IsValidStatus,
}
use k_deskflight.Aggregator.{AggregationOutput}
use k_deskflight.Aggregator.Validity.{AreOrderly, AreValid-of_AreOrderly}
use k_deskflight.Merge.Validity.{IsValidWarning}
use k_deskflight.Registry.{Registry, all_checks}
use k_deskflight.Runner.{RunState, run_check_safely}
use k_deskflight.Runner.Invariants.{IsQuiet, ReviewsKeep, RunsKeep}
use k_deskflight.Runner.Validity.{MayGive, GivesValid, run_check_safely-IsValid}
use k_deskflight.Reconciler.{Answer, Request, Reconciler, Session}
use k_deskflight.Reconciler.Outputs.{is_terminal, sanitize_condition, sanitize_conditions}
use k_deskflight.Reconciler.Steps.{
  in_world, stored, update_cr, with_phase, mark_unless, mark_phase, with_output, write_status,
  runner_env, run_found, run_all, run_checks, log_results,
}
use k_deskflight.Reconciler.Steps.Reports.{kinds-sanitize}
use k_deskflight.Reconciler.Steps.Reviews.{run_checks-Keeps}

-- An object whose conditions are valid, if there is one.
abbrev pub AnswersValid : Outcome Answer → Type 0
AnswersValid (returned (Answer.object cr)) = AreValid cr.status.conditions
AnswersValid (returned (Answer.failure e)) = Unit
AnswersValid (panicked v) = Unit

-- A check that keeps the property of the world, and gives valid results.
abbrev pub IsFine : {W : Type 0} → Reconciler W → (W → Type 0) → Check W → Type 0
IsFine r i c = RunsKeep (runner_env r) i c × GivesValid c

-- The property of the world is kept by a write of a valid status, and by whatever writes none. The API
-- gives only objects with valid conditions, and the checks only valid results.
pub record ServesValid {W : Type 0} (r : Reconciler W) (i : W → Type 0) : Type 0 where
  pub quiet : IsQuiet (runner_env r) i
  pub gets : (req : Request) (w : W) → i w → i (r.get req w).1
  pub updates :
      (cr : PreflightCheck) (w : W) → IsValidStatus cr.status → i w → i (r.update_status cr w).1
  pub got : (req : Request) (w : W) → AnswersValid (r.get req w).0
  pub stores :
      (cr : PreflightCheck) (w : W)
      → IsValidStatus cr.status
      → AnswersValid (r.update_status cr w).0
  pub reviews : ReviewsKeep (runner_env r) i r.access_reviewer
  pub runs :
      (registry : Registry W) → r.registry ≡ some registry → All (IsFine r i) (all_checks registry)

sanitized-valid :
    (cs : List Condition)
    → All IsValidCondition cs
    → All IsValidCondition (map sanitize_condition cs)
sanitized-valid [] _ = tt
sanitized-valid (c ∷ cs) (v, vs) = (v, sanitized-valid cs vs)

sanitize-AreValid : (cs : List Condition) → AreValid cs → AreValid (sanitize_conditions cs)
unfolding sanitize_conditions
sanitize-AreValid cs (valid, distinct) =
    (all_valid cs valid, subst AreDistinct (sym (kinds-sanitize cs)) distinct)
  where
    all_valid :
        (cs : List Condition)
        → All IsValidCondition cs
        → All IsValidCondition (sanitize_conditions cs)
    all_valid [] _ = tt
    all_valid (c ∷ cs) h = sanitized-valid (c ∷ cs) h

listed-of_terminal : (p : Phase) → is_terminal p ≡ true → is_listed_phase p ≡ true
listed-of_terminal Phase.passed h = refl
listed-of_terminal Phase.warning h = refl
listed-of_terminal Phase.failed h = refl
listed-of_terminal Phase.unknown h = refl
listed-of_terminal Phase.pending h = refl
listed-of_terminal Phase.running h = refl
listed-of_terminal (Phase.other s) h = cc

module _ {W : Type 0} (r : Reconciler W) (i : W → Type 0) (serves : ServesValid r i) where
  -- What holds all the time: the property of the world, a resource with valid conditions, and a
  -- warning that makes a valid condition.
  abbrev pub Sound : Session W → Type 0
  Sound s = i s.world × AreValid s.cr.status.conditions × IsValidWarning s.interval_warning

  stored-Sound :
      (doing : String) (o : Outcome Answer) (s : Session W)
      → AnswersValid o
      → Sound s
      → Sound (continue o (stored r doing) s).1
  stored-Sound doing (returned (Answer.object cr)) s valid (world, _, warned) =
      (world, valid, warned)
  stored-Sound doing (returned (Answer.failure e)) s valid h = h
  stored-Sound doing (panicked v) s valid h = h

  update_cr-Sound :
      (doing : String) (cr : PreflightCheck) (s : Session W)
      → IsValidStatus cr.status
      → Sound s
      → Sound (update_cr r doing cr s).1
  unfolding update_cr
  update_cr-Sound doing cr s valid (world, _, warned) =
      stored-Sound doing (r.update_status cr s.world).0 _ (serves.stores cr s.world valid)
        (serves.updates cr s.world valid world, valid.1, warned)

  mark_unless-Sound :
      (b : Bool) (phase : Phase) (s : Session W)
      → is_listed_phase phase ≡ true
      → Sound s
      → Sound (mark_unless r b phase s.cr s).1
  mark_unless-Sound true phase s listed h = h
  mark_unless-Sound false phase s listed h =
      update_cr-Sound _ (with_phase r phase s.cr) s (listed, h.1) h

  pub mark_phase-Sound :
      (phase : Phase) → is_listed_phase phase ≡ true → Preserves Sound (mark_phase r phase)
  unfolding mark_phase
  mark_phase-Sound phase listed s h = mark_unless-Sound _ phase s listed h

  -- An output that makes a valid status.
  abbrev pub IsFit : AggregationOutput → Type 0
  IsFit out = (is_terminal out.phase ≡ true) × AreOrderly out.conditions

  pub write_status-Sound :
      (out : AggregationOutput) → IsFit out → Preserves Sound (write_status r out)
  unfolding write_status
  write_status-Sound out (terminal, orderly) s h =
      update_cr-Sound _ (with_output r out s.cr) s
        (
          listed-of_terminal out.phase terminal,
          sanitize-AreValid out.conditions (AreValid-of_AreOrderly out.conditions orderly),
        )
        h

  -- Unless it panics, the value has this property; the session stays sound in any case.
  abbrev pub Yields : {A : Type 0} → (A → Type 0) → Outcome A × Session W → Type 0
  Yields q (returned a, s) = q a × Sound s
  Yields q (panicked v, s) = Sound s

  pub continue-Sound :
      {A B : Type 0} (q : A → Type 0) (o : Outcome A × Session W) (f : A → Exec (Session W) B)
      → Yields q o
      → ((a : A) → q a → Preserves Sound (f a))
      → Sound (continue o.0 f o.1).1
  continue-Sound q (returned a, s) f (h, sound) k = k a h s sound
  continue-Sound q (panicked v, s) f sound k = sound

  -- Logging keeps the session sound.
  pub log_results-keeps :
      (req : Request) (results : List Result) (w : W) → i w → i (log_results r req results w)
  unfolding log_results log_result
  log_results-keeps req [] w h = h
  log_results-keeps req (res ∷ results) w h =
      log_results-keeps req results _ (serves.quiet.logs _ w h)
