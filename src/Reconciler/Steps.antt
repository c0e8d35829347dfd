-- ===== src/Reconciler/Steps.antt =====
-- internal/hexagon/application/reconciler.go: the methods of the reconciler, down to `Reconcile`.
pub mod Laws
pub mod Successes
pub mod Results
pub mod Moves
pub mod Reviews
pub mod Histories
pub mod Reports
pub mod Validity
pub mod Wiring
use k_deskflight.Base.{
  ℕ, String, List, [], ◌∷◌, Option, none, some, Bool, true, false, not, ◌==◌, nat_eq, length,
  if◌then◌else◌, ◌&◌, leb,
}
use k_deskflight.Base.Exec.{
  Outcome, returned, panicked, Exec, Fallible, ok, err, pure, panic, recover, effect, modify,
  current, continue, ◌>>=◌,
}
use k_deskflight.Base.Integers.{ℤ, pos}
use k_deskflight.Base.Format.{Fmt, show_64, show_32}
use k_deskflight.Base.Maps.{lookup, string_eq}
use k_deskflight.Domain.{Time, Result, Check}
use k_deskflight.Domain.Permission.{PermissionRequest}
use k_deskflight.Domain.Specs.{CheckSpec}
use k_deskflight.Api.{Phase, Condition, PreflightCheck, PreflightStatus}
use k_deskflight.Logging.{
  Level, Logger, LogEntry, Attr, log_entry, log_with, log_result, sanitize_attrs,
}
use k_deskflight.Aggregator.{AggregationOutput, aggregate}
use k_deskflight.Interval.{ConditionWarning, normalize_interval}
use k_deskflight.Merge.{merge_interval_warning}
use k_deskflight.Registry.{Registry, CheckSelectionIssue, list_by_profile, all_checks}
use k_deskflight.Runner.{RunnerEnv, RunState, Race, run_check_safely}
use k_deskflight.Specs.{SpecError, build_spec_map, defaults_for_profile, profile_with_default}
use k_deskflight.Reconciler.{
  ErrorKind, ApiError, Answer, wrap, Request, CtrlResult, no_result, after_interval, requeue_now,
  Reconciler, Session, start, Reply,
}
use k_deskflight.Reconciler.Outputs.{
  phase_text, is_terminal, sanitize_conditions, reconcile_panic_output, spec_invalid_output,
  selection_issue_output,
}

-- `Validate`, with the text of its error
abbrev needs_reviewer : {W : Type 0} → Check W → Bool
needs_reviewer c = not (leb (length c.required_permissions) 0)

first_unreviewed : {W : Type 0} → Fmt → List (Check W) → Option String
first_unreviewed fmt [] = none
first_unreviewed fmt (c ∷ cs) =
    let later = first_unreviewed fmt cs in
    if needs_reviewer c
    then some (
        "check "
        & fmt.quote c.name
        & " declares RequiredPermissions but AccessReviewer is nil — wiring incomplete")
    else later

validate_wiring :
    {W : Type 0}
    → Fmt
    → Option (Registry W)
    → Option (PermissionRequest → Exec W (Bool × Option String))
    → Option String
unfolding first_unreviewed all_checks
validate_wiring fmt none reviewer = some "registry is nil"
validate_wiring fmt (some registry) (some reviewer) = none
validate_wiring fmt (some registry) none = first_unreviewed fmt (all_checks registry)

unfoldable pub validate_reconciler : {W : Type 0} → Reconciler W → Option String
unfolding validate_wiring
validate_reconciler r = validate_wiring r.fmt r.registry r.access_reviewer

unfoldable pub is_already_reconciled : PreflightCheck → Bool
is_already_reconciled cr =
    if nat_eq cr.status.observed_generation cr.generation
    then is_terminal cr.status.phase
    else false

abbrev or_fallback : {A : Type 0} → Option A → A → A
or_fallback none a = a
or_fallback (some b) a = b

module _ {W : Type 0} where
  abbrev pub set_cr : PreflightCheck → Session W → Session W
  set_cr cr s = record s { cr = cr }

  abbrev pub load : PreflightCheck → Session W → Session W
  load cr s = record s { cr = cr; cr_loaded = true }

  abbrev pub set_warning : Option ConditionWarning → Session W → Session W
  set_warning w s = record s { interval_warning = w }

  abbrev pub set_now : Time → Session W → Session W
  set_now now s = record s { now = now }

  -- a step of the rest of the world
  abbrev pub in_world : {A : Type 0} → Exec W A → Exec (Session W) A
  in_world m s = let (o, w') = m s.world in (o, record s { world = w' })

module _ {W : Type 0} (r : Reconciler W) where
  -- r.now()
  abbrev pub now_of : W → Time × W
  now_of = or_fallback r.now r.wall_clock

  -- r.logger()
  abbrev pub logger_of : Logger W
  logger_of = or_fallback r.logger r.default_logger

  abbrev pub log : LogEntry → Exec (Session W) (Unit {0})
  log e = in_world (modify (logger_of e))

  abbrev pub runner_env : RunnerEnv W
  runner_env = record {
    logger = some logger_of;
    reviewer = r.access_reviewer;
    now = now_of;
    race = r.race;
    check_timeout = r.check_timeout;
    stack = r.stack;
    fmt = r.fmt;
  }

  abbrev stored : String → Answer → Exec (Session W) (Option ApiError)
  stored doing (Answer.object cr) s = (returned none, set_cr cr s)
  stored doing (Answer.failure e) s = (returned (some (wrap doing e)), s)

  -- r.Status().Update(ctx, cr), of the object as it is
  update_cr : String → PreflightCheck → Exec (Session W) (Option ApiError)
  update_cr doing cr =
      modify (set_cr cr) >>= λ _. in_world (r.update_status cr) >>= λ answer. stored doing answer

  abbrev with_phase : Phase → PreflightCheck → PreflightCheck
  with_phase phase cr = record cr { status = record cr.status { phase = phase } }

  abbrev mark_unless : Bool → Phase → PreflightCheck → Exec (Session W) (Option ApiError)
  mark_unless true phase cr = pure none
  mark_unless false phase cr =
      update_cr ("mark phase " & r.fmt.quote (phase_text phase)) (with_phase phase cr)

  unfoldable pub mark_phase : Phase → Exec (Session W) (Option ApiError)
  unfolding update_cr
  mark_phase phase s = mark_unless (phase_text s.cr.status.phase == phase_text phase) phase s.cr s

  abbrev pub with_output : AggregationOutput → PreflightCheck → PreflightCheck
  with_output out cr = record cr {
    status = record {
      phase = out.phase;
      observed_generation = cr.generation;
      summary = out.summary;
      conditions = sanitize_conditions out.conditions;
    };
  }

  unfoldable pub write_status : AggregationOutput → Exec (Session W) (Option ApiError)
  unfolding update_cr sanitize_conditions
  write_status out s = update_cr "update OpenDeskPreflightCheck status" (with_output out s.cr) s

  run_found :
      Check W → Option CheckSpec → Exec (RunState W) (List Result) → Exec (RunState W) (List Result)
  unfolding run_check_safely
  run_found check none rest = rest
  run_found check (some spec) rest =
      run_check_safely runner_env check spec >>= λ res. rest >>= λ results. pure (res ∷ results)

  run_all : List (Check W) → List (String × CheckSpec) → Exec (RunState W) (List Result)
  unfolding run_found lookup
  run_all [] specs = pure []
  run_all (check ∷ checks) specs = run_found check (lookup check.name specs) (run_all checks specs)

  -- The cache of permissions is new, and forgotten after the run.
  unfoldable pub run_checks : List (Check W) → List (String × CheckSpec) → Exec W (List Result)
  unfolding run_all
  run_checks active specs w = let (o, (cache, w')) = run_all active specs ([], w) in (o, w')

  abbrev pub request_attrs : Request → List Attr
  request_attrs req = ("name", req.name) ∷ ("namespace", req.namespace) ∷ []

  unfoldable pub log_results : Request → List Result → W → W
  unfolding log_result
  log_results req [] w = w
  log_results req (res ∷ results) w =
      log_results req results
        (log_result (some logger_of) Level.info "check result" res (request_attrs req) w)

  abbrev pub reconciled_entry : Request → PreflightCheck → AggregationOutput → LogEntry
  reconciled_entry req cr out = log_entry Level.info "reconciled" (
      sanitize_attrs (
        ("name", req.name)
        ∷ ("namespace", req.namespace)
        ∷ ("phase", phase_text out.phase)
        ∷ ("generation", show_64 cr.generation)
        ∷ ("checksTotal", show_32 out.summary.checks_total)
        ∷ ("passed", show_32 out.summary.passed)
        ∷ ("failed", show_32 out.summary.failed)
        ∷ ("warning", show_32 out.summary.warning)
        ∷ ("unknown", show_32 out.summary.unknown)
        ∷ []))
