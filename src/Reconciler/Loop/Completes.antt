-- ===== src/Reconciler/Loop/Completes.antt =====
-- A reconcile whose API calls succeed brings the generation to its end.
use k_deskflight.Base.{
  String, List, [], ◌∷◌, Option, none, some, Bool, true, false, ◌≡◌, refl, ap, length,
}
use k_deskflight.Base.Exec.{
  Outcome, returned, panicked, Exec, continue, recover_with, pure, ◌>>=◌, IsReturned,
}
use k_deskflight.Base.Exec.Laws.{Achieves, continue-Achieves}
use k_deskflight.Base.Integers.{ℤ}
use k_deskflight.Domain.{Check, Result}
use k_deskflight.Domain.Specs.{CheckSpec}
use k_deskflight.Api.{Phase, PreflightCheck}
use k_deskflight.Aggregator.{AggregationOutput, aggregate}
use k_deskflight.Interval.{normalize_interval}
use k_deskflight.Merge.{merge_interval_warning}
use k_deskflight.Registry.{Registry, CheckSelectionIssue, list_by_profile}
use k_deskflight.Specs.{Built}
use k_deskflight.Reconciler.{ApiError, Answer, Request, after_interval, Reconciler, Session, Reply}
use k_deskflight.Reconciler.Outputs.{is_terminal, spec_invalid_output, selection_issue_output}
use k_deskflight.Reconciler.Steps.{
  is_already_reconciled, in_world, mark_phase, write_status, run_checks,
}
use k_deskflight.Reconciler.Steps.Successes.{
  TakesStatus, Succeeds, mark_phase-Succeeds, Finishes, write_status-Finishes, run_checks-returns,
}
use k_deskflight.Reconciler.Loop.{
  finish, log_run, finish_run, execute, after_mark, select_then, build_then, prepare,
  unless_reconciled, after_load, after_get, reconcile_body, reconcile,
}
use k_deskflight.Reconciler.Loop.Replies.{aggregate-is_terminal, merge-is_terminal}

-- The reply is to come back after the interval, without an error, and the generation is done.
abbrev pub Completes : {W : Type 0} → ℤ → Reply → Session W → Type 0
Completes interval reply s =
    (reply ≡ (after_interval interval, none)) × (is_already_reconciled s.cr ≡ true)

module _ {W : Type 0} (r : Reconciler W) (takes : TakesStatus r) (interval : ℤ) where
  write_then :
      (out : AggregationOutput) (s : Session W)
      → is_terminal out.phase ≡ true
      → Achieves
          (Completes interval)
          ((write_status r out >>= λ e. pure (after_interval interval, e)) s)
  write_then out s terminal =
      continue-Achieves (Finishes r takes) (Completes interval) (write_status r out s) _
        (write_status-Finishes r takes out s terminal)
        (λ e t (ok, done). (ap (λ x. (after_interval interval, x)) ok, done))

  finish-Completes :
      (out : AggregationOutput) (s : Session W)
      → is_terminal out.phase ≡ true
      → Achieves (Completes interval) (finish r interval out s)
  unfolding finish
  finish-Completes out s terminal =
      write_then (merge_interval_warning out s.interval_warning s.now) s
        (merge-is_terminal out s.interval_warning s.now terminal)

  finish_run-Completes :
      (req : Request) (results : List Result) (s : Session W)
      → Achieves (Completes interval) (finish_run r req interval results s)
  unfolding finish_run log_run
  finish_run-Completes req results s =
      let out = merge_interval_warning (aggregate results s.now) s.interval_warning s.now in
      let terminal =
        merge-is_terminal (aggregate results s.now) s.interval_warning s.now
          (aggregate-is_terminal results s.now) in
      continue-Achieves (λ (_ : Unit {0}) (_ : Session W). Unit {0}) (Completes interval)
        (log_run r req results out s)
        (λ _. write_status r out >>= λ e. pure (after_interval interval, e)) tt
        (λ _ t _. write_then out t terminal)

  after_run :
      (req : Request) (o : Outcome (List Result) × Session W)
      → IsReturned o.0
      → Achieves (Completes interval) (continue o.0 (finish_run r req interval) o.1)
  after_run req (returned results, s) h = finish_run-Completes req results s
  after_run req (panicked v, s) h = absurd h

  execute-Completes :
      (req : Request) (active : List (Check W)) (specs : List (String × CheckSpec)) (s : Session W)
      → Achieves (Completes interval) (execute r req interval active specs s)
  unfolding execute
  execute-Completes req active specs s =
      after_run req (in_world (run_checks r active specs) s)
        (run_checks-returns r active specs s.world)

  after_mark-Completes :
      (next : Exec (Session W) Reply) (e : Option ApiError) (s : Session W)
      → ((t : Session W) → Achieves (Completes interval) (next t))
      → e ≡ none
      → Achieves (Completes interval) (after_mark r next e s)
  after_mark-Completes next none s h _ = h s
  after_mark-Completes next (some e) s h failed = cc

  mark_then-Completes :
      (phase : Phase) (next : Exec (Session W) Reply) (s : Session W)
      → ((t : Session W) → Achieves (Completes interval) (next t))
      → Achieves (Completes interval) ((mark_phase r phase >>= after_mark r next) s)
  mark_then-Completes phase next s h =
      continue-Achieves (Succeeds r takes) (Completes interval) (mark_phase r phase s)
        (after_mark r next) (mark_phase-Succeeds r takes phase s)
        (λ e t. after_mark-Completes next e t h)

  select_then-Completes :
      (req : Request) (specs : List (String × CheckSpec))
      (selected : List (Check W) × List CheckSelectionIssue) (s : Session W)
      → Achieves (Completes interval) (select_then r req interval specs selected s)
  unfolding select_then selection_issue_output
  select_then-Completes req specs (active, (issue ∷ issues)) s =
      finish-Completes (selection_issue_output issue issues (length specs) s.now) s refl
  select_then-Completes req specs (active, []) s =
      mark_then-Completes Phase.running (execute r req interval active specs) s
        (execute-Completes req active specs)

  module _ (registry : Registry W) (wired : r.registry ≡ some registry) where
    build_then-Completes :
        (req : Request) (profile : String) (built : Built) (s : Session W)
        → Achieves (Completes interval) (build_then r req interval profile built s)
    unfolding build_then spec_invalid_output
    build_then-Completes req profile (specs, (e ∷ errs)) s =
        finish-Completes (spec_invalid_output (e ∷ errs) s.now) s refl
    build_then-Completes req profile (specs, []) s =
        rw wired (select_then-Completes req specs (list_by_profile registry profile specs) s)

    unless_reconciled-Completes :
        (b : Bool) (req : Request) (s : Session W)
        → is_already_reconciled s.cr ≡ b
        → Achieves (Completes interval) (unless_reconciled r b req interval s)
    unfolding unless_reconciled prepare
    unless_reconciled-Completes true req s done = (refl, done)
    unless_reconciled-Completes false req s not_done =
        mark_then-Completes Phase.pending (prepare r req interval) s
          (λ t. build_then-Completes req _ _ t)

module _ {W : Type 0} (r : Reconciler W) where
  recovered :
      (interval : ℤ) (o : Outcome Reply × Session W) (h : String → Exec (Session W) Reply)
      → Achieves (Completes interval) o
      → Achieves (Completes interval) (recover_with o.0 h o.1)
  recovered interval (returned reply, s) h k = k
  recovered interval (panicked v, s) h k = absurd k

  -- If the API has the resource and takes every status, and there is a registry, then one reconcile
  -- brings the generation to its end, whatever the checks, the reviewer, the clock and the deadlines
  -- do: it neither panics nor fails, its reply is to come back after the interval of the resource, and
  -- the resource has a terminal phase for its generation.
  pub reconcile-Completes :
      TakesStatus r
      → (registry : Registry W) → r.registry ≡ some registry
      → (req : Request) (cr : PreflightCheck) (w w' : W)
      → r.get req w ≡ (returned (Answer.object cr), w')
      → Achieves
          (Completes (normalize_interval r.fmt r.parse_duration cr.spec.interval).0)
          (reconcile r req w)
  unfolding reconcile reconcile_body after_get after_load
  reconcile-Completes takes registry wired req cr w w' got =
      let interval = (normalize_interval r.fmt r.parse_duration cr.spec.interval).0 in
      rw got (
        recovered interval (unless_reconciled r (is_already_reconciled cr) req interval _) _ (
          unless_reconciled-Completes r takes interval registry wired (is_already_reconciled cr) req
            _ refl))
