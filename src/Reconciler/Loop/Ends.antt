-- ===== src/Reconciler/Loop/Ends.antt =====
-- How a reconcile ends: its reply, and what it leaves in the resource that it works on.
use k_deskflight.Base.{
  String, List, [], ◌∷◌, Option, none, some, Bool, true, false, ◌≡◌, inl, inr, refl, arith, length,
}
use k_deskflight.Base.Exec.{continue, Outcome, returned, panicked, Exec, pure, ◌>>=◌}
use k_deskflight.Base.Exec.Laws.{
  Ensures, Achieves, continue-Ensures, chain-Ensures, recover-Achieves,
}
use k_deskflight.Base.Integers.{ℤ}
use k_deskflight.Domain.{Result, Check}
use k_deskflight.Domain.Specs.{CheckSpec}
use k_deskflight.Api.{Phase}
use k_deskflight.Aggregator.{AggregationOutput, aggregate}
use k_deskflight.Interval.Bounds.{IsAllowed, normalize_interval_bounds}
use k_deskflight.Merge.{merge_interval_warning}
use k_deskflight.Registry.{CheckSelectionIssue}
use k_deskflight.Specs.{Built}
use k_deskflight.Reconciler.{
  ErrorKind, ApiError, Answer, Request, after_interval, Reconciler, Session, start, Reply,
}
use k_deskflight.Reconciler.Outputs.{is_terminal, spec_invalid_output, selection_issue_output}
use k_deskflight.Reconciler.Steps.{
  is_already_reconciled, in_world, load, mark_phase, write_status, run_checks,
}
use k_deskflight.Reconciler.Steps.Laws.{KeepsStatus, Marked, mark_phase-Marked, write_status-IsDone}
use k_deskflight.Reconciler.Loop.{
  finish, log_run, finish_run, execute, mark_error, after_mark, select_then, list_in, build_then,
  prepare, unless_reconciled, after_load, get_error, after_get, reconcile_body, reconcile,
}
use k_deskflight.Reconciler.Loop.Replies.{
  IsGone, Ends, Ends-of_done, aggregate-is_terminal, merge-is_terminal,
}
use k_deskflight.Reconciler.Loop.Panics.{handle-Achieves}

module _ {W : Type 0} (r : Reconciler W) (keeps : KeepsStatus r) (gone : Type 0) where
  finish-Ends :
      (interval : ℤ) (out : AggregationOutput) (s : Session W)
      → IsAllowed interval
      → is_terminal out.phase ≡ true
      → Ensures (Ends gone) (finish r interval out s)
  unfolding finish
  finish-Ends interval out s allowed terminal =
      let merged = merge_interval_warning out s.interval_warning s.now in
      continue-Ensures (λ (e : Option ApiError) (t : Session W). is_already_reconciled t.cr ≡ true)
        (Ends gone) (write_status r merged s) _
        (write_status-IsDone r keeps merged s
          (merge-is_terminal out s.interval_warning s.now terminal))
        (λ e t done. Ends-of_done gone interval e t allowed done)

  finish_run-Ends :
      (req : Request) (interval : ℤ) (results : List Result) (s : Session W)
      → IsAllowed interval
      → Ensures (Ends gone) (finish_run r req interval results s)
  unfolding finish_run
  finish_run-Ends req interval results s allowed =
      let out = merge_interval_warning (aggregate results s.now) s.interval_warning s.now in
      let terminal =
        merge-is_terminal (aggregate results s.now) s.interval_warning s.now
          (aggregate-is_terminal results s.now) in
      chain-Ensures (Ends gone) (log_run r req results out s)
        (λ _. write_status r out >>= λ e. pure (after_interval interval, e))
        (λ _ t.
          continue-Ensures
            (λ (e : Option ApiError) (u : Session W). is_already_reconciled u.cr ≡ true) (Ends gone)
            (write_status r out t) _ (write_status-IsDone r keeps out t terminal)
            (λ e u done. Ends-of_done gone interval e u allowed done))

  execute-Ends :
      (req : Request) (interval : ℤ) (active : List (Check W)) (specs : List (String × CheckSpec))
      (s : Session W)
      → IsAllowed interval
      → Ensures (Ends gone) (execute r req interval active specs s)
  unfolding execute
  execute-Ends req interval active specs s allowed =
      chain-Ensures (Ends gone) (in_world (run_checks r active specs) s) (finish_run r req interval)
        (λ results t. finish_run-Ends req interval results t allowed)

  mark_error-Ends :
      (k : ErrorKind) (e : ApiError) (s : Session W)
      → is_already_reconciled s.cr ≡ false
      → Ends gone (mark_error r k e) s
  mark_error-Ends ErrorKind.conflict e s h = inr (inl (refl, h))
  mark_error-Ends ErrorKind.not_found e s h = inl refl
  mark_error-Ends ErrorKind.unclassified e s h = inl refl

  unfinished :
      (phase : Phase) (s : Session W)
      → is_terminal phase ≡ false
      → s.cr.status.phase ≡ phase
      → is_already_reconciled s.cr ≡ false
  unfolding is_already_reconciled
  unfinished phase s unset same = rw same (rw unset (ground arith))

  after_mark-Ends :
      (phase : Phase) (next : Exec (Session W) Reply) (e : Option ApiError) (s : Session W)
      → is_terminal phase ≡ false
      → ((t : Session W) → Ensures (Ends gone) (next t))
      → Marked r keeps phase e s
      → Ensures (Ends gone) (after_mark r next e s)
  after_mark-Ends phase next none s unset h _ = h s
  after_mark-Ends phase next (some e) s unset h marked =
      mark_error-Ends e.kind e s (unfinished phase s unset marked)

  mark_then-Ends :
      (phase : Phase) (next : Exec (Session W) Reply) (s : Session W)
      → is_terminal phase ≡ false
      → ((t : Session W) → Ensures (Ends gone) (next t))
      → Ensures (Ends gone) ((mark_phase r phase >>= after_mark r next) s)
  mark_then-Ends phase next s unset h =
      continue-Ensures (Marked r keeps phase) (Ends gone) (mark_phase r phase s) (after_mark r next)
        (mark_phase-Marked r keeps phase s) (λ e t. after_mark-Ends phase next e t unset h)

  select_then-Ends :
      (req : Request) (interval : ℤ) (specs : List (String × CheckSpec))
      (selected : List (Check W) × List CheckSelectionIssue) (s : Session W)
      → IsAllowed interval
      → Ensures (Ends gone) (select_then r req interval specs selected s)
  unfolding select_then selection_issue_output
  select_then-Ends req interval specs (active, (issue ∷ issues)) s allowed =
      finish-Ends interval (selection_issue_output issue issues (length specs) s.now) s allowed refl
  select_then-Ends req interval specs (active, []) s allowed =
      mark_then-Ends Phase.running (execute r req interval active specs) s refl
        (λ t. execute-Ends req interval active specs t allowed)

  build_then-Ends :
      (req : Request) (interval : ℤ) (profile : String) (built : Built) (s : Session W)
      → IsAllowed interval
      → Ensures (Ends gone) (build_then r req interval profile built s)
  unfolding build_then spec_invalid_output
  build_then-Ends req interval profile (specs, (e ∷ errs)) s allowed =
      finish-Ends interval (spec_invalid_output (e ∷ errs) s.now) s allowed refl
  build_then-Ends req interval profile (specs, []) s allowed =
      chain-Ensures (Ends gone) (list_in r r.registry profile specs s)
        (select_then r req interval specs)
        (λ selected t. select_then-Ends req interval specs selected t allowed)

  prepare-Ends :
      (req : Request) (interval : ℤ) (s : Session W)
      → IsAllowed interval
      → Ensures (Ends gone) (prepare r req interval s)
  unfolding prepare
  prepare-Ends req interval s allowed = build_then-Ends req interval _ _ s allowed

  unless_reconciled-Ends :
      (b : Bool) (req : Request) (interval : ℤ) (s : Session W)
      → is_already_reconciled s.cr ≡ b
      → IsAllowed interval
      → Ensures (Ends gone) (unless_reconciled r b req interval s)
  unfolding unless_reconciled
  unless_reconciled-Ends true req interval s done allowed = inr (inr (refl, allowed, done))
  unless_reconciled-Ends false req interval s unset allowed =
      mark_then-Ends Phase.pending (prepare r req interval) s refl
        (λ t. prepare-Ends req interval t allowed)

  after_load-Ends : (req : Request) (s : Session W) → Ensures (Ends gone) (after_load r req s)
  unfolding after_load
  after_load-Ends req s =
      unless_reconciled-Ends (is_already_reconciled s.cr) req _ _ refl
        (normalize_interval_bounds r.fmt r.parse_duration s.cr.spec.interval)

  get_error-Ends :
      (k : ErrorKind) (e : ApiError) (s : Session W)
      → (k ≡ ErrorKind.not_found → gone)
      → Ends gone (get_error r k e) s
  get_error-Ends ErrorKind.not_found e s h = inl (h refl, refl)
  get_error-Ends ErrorKind.conflict e s h = inl refl
  get_error-Ends ErrorKind.unclassified e s h = inl refl

module _ {W : Type 0} (r : Reconciler W) (keeps : KeepsStatus r) where
  get_then-Ends :
      (req : Request) (o : Outcome Answer) (s : Session W)
      → Ensures (Ends (IsGone o)) (continue o (after_get r req) s)
  unfolding after_get
  get_then-Ends req (returned (Answer.failure e)) s =
      get_error-Ends r keeps (e.kind ≡ ErrorKind.not_found) e.kind e s (λ h. h)
  get_then-Ends req (returned (Answer.object cr)) s = after_load-Ends r keeps ⊥ req (load cr s)
  get_then-Ends req (panicked v) s = tt

  -- A reconcile never panics, whatever the cluster, the clock and the checks do. Its reply has an
  -- error, or says that there is nothing to come back for, and then the API answered that the
  -- resource is gone, or that the reconcile is to be repeated at once, and then the generation is not
  -- done, or that it is to come back after an interval between 30 seconds and 24 hours, and then the
  -- generation is done. This holds if the API answers a write of the status that it takes with the
  -- object as it was sent, its version apart.
  pub reconcile-Ends :
      (req : Request) (w : W) → Achieves (Ends (IsGone (r.get req w).0)) (reconcile r req w)
  unfolding reconcile reconcile_body
  reconcile-Ends req w =
      recover-Achieves (Ends (IsGone (r.get req w).0)) (reconcile_body r req (start w)) _
        (get_then-Ends req (r.get req w).0 _) (handle-Achieves r (IsGone (r.get req w).0) req)
