-- ===== src/Reconciler/Loop.antt =====
-- internal/hexagon/application/reconciler.go: `Reconcile`, and what it does after a panic.
pub mod Replies
pub mod Panics
pub mod Ends
pub mod Skips
pub mod Completes
pub mod Traces
pub mod Writes
pub mod Settles
pub mod Reports
pub mod Validity
use k_deskflight.Base.{
  ℕ, String, List, [], ◌∷◌, Option, none, some, Bool, true, false, nat_eq, length, if◌then◌else◌,
  ◌&◌,
}
use k_deskflight.Base.Exec.{
  Outcome, returned, panicked, Exec, pure, panic, recover, effect, modify, current, continue, ◌>>=◌,
}
use k_deskflight.Base.Integers.{ℤ, pos}
use k_deskflight.Domain.{Time, Result, Check}
use k_deskflight.Domain.Specs.{CheckSpec}
use k_deskflight.Api.{Phase, PreflightCheck}
use k_deskflight.Logging.{Level, log_entry, sanitize_attrs}
use k_deskflight.Aggregator.{AggregationOutput, aggregate}
use k_deskflight.Interval.{ConditionWarning, normalize_interval}
use k_deskflight.Merge.{merge_interval_warning}
use k_deskflight.Registry.{Registry, CheckSelectionIssue, list_by_profile}
use k_deskflight.Specs.{
  SpecError, Built, build_spec_map, defaults_for_profile, profile_with_default,
}
use k_deskflight.Reconciler.{
  ErrorKind, ApiError, Answer, wrap, Request, CtrlResult, no_result, after_interval, requeue_now,
  Reconciler, Session, start, Reply,
}
use k_deskflight.Reconciler.Outputs.{
  reconcile_panic_output, spec_invalid_output, selection_issue_output,
}
use k_deskflight.Reconciler.Steps.{
  is_already_reconciled, set_cr, load, set_warning, set_now, in_world, now_of, log, mark_phase,
  write_status, run_checks, log_results, reconciled_entry,
}

module _ {W : Type 0} (r : Reconciler W) where
  -- the status of every output, with the warning about the interval, and the reply that follows it
  finish : ℤ → AggregationOutput → Exec (Session W) Reply
  unfolding merge_interval_warning write_status
  finish interval out s =
      (write_status r (merge_interval_warning out s.interval_warning s.now) >>= λ e.
      pure (after_interval interval, e))
        s

  -- the two log calls before the final status
  log_run : Request → List Result → AggregationOutput → Exec (Session W) (Unit {0})
  unfolding log_results
  log_run req results out s =
      (in_world (modify (log_results r req results)) >>= λ _.
      log r (reconciled_entry r req s.cr out))
        s

  finish_run : Request → ℤ → List Result → Exec (Session W) Reply
  unfolding aggregate log_run merge_interval_warning write_status
  finish_run req interval results s =
      let out = merge_interval_warning (aggregate results s.now) s.interval_warning s.now in
      (log_run req results out >>= λ _.
      write_status r out >>= λ e. pure (after_interval interval, e))
        s

  execute : Request → ℤ → List (Check W) → List (String × CheckSpec) → Exec (Session W) Reply
  unfolding run_checks finish_run
  execute req interval active specs =
      in_world (run_checks r active specs) >>= finish_run req interval

  -- what follows a `markPhase`
  abbrev mark_error : ErrorKind → ApiError → Reply
  mark_error ErrorKind.conflict e = (requeue_now, none)
  mark_error _ e = (no_result, some e)

  abbrev after_mark : Exec (Session W) Reply → Option ApiError → Exec (Session W) Reply
  after_mark next none = next
  after_mark next (some e) = pure (mark_error e.kind e)

  -- what follows the selection of the checks
  select_then :
      Request
      → ℤ
      → List (String × CheckSpec)
      → List (Check W) × List CheckSelectionIssue
      → Exec (Session W) Reply
  unfolding finish selection_issue_output execute mark_phase
  select_then req interval specs (active, (issue ∷ issues)) s =
      finish interval (selection_issue_output issue issues (length specs) s.now) s
  select_then req interval specs (active, []) s =
      (mark_phase r Phase.running >>= after_mark (execute req interval active specs)) s

  -- a nil registry panics
  abbrev list_in :
      Option (Registry W)
      → String
      → List (String × CheckSpec)
      → Exec (Session W) (List (Check W) × List CheckSelectionIssue)
  list_in none profile specs = panic "invalid memory address or nil pointer dereference"
  list_in (some registry) profile specs = pure (list_by_profile registry profile specs)

  -- what follows `buildSpecMap`
  build_then : Request → ℤ → String → Built → Exec (Session W) Reply
  unfolding finish spec_invalid_output select_then list_by_profile
  build_then req interval profile (specs, (e ∷ errs)) s =
      finish interval (spec_invalid_output (e ∷ errs) s.now) s
  build_then req interval profile (specs, []) s =
      (list_in r.registry profile specs >>= select_then req interval specs) s

  prepare : Request → ℤ → Exec (Session W) Reply
  unfolding build_then build_spec_map defaults_for_profile profile_with_default
  prepare req interval s =
      let profile = profile_with_default s.cr.spec.profile in
      build_then req interval profile
        (build_spec_map r.fmt s.cr.spec.checks (defaults_for_profile profile)) s

  unless_reconciled : Bool → Request → ℤ → Exec (Session W) Reply
  unfolding mark_phase prepare
  unless_reconciled true req interval = pure (after_interval interval, none)
  unless_reconciled false req interval =
      mark_phase r Phase.pending >>= after_mark (prepare req interval)

  after_load : Request → Exec (Session W) Reply
  unfolding normalize_interval is_already_reconciled unless_reconciled
  after_load req s =
      let (interval, warning) = normalize_interval r.fmt r.parse_duration s.cr.spec.interval in
      (modify (set_warning warning) >>= λ _. in_world (effect (now_of r)) >>= λ ts.
      modify (set_now ts) >>= λ _. unless_reconciled (is_already_reconciled s.cr) req interval)
        s

  abbrev get_error : ErrorKind → ApiError → Reply
  get_error ErrorKind.not_found e = (no_result, none)
  get_error _ e = (no_result, some (wrap "get OpenDeskPreflightCheck" e))

  after_get : Request → Answer → Exec (Session W) Reply
  unfolding after_load
  after_get req (Answer.failure e) = pure (get_error e.kind e)
  after_get req (Answer.object cr) = modify (load cr) >>= λ _. after_load req

  -- `Reconcile` without its deferred function
  unfoldable pub reconcile_body : Request → Exec (Session W) Reply
  unfolding after_get
  reconcile_body req = in_world (r.get req) >>= after_get req

  -- the fresh time for a panic before there was one
  abbrev stamp : Time → Exec (Session W) Time
  stamp now = if nat_eq now 0 then in_world (effect (now_of r)) else pure now

  -- the write after a panic
  attempt_write : String → Exec (Session W) (Unit {0})
  unfolding merge_interval_warning reconcile_panic_output write_status
  attempt_write rec s =
      (stamp s.now >>= λ ts.
      write_status r (merge_interval_warning (reconcile_panic_output rec ts) s.interval_warning ts)
      >>= λ _. pure tt)
        s

  abbrev log_inner : Request → String → Exec (Session W) (Unit {0})
  log_inner req inner = log r (
      log_entry Level.error "panic in panic-recovery status write" (
        sanitize_attrs (
          ("name", req.name)
          ∷ ("namespace", req.namespace)
          ∷ ("inner_recover", inner)
          ∷ ("inner_stack", r.stack)
          ∷ [])))

  -- that write, with its own recovery
  write_panic : Request → String → Exec (Session W) (Unit {0})
  unfolding attempt_write sanitize_attrs
  write_panic req rec = recover (attempt_write rec) (log_inner req)

  abbrev write_if_loaded : Bool → Request → String → Exec (Session W) (Unit {0})
  write_if_loaded true req rec = write_panic req rec
  write_if_loaded false req rec = pure tt

  unfoldable pub handle_reconcile_panic : Request → String → Exec (Session W) ApiError
  unfolding write_panic sanitize_attrs
  handle_reconcile_panic req rec s =
      (log r (
            log_entry Level.error "panic recovered in Reconcile" (
              sanitize_attrs (
                ("name", req.name)
                ∷ ("namespace", req.namespace)
                ∷ ("recover", rec)
                ∷ ("stack", r.stack)
                ∷ [])))
          >>= λ _. write_if_loaded s.cr_loaded req rec >>= λ _.
              pure (record { kind = ErrorKind.unclassified; text = "reconcile panic: " & rec }))
        s

  unfoldable pub reconcile : Request → W → Outcome Reply × Session W
  unfolding reconcile_body handle_reconcile_panic
  reconcile req w =
      recover (reconcile_body req)
        (λ rec. handle_reconcile_panic req rec >>= λ e. pure (no_result, some e)) (start w)
