-- ===== src/Reconciler/Loop/Validity.antt =====
-- The run of a reconcile sends only statuses that the schema of the resource allows.
pub mod Sent
use k_deskflight.Base.{
  String, List, [], ◌∷◌, Option, none, some, Bool, true, false, not, ◌&&◌, ◌==◌, ◌≡◌, inl, inr,
  refl, sym, subst, length, All, All-mem, All-of_mem, All-mono, Memᴰ, Bool-cases, Option-cases,
  nat_eq, map,
}
use k_deskflight.Base.Exec.{Outcome, returned, panicked, Exec, continue, recover_with, pure, ◌>>=◌}
use k_deskflight.Base.Exec.Laws.{Preserves, bind-Preserves, recover-Preserves}
use k_deskflight.Base.Integers.{ℤ}
use k_deskflight.Domain.{Severity, Check, Result, Time}
use k_deskflight.Domain.Specs.{CheckSpec}
use k_deskflight.Api.{Phase, PreflightStatus, PreflightCheck}
use k_deskflight.Api.Schema.{are_valid_fields, IsValidResult, IsValidStatus}
use k_deskflight.Aggregator.{AggregationOutput, aggregate}
use k_deskflight.Aggregator.Validity.{aggregate-AreOrderly}
use k_deskflight.Interval.Validity.{normalize_interval-IsValidWarning}
use k_deskflight.Merge.{merge_interval_warning}
use k_deskflight.Merge.Validity.{merge_interval_warning-AreOrderly}
use k_deskflight.Registry.{
  Registry, CheckSelectionIssue, unknown_check, list_by_profile, all_checks,
}
use k_deskflight.Registry.Members.{list_by_profile-registered}
use k_deskflight.Registry.Selection.{list_by_profile_issues_iff}
use k_deskflight.Specs.{Built}
use k_deskflight.Reconciler.{
  ApiError, Answer, Request, Reconciler, Session, start, Reply, no_result, after_interval,
}
use k_deskflight.Reconciler.Outputs.{
  spec_invalid_output, selection_issue_output, reconcile_panic_output,
}
use k_deskflight.Reconciler.Steps.{
  is_already_reconciled, in_world, mark_phase, write_status, run_checks,
}
use k_deskflight.Reconciler.Steps.Validity.Runs.{run_checks-Yields}
use k_deskflight.Reconciler.Steps.Validity.{
  ServesValid, AnswersValid, IsFine, Sound, IsFit, mark_phase-Sound, write_status-Sound, Yields,
  continue-Sound, log_results-keeps,
}
use k_deskflight.Reconciler.Loop.{
  finish, log_run, finish_run, execute, after_mark, select_then, list_in, build_then, prepare,
  unless_reconciled, after_load, after_get, reconcile_body, reconcile, stamp, attempt_write,
  log_inner, write_panic, write_if_loaded, handle_reconcile_panic,
}
use k_deskflight.Reconciler.Loop.Replies.{aggregate-is_terminal, merge-is_terminal}

-- An issue with a reason.
abbrev HasReason : CheckSelectionIssue → Type 0
HasReason i = not (i.reason == "") ≡ true

module _ {W : Type 0} (r : Reconciler W) (i : W → Type 0) (serves : ServesValid r i) where
  abbrev Keeps : {A : Type 0} → Exec (Session W) A → Type 0
  Keeps m = Preserves (Sound r i serves) m

  -- The merge of the warning of a sound session keeps an output fit.
  merged-IsFit :
      (out : AggregationOutput) (now : Time) (s : Session W)
      → Sound r i serves s
      → IsFit r i serves out
      → IsFit r i serves (merge_interval_warning out s.interval_warning now)
  merged-IsFit out now s (_, _, warned) (terminal, orderly) = (
    merge-is_terminal out s.interval_warning now terminal,
    merge_interval_warning-AreOrderly out s.interval_warning now warned orderly,
  )

  write_then :
      (interval : ℤ) (out : AggregationOutput)
      → IsFit r i serves out
      → Keeps {A = Reply} (write_status r out >>= λ e. pure (after_interval interval, e))
  write_then interval out fit =
      bind-Preserves (Sound r i serves) (write_status r out)
        (λ e. pure (after_interval interval, e)) (write_status-Sound r i serves out fit)
        (λ e s h. h)

  finish-Keeps :
      (interval : ℤ) (out : AggregationOutput) (s : Session W)
      → IsFit r i serves out
      → Sound r i serves s
      → Sound r i serves (finish r interval out s).1
  unfolding finish
  finish-Keeps interval out s fit h =
      write_then interval (merge_interval_warning out s.interval_warning s.now)
        (merged-IsFit out s.now s h fit) s h

  log_run-Keeps :
      (req : Request) (results : List Result) (out : AggregationOutput)
      → Keeps (log_run r req results out)
  unfolding log_run
  log_run-Keeps req results out s (world, valid, warned) = (
    serves.quiet.logs _ _ (log_results-keeps r i serves req results s.world world),
    valid,
    warned,
  )

  finish_run-Keeps :
      (req : Request) (interval : ℤ) (results : List Result)
      → All IsValidResult results
      → Keeps (finish_run r req interval results)
  unfolding finish_run
  finish_run-Keeps req interval results valid s h =
      let out = merge_interval_warning (aggregate results s.now) s.interval_warning s.now in
      bind-Preserves (Sound r i serves) (log_run r req results out)
        (λ _. write_status r out >>= λ e. pure (after_interval interval, e))
        (log_run-Keeps req results out)
        (λ _. write_then interval out (
          merged-IsFit (aggregate results s.now) s.now s h
            (aggregate-is_terminal results s.now, aggregate-AreOrderly results s.now valid)))
        s h

  after_mark-Keeps :
      (next : Exec (Session W) Reply)
      → Keeps next
      → (e : Option ApiError) → Keeps (after_mark r next e)
  after_mark-Keeps next k none = k
  after_mark-Keeps next k (some e) = λ s h. h

  module _ (registry : Registry W) (wired : r.registry ≡ some registry) where
    execute-Keeps :
        (req : Request) (interval : ℤ) (active : List (Check W)) (specs : List (String × CheckSpec))
        → All (IsFine r i) active
        → Keeps (execute r req interval active specs)
    unfolding execute
    execute-Keeps req interval active specs fine s h =
        continue-Sound r i serves (All IsValidResult) (in_world (run_checks r active specs) s)
          (finish_run r req interval) (run_checks-Yields r i serves active specs s fine h)
          (finish_run-Keeps req interval)

    select_then-Keeps :
        (req : Request) (interval : ℤ) (specs : List (String × CheckSpec))
        (selected : List (Check W) × List CheckSelectionIssue)
        → All (IsFine r i) selected.0
        → All HasReason selected.1
        → Keeps (select_then r req interval specs selected)
    unfolding select_then selection_issue_output are_valid_fields
    select_then-Keeps req interval specs (active, (issue ∷ issues)) fine (named, _) = λ s h.
        finish-Keeps interval (selection_issue_output issue issues (length specs) s.now) s
          (refl, ((rw named refl, tt), (tt, tt))) h
    select_then-Keeps req interval specs (active, []) fine _ =
        bind-Preserves (Sound r i serves) (mark_phase r Phase.running)
          (after_mark r (execute r req interval active specs))
          (mark_phase-Sound r i serves Phase.running refl)
          (after_mark-Keeps (execute r req interval active specs)
            (execute-Keeps req interval active specs fine))

    selected-IsFine :
        (profile : String) (specs : List (String × CheckSpec))
        → All (IsFine r i) (list_by_profile registry profile specs).0
    selected-IsFine profile specs =
        All-mono (λ c. Memᴰ c (all_checks registry)) (IsFine r i)
          (list_by_profile registry profile specs).0
          (λ c. All-mem (IsFine r i) (all_checks registry) (serves.runs registry wired))
          (list_by_profile-registered registry profile specs)

    issues-HasReason :
        (profile : String) (specs : List (String × CheckSpec))
        → All HasReason (list_by_profile registry profile specs).1
    issues-HasReason profile specs =
        All-of_mem HasReason (list_by_profile registry profile specs).1 (λ issue m.
          let (e, _, _, same) = (list_by_profile_issues_iff registry profile specs issue).0 m in
          subst HasReason (sym same) refl)

  build_then-Keeps :
      (req : Request) (interval : ℤ) (profile : String) (built : Built)
      → Keeps (build_then r req interval profile built)
  unfolding build_then spec_invalid_output are_valid_fields
  build_then-Keeps req interval profile (specs, (e ∷ errs)) = λ s h.
      finish-Keeps interval (spec_invalid_output (e ∷ errs) s.now) s (refl, ((refl, tt), (tt, tt)))
        h
  build_then-Keeps req interval profile (specs, []) = λ s h. elim (Option-cases r.registry) [
    | inl missing ↦ rw missing h
    | inr (registry, wired) ↦ rw wired (
        select_then-Keeps registry wired req interval specs (list_by_profile registry profile specs)
          (selected-IsFine registry wired profile specs)
          (issues-HasReason registry wired profile specs) s h)
  ]

  unless_reconciled-Keeps :
      (b : Bool) (req : Request) (interval : ℤ) → Keeps (unless_reconciled r b req interval)
  unfolding unless_reconciled prepare
  unless_reconciled-Keeps true req interval = λ s h. h
  unless_reconciled-Keeps false req interval =
      bind-Preserves (Sound r i serves) (mark_phase r Phase.pending)
        (after_mark r (prepare r req interval)) (mark_phase-Sound r i serves Phase.pending refl)
        (after_mark-Keeps (prepare r req interval) (λ s. build_then-Keeps req interval _ _ s))
