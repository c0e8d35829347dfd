-- ===== src/Reconciler/Loop/Traces.antt =====
-- A whole reconcile keeps the resource on its way through the lifecycle, also when it panics.
use k_deskflight.Base.{
  ◌⊎◌, nat_eq, Bool-cases, inl, inr, String, List, [], ◌∷◌, Option, none, some, Bool, true, false,
  ◌≡◌, refl, length,
}
use k_deskflight.Base.Exec.{returned, Exec, pure, ◌>>=◌}
use k_deskflight.Base.Exec.Laws.{Preserves, bind-Preserves, recover-Preserves}
use k_deskflight.Base.Integers.{ℤ}
use k_deskflight.Domain.{Check, Result, Time}
use k_deskflight.Domain.Specs.{CheckSpec}
use k_deskflight.Api.{Phase, PreflightCheck}
use k_deskflight.Aggregator.{AggregationOutput, aggregate}
use k_deskflight.Merge.{merge_interval_warning}
use k_deskflight.Registry.{Registry, CheckSelectionIssue}
use k_deskflight.Specs.{Built}
use k_deskflight.Reconciler.{
  ApiError, Answer, Request, Reconciler, Session, start, Reply, no_result, after_interval,
}
use k_deskflight.Reconciler.Outputs.{
  is_terminal, spec_invalid_output, selection_issue_output, reconcile_panic_output,
}
use k_deskflight.Reconciler.Lifecycle.{Lifecycle, Lifecycle-keeps}
use k_deskflight.Reconciler.Steps.{
  is_already_reconciled, in_world, load, mark_phase, write_status, run_checks,
}
use k_deskflight.Reconciler.Steps.Laws.{KeepsStatus}
use k_deskflight.Reconciler.Steps.Moves.{IsOnTheWay, mark_phase-Preserves, write_status-Preserves}
use k_deskflight.Reconciler.Loop.{
  finish, log_run, finish_run, execute, after_mark, select_then, list_in, build_then, prepare,
  unless_reconciled, after_load, after_get, reconcile_body, reconcile, stamp, attempt_write,
  log_inner, write_panic, write_if_loaded, handle_reconcile_panic,
}
use k_deskflight.Reconciler.Loop.Replies.{aggregate-is_terminal, merge-is_terminal}

module _ {W : Type 0} (r : Reconciler W) (keeps : KeepsStatus r) (read : PreflightCheck) where
  abbrev Keeps : {A : Type 0} → Exec (Session W) A → Type 0
  Keeps m = Preserves (IsOnTheWay read) m

  write_then :
      (interval : ℤ) (out : AggregationOutput)
      → is_terminal out.phase ≡ true
      → Keeps {A = Reply} (write_status r out >>= λ e. pure (after_interval interval, e))
  write_then interval out terminal =
      bind-Preserves (IsOnTheWay read) (write_status r out) (λ e. pure (after_interval interval, e))
        (write_status-Preserves r keeps read out terminal) (λ e s h. h)

  finish-Keeps :
      (interval : ℤ) (out : AggregationOutput) (s : Session W)
      → is_terminal out.phase ≡ true
      → IsOnTheWay read s
      → IsOnTheWay read (finish r interval out s).1
  unfolding finish
  finish-Keeps interval out s terminal =
      write_then interval (merge_interval_warning out s.interval_warning s.now)
        (merge-is_terminal out s.interval_warning s.now terminal) s

  finish_run-Keeps :
      (req : Request) (interval : ℤ) (results : List Result)
      → Keeps (finish_run r req interval results)
  unfolding finish_run log_run
  finish_run-Keeps req interval results s h =
      let out = merge_interval_warning (aggregate results s.now) s.interval_warning s.now in
      bind-Preserves (IsOnTheWay read) (log_run r req results out)
        (λ _. write_status r out >>= λ e. pure (after_interval interval, e)) (λ t k. k)
        (λ _. write_then interval out (
          merge-is_terminal (aggregate results s.now) s.interval_warning s.now
            (aggregate-is_terminal results s.now)))
        s h

  execute-Keeps :
      (req : Request) (interval : ℤ) (active : List (Check W)) (specs : List (String × CheckSpec))
      → Keeps (execute r req interval active specs)
  unfolding execute
  execute-Keeps req interval active specs =
      bind-Preserves (IsOnTheWay read) (in_world (run_checks r active specs))
        (finish_run r req interval) (λ s h. h) (finish_run-Keeps req interval)

  after_mark-Keeps :
      (next : Exec (Session W) Reply)
      → Keeps next
      → (e : Option ApiError) → Keeps (after_mark r next e)
  after_mark-Keeps next k none = k
  after_mark-Keeps next k (some e) = λ s h. h

  mark_then-Keeps :
      (phase : Phase) (next : Exec (Session W) Reply)
      → is_terminal phase ≡ false
      → Keeps next
      → Keeps (mark_phase r phase >>= after_mark r next)
  mark_then-Keeps phase next begun k =
      bind-Preserves (IsOnTheWay read) (mark_phase r phase) (after_mark r next)
        (mark_phase-Preserves r keeps read phase begun) (after_mark-Keeps next k)

  select_then-Keeps :
      (req : Request) (interval : ℤ) (specs : List (String × CheckSpec))
      (selected : List (Check W) × List CheckSelectionIssue)
      → Keeps (select_then r req interval specs selected)
  unfolding select_then selection_issue_output
  select_then-Keeps req interval specs (active, (issue ∷ issues)) = λ s h.
      finish-Keeps interval (selection_issue_output issue issues (length specs) s.now) s refl h
  select_then-Keeps req interval specs (active, []) =
      mark_then-Keeps Phase.running (execute r req interval active specs) refl
        (execute-Keeps req interval active specs)

  list_in-Keeps :
      (registry : Option (Registry W)) (profile : String) (specs : List (String × CheckSpec))
      → Keeps (list_in r registry profile specs)
  list_in-Keeps none profile specs = λ s h. h
  list_in-Keeps (some registry) profile specs = λ s h. h

  build_then-Keeps :
      (req : Request) (interval : ℤ) (profile : String) (built : Built)
      → Keeps (build_then r req interval profile built)
  unfolding build_then spec_invalid_output
  build_then-Keeps req interval profile (specs, (e ∷ errs)) =
      λ s h. finish-Keeps interval (spec_invalid_output (e ∷ errs) s.now) s refl h
  build_then-Keeps req interval profile (specs, []) =
      bind-Preserves (IsOnTheWay read) (list_in r r.registry profile specs)
        (select_then r req interval specs) (list_in-Keeps r.registry profile specs)
        (select_then-Keeps req interval specs)

  unless_reconciled-Keeps :
      (b : Bool) (req : Request) (interval : ℤ) → Keeps (unless_reconciled r b req interval)
  unfolding unless_reconciled prepare
  unless_reconciled-Keeps true req interval = λ s h. h
  unless_reconciled-Keeps false req interval =
      mark_then-Keeps Phase.pending (prepare r req interval) refl
        (λ s. build_then-Keeps req interval _ _ s)

  stamp-Keeps : (now : Time) → Keeps (stamp r now)
  stamp-Keeps now s h = elim (Bool-cases (nat_eq now 0)) [
    | inl unset ↦ rw unset h
    | inr set ↦ rw set h
  ]

  attempt_write-Keeps : (v : String) → Keeps (attempt_write r v)
  unfolding attempt_write reconcile_panic_output
  attempt_write-Keeps v s =
      bind-Preserves (IsOnTheWay read) (stamp r s.now)
        (λ ts.
          write_status r
            (merge_interval_warning (reconcile_panic_output v ts) s.interval_warning ts)
          >>= λ _. pure tt)
        (stamp-Keeps s.now)
        (λ ts.
          let out = merge_interval_warning (reconcile_panic_output v ts) s.interval_warning ts in
          bind-Preserves (IsOnTheWay read) (write_status r out) (λ _. pure tt)
            (write_status-Preserves r keeps read out
              (merge-is_terminal (reconcile_panic_output v ts) s.interval_warning ts refl))
            (λ _ t k. k))
        s

  write_if_loaded-Keeps :
      (b : Bool) (req : Request) (v : String) → Keeps (write_if_loaded r b req v)
  unfolding write_panic
  write_if_loaded-Keeps false req v = λ s h. h
  write_if_loaded-Keeps true req v =
      recover-Preserves (IsOnTheWay read) (attempt_write r v) (log_inner r req)
        (attempt_write-Keeps v) (λ inner t k. k)

  handle-Keeps : (req : Request) (v : String) → Keeps (handle_reconcile_panic r req v)
  unfolding handle_reconcile_panic
  handle-Keeps req v s h =
      bind-Preserves (IsOnTheWay read) (write_if_loaded r s.cr_loaded req v) (λ _. pure _)
        (write_if_loaded-Keeps s.cr_loaded req v) (λ _ t k. k) _ h

  after_load-Keeps : (req : Request) → Keeps (after_load r req)
  unfolding after_load
  after_load-Keeps req s h = unless_reconciled-Keeps (is_already_reconciled s.cr) req _ _ h

  -- When the API gives a resource, a reconcile leaves it, also after a panic, with the generation it
  -- had and with a status that its lifecycle leads to: a step of the lifecycle either changes the phase
  -- only, to one that is not terminal, or has a terminal phase and settles the generation. This holds
  -- if the API answers a write of the status that it takes with the object as it was sent, its
  -- version apart.
  pub reconcile-IsOnTheWay :
      (req : Request) (w w' : W)
      → r.get req w ≡ (returned (Answer.object read), w')
      → IsOnTheWay read (reconcile r req w).1
  unfolding reconcile reconcile_body after_get
  reconcile-IsOnTheWay req w w' got = rw got (
      recover-Preserves (IsOnTheWay read) (after_load r req)
        (λ rec. handle_reconcile_panic r req rec >>= λ e. pure (no_result, some e))
        (after_load-Keeps req)
        (λ rec.
          bind-Preserves (IsOnTheWay read) (handle_reconcile_panic r req rec)
            (λ e. pure (no_result, some e)) (handle-Keeps req rec) (λ e t k. k))
        (load read (start w')) (refl, Lifecycle.rests))

  -- When the API gives a resource, then after a reconcile, also after a panic, either the generation
  -- of the resource is observed, or its observed generation, its summary and its conditions are those
  -- that were read. This holds if the API answers a write of the status that it takes with the object
  -- as it was sent, its version apart.
  reconcile_unsettled :
      (req : Request) (w w' : W)
      → r.get req w ≡ (returned (Answer.object read), w')
      → ((reconcile r req w).1.cr.status.observed_generation ≡ read.generation)
        ⊎ ((reconcile r req w).1.cr.status.observed_generation ≡ read.status.observed_generation)
          × ((reconcile r req w).1.cr.status.summary ≡ read.status.summary)
          × ((reconcile r req w).1.cr.status.conditions ≡ read.status.conditions)
  reconcile_unsettled req w w' got =
      Lifecycle-keeps read.generation read.status (reconcile r req w).1.cr.status
        (reconcile-IsOnTheWay req w w' got).1
