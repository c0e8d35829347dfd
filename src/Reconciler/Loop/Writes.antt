-- ===== src/Reconciler/Loop/Writes.antt =====
-- The sequence of the statuses that a reconcile writes until it returns or panics.
use k_deskflight.Base.{
  String, List, [], ◌∷◌, Option, none, some, Bool, true, false, ◌≡◌, refl, sym, subst, length, All,
  Memᴰ, Option-cases, inl, inr, ◌∙◌,
}
use k_deskflight.Base.Exec.{Exec, pure, ◌>>=◌}
use k_deskflight.Base.Integers.{ℤ}
use k_deskflight.Domain.{Check, Result}
use k_deskflight.Domain.Specs.{CheckSpec}
use k_deskflight.Api.{Phase}
use k_deskflight.Aggregator.{AggregationOutput, aggregate}
use k_deskflight.Merge.{merge_interval_warning}
use k_deskflight.Registry.{Registry, CheckSelectionIssue, all_checks, list_by_profile}
use k_deskflight.Registry.Members.{list_by_profile-registered}
use k_deskflight.Specs.{Built}
use k_deskflight.Reconciler.{ApiError, Answer, Request, Reconciler, Session, Reply, after_interval}
use k_deskflight.Reconciler.Outputs.{is_terminal, spec_invalid_output, selection_issue_output}
use k_deskflight.Reconciler.Steps.{
  is_already_reconciled, in_world, mark_phase, write_status, run_checks,
}
use k_deskflight.Reconciler.Steps.Histories.{
  Records, Leads, bind-Leads, mark_phase-Leads, write_status-Leads, run_checks-Leads,
  log_results-Leads,
}
use k_deskflight.Reconciler.Writes.{
  Begun, untouched, pending, Started, waiting, running, Finished, unfinished, final,
}
use k_deskflight.Reconciler.Loop.{
  finish, log_run, finish_run, execute, after_mark, select_then, build_then, prepare,
  unless_reconciled, after_load, after_get, reconcile_body,
}
use k_deskflight.Reconciler.Loop.Replies.{aggregate-is_terminal, merge-is_terminal}

module _ {W : Type 0} (r : Reconciler W) (history : W → List Phase) (records : Records r history)
    (before : List Phase) where
  abbrev Goes :
      {A : Type 0} → (List Phase → Type 0) → (List Phase → Type 0) → Exec (Session W) A → Type 0
  Goes = Leads r history records

  -- Nothing was written.
  abbrev IsSame : List Phase → Type 0
  IsSame h = h ≡ before

  write_then :
      (interval : ℤ) (out : AggregationOutput)
      → is_terminal out.phase ≡ true
      → Goes {A = Reply}
          (Started before)
          (Finished before)
          (write_status r out >>= λ e. pure (after_interval interval, e))
  write_then interval out terminal =
      bind-Leads r history records (Started before) (Finished before) (Finished before)
        (write_status r out) (λ e. pure (after_interval interval, e)) (λ h k. k)
        (write_status-Leads r history records (Started before) (Finished before) out terminal
          (λ h phase t k. final t k))
        (λ e s k. k)

  finish-Goes :
      (interval : ℤ) (out : AggregationOutput)
      → is_terminal out.phase ≡ true
      → Goes (Started before) (Finished before) (finish r interval out)
  unfolding finish
  finish-Goes interval out terminal s =
      write_then interval (merge_interval_warning out s.interval_warning s.now)
        (merge-is_terminal out s.interval_warning s.now terminal) s

  log_run-Goes :
      (req : Request) (results : List Result) (out : AggregationOutput)
      → Goes (Started before) (Started before) (log_run r req results out)
  unfolding log_run
  log_run-Goes req results out s h =
      subst (Started before) (sym (records.leaves.logs _ _))
        (log_results-Leads r history records (Started before) req results s.world h)

  finish_run-Goes :
      (req : Request) (interval : ℤ) (results : List Result)
      → Goes (Started before) (Finished before) (finish_run r req interval results)
  unfolding finish_run
  finish_run-Goes req interval results s =
      let out = merge_interval_warning (aggregate results s.now) s.interval_warning s.now in
      bind-Leads r history records (Started before) (Started before) (Finished before)
        (log_run r req results out)
        (λ _. write_status r out >>= λ e. pure (after_interval interval, e)) (λ h k. unfinished k)
        (log_run-Goes req results out)
        (λ _. write_then interval out (
          merge-is_terminal (aggregate results s.now) s.interval_warning s.now
            (aggregate-is_terminal results s.now)))
        s

  after_mark-Goes :
      (p : List Phase → Type 0) (next : Exec (Session W) Reply)
      → ((h : List Phase) → p h → Finished before h)
      → Goes p (Finished before) next
      → (e : Option ApiError) → Goes p (Finished before) (after_mark r next e)
  after_mark-Goes p next weaker k none = k
  after_mark-Goes p next weaker k (some e) = λ s h. weaker _ h

  module _ (registry : Registry W) (wired : r.registry ≡ some registry) where
    execute-Goes :
        (req : Request) (interval : ℤ) (active : List (Check W)) (specs : List (String × CheckSpec))
        → All (λ c. Memᴰ c (all_checks registry)) active
        → Goes (Started before) (Finished before) (execute r req interval active specs)
    unfolding execute
    execute-Goes req interval active specs known =
        bind-Leads r history records (Started before) (Started before) (Finished before)
          (in_world (run_checks r active specs)) (finish_run r req interval) (λ h k. unfinished k)
          (run_checks-Leads r history records (Started before) registry wired active specs known)
          (finish_run-Goes req interval)

    select_then-Goes :
        (req : Request) (interval : ℤ) (specs : List (String × CheckSpec))
        (selected : List (Check W) × List CheckSelectionIssue)
        → All (λ c. Memᴰ c (all_checks registry)) selected.0
        → Goes (Begun before) (Finished before) (select_then r req interval specs selected)
    unfolding select_then selection_issue_output
    select_then-Goes req interval specs (active, (issue ∷ issues)) known = λ s h.
        finish-Goes interval (selection_issue_output issue issues (length specs) s.now) refl s
          (waiting h)
    select_then-Goes req interval specs (active, []) known =
        bind-Leads r history records (Begun before) (Started before) (Finished before)
          (mark_phase r Phase.running) (after_mark r (execute r req interval active specs))
          (λ h k. unfinished k)
          (mark_phase-Leads r history records (Begun before) (Started before) Phase.running
            (λ h k. waiting k) (λ h k. running k))
          (after_mark-Goes (Started before) (execute r req interval active specs)
            (λ h k. unfinished k) (execute-Goes req interval active specs known))

  build_then-Goes :
      (req : Request) (interval : ℤ) (profile : String) (built : Built)
      → Goes (Begun before) (Finished before) (build_then r req interval profile built)
  unfolding build_then spec_invalid_output
  build_then-Goes req interval profile (specs, (e ∷ errs)) =
      λ s h. finish-Goes interval (spec_invalid_output (e ∷ errs) s.now) refl s (waiting h)
  build_then-Goes req interval profile (specs, []) = λ s h. elim (Option-cases r.registry) [
    | inl missing ↦ rw missing (unfinished (waiting h))
    | inr (registry, wired) ↦ rw wired (
        select_then-Goes registry wired req interval specs (list_by_profile registry profile specs)
          (list_by_profile-registered registry profile specs) s h)
  ]

  unless_reconciled-Goes :
      (b : Bool) (req : Request) (interval : ℤ)
      → Goes IsSame (Finished before) (unless_reconciled r b req interval)
  unfolding unless_reconciled prepare
  unless_reconciled-Goes true req interval s h =
      subst (Finished before) (sym h) (unfinished (waiting untouched))
  unless_reconciled-Goes false req interval s h =
      bind-Leads r history records IsSame (Begun before) (Finished before)
        (mark_phase r Phase.pending) (after_mark r (prepare r req interval))
        (λ g k. unfinished (waiting k))
        (mark_phase-Leads r history records IsSame (Begun before) Phase.pending
          (λ g k. subst (Begun before) (sym k) untouched)
          (λ g k. subst (λ x. Begun before (Phase.pending ∷ x)) (sym k) pending))
        (after_mark-Goes (Begun before) (prepare r req interval) (λ g k. unfinished (waiting k))
          (λ t. build_then-Goes req interval _ _ t))
        s h

  same-Finished : (h : List Phase) → IsSame h → Finished before h
  same-Finished h k = subst (Finished before) (sym k) (unfinished (waiting untouched))

  after_get-Goes : (req : Request) (a : Answer) → Goes IsSame (Finished before) (after_get r req a)
  unfolding after_get after_load
  after_get-Goes req (Answer.failure e) s h = same-Finished _ h
  after_get-Goes req (Answer.object cr) s h =
      unless_reconciled-Goes (is_already_reconciled cr) req _ _ (records.leaves.clock s.world ∙ h)

  pub body-Goes : (req : Request) → Goes IsSame (Finished before) (reconcile_body r req)
  unfolding reconcile_body
  body-Goes req =
      bind-Leads r history records IsSame IsSame (Finished before) (in_world (r.get req))
        (after_get r req) same-Finished (λ s h. records.gets req s.world ∙ h) (after_get-Goes req)
