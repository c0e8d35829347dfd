-- ===== src/Reconciler/Loop/Reports.antt =====
-- What the end of a run reports: the types of the conditions in the status that it leaves.
pub mod Selected
use k_deskflight.Base.{
  String, List, [], ◌∷◌, Option, none, some, Bool, true, false, ◌≡◌, ◌⊎◌, ◌↔◌, refl, ap, subst, map,
  All, Memᴰ, inl, inr, sym,
}
use k_deskflight.Base.Exec.{
  Outcome, returned, panicked, Exec, continue, recover_with, pure, ◌>>=◌, IsReturned,
}
use k_deskflight.Base.Exec.Laws.{Achieves, continue-Achieves}
use k_deskflight.Base.Integers.{ℤ}
use k_deskflight.Domain.{Check, Result, Time}
use k_deskflight.Domain.Specs.{CheckSpec}
use k_deskflight.Api.{Phase, Condition, PreflightSpec, PreflightCheck}
use k_deskflight.Aggregator.{AggregationOutput, aggregate, dedupe_and_sort_conditions}
use k_deskflight.Aggregator.Kinds.{kinds, kinds-dedupe_iff, result_name}
use k_deskflight.Interval.{ConditionWarning, normalize_interval}
use k_deskflight.Merge.{merge_interval_warning}
use k_deskflight.Merge.Kinds.{IsWarned, kinds-merge_iff}
use k_deskflight.Registry.{Registry, CheckSelectionIssue, list_by_profile, all_checks}
use k_deskflight.Registry.Keys.{IsKeyed}
use k_deskflight.Specs.{SpecError, build_spec_map, defaults_for_profile, profile_with_default}
use k_deskflight.Reconciler.{
  ApiError, Answer, Request, after_interval, Reconciler, Session, Reply, no_result,
}
use k_deskflight.Reconciler.Steps.{
  is_already_reconciled, in_world, mark_phase, write_status, run_checks, now_of,
}
use k_deskflight.Reconciler.Steps.Reports.{
  StoresStatus, Works, WorksOn, mark_phase-WorksOn, Shows, write_status-Shows,
}
use k_deskflight.Reconciler.Steps.Results.{
  NamesResults, condition_type_of, AreNamed, run_checks_selected,
}
use k_deskflight.Reconciler.Loop.{
  log_run, finish_run, execute, after_mark, list_in, select_then, build_then, prepare,
  unless_reconciled, after_load, after_get, reconcile_body, handle_reconcile_panic, reconcile,
}

-- The status has a condition of each of these types, one of the type of the warning if there is a
-- warning, and no other.
abbrev pub Reports :
    {W : Type 0} → List String → Option ConditionWarning → Reply → Session W → Type 0
Reports names warning reply s =
    (k : String) → Memᴰ k (kinds s.cr.status.conditions) ↔ (Memᴰ k names ⊎ IsWarned k warning)

-- The types of the merged conditions of a run.
merged_iff :
    (results : List Result) (names : List String) (now : Time) (warning : Option ConditionWarning)
    (k : String)
    → map result_name results ≡ names
    → Memᴰ k (kinds (merge_interval_warning (aggregate results now) warning now).conditions)
      ↔ (Memᴰ k names ⊎ IsWarned k warning)
unfolding aggregate
merged_iff results names now warning k named =
    let (there, back) = kinds-merge_iff (aggregate results now) warning now k in
    let (out, into) = kinds-dedupe_iff results k in
    (
      (λ i. elim (there i) [ inl j ↦ inl (subst (λ ns. Memᴰ k ns) named (out j)) | inr w ↦ inr w ]),
      (λ h. elim h [
        | inl j ↦ back (inl (into (subst (λ ns. Memᴰ k ns) (sym named) j)))
        | inr w ↦ back (inr w)
      ]),
    )

module _ {W : Type 0} (r : Reconciler W) (stores : StoresStatus r) (spec : PreflightSpec)
    (warning : Option ConditionWarning) (interval : ℤ) where
  module _ (names : List String) where
    finish_run-Reports :
        (req : Request) (results : List Result) (s : Session W)
        → Works spec warning s
        → map result_name results ≡ names
        → Achieves (Reports names warning) (finish_run r req interval results s)
    unfolding finish_run log_run
    finish_run-Reports req results s works named =
        let out = merge_interval_warning (aggregate results s.now) s.interval_warning s.now in
        let t = (log_run r req results out s).1 in
        continue-Achieves (Shows r stores spec warning out.conditions) (Reports names warning)
          (write_status r out t) (λ e. pure (after_interval interval, e))
          (write_status-Shows r stores spec warning out t works)
          (λ e u shows k.
            subst (λ ks. Memᴰ k ks ↔ (Memᴰ k names ⊎ IsWarned k warning)) (sym shows)
              (subst (λ w. Memᴰ k (kinds out.conditions) ↔ (Memᴰ k names ⊎ IsWarned k w)) works.1
                (merged_iff results names s.now s.interval_warning k named)))

    after_run :
        (req : Request) (o : Outcome (List Result) × Session W)
        → Works spec warning o.1
        → Achieves (AreNamed r names) o
        → Achieves (Reports names warning) (continue o.0 (finish_run r req interval) o.1)
    after_run req (returned results, s) works named = finish_run-Reports req results s works named
    after_run req (panicked v, s) works h = absurd h

    after_mark-Reports :
        (next : Exec (Session W) Reply) (e : Option ApiError) (s : Session W)
        → ((t : Session W) → Works spec warning t → Achieves (Reports names warning) (next t))
        → WorksOn r stores spec warning e s
        → Achieves (Reports names warning) (after_mark r next e s)
    after_mark-Reports next none s h (_, works) = h s works
    after_mark-Reports next (some e) s h (failed, _) = cc

    mark_then-Reports :
        (phase : Phase) (next : Exec (Session W) Reply) (s : Session W)
        → ((t : Session W) → Works spec warning t → Achieves (Reports names warning) (next t))
        → Works spec warning s
        → Achieves (Reports names warning) ((mark_phase r phase >>= after_mark r next) s)
    mark_then-Reports phase next s h works =
        continue-Achieves (WorksOn r stores spec warning) (Reports names warning)
          (mark_phase r phase s) (after_mark r next)
          (mark_phase-WorksOn r stores spec warning phase s works)
          (λ e t. after_mark-Reports next e t h)
