-- ===== src/Reconciler/Loop/Reports/Selected.antt =====
-- What a reconcile reports: the types of the conditions in the status that it leaves.
use k_deskflight.Base.{
  String, List, [], Option, some, true, false, ◌≡◌, refl, ap, subst, map, All, sym,
}
use k_deskflight.Base.Exec.{Outcome, returned, panicked, Exec, recover_with, pure, ◌>>=◌}
use k_deskflight.Base.Exec.Laws.{Achieves}
use k_deskflight.Base.Integers.{ℤ}
use k_deskflight.Domain.{Check, Result}
use k_deskflight.Domain.Specs.{CheckSpec}
use k_deskflight.Api.{Phase, PreflightSpec, PreflightCheck}
use k_deskflight.Interval.{ConditionWarning, normalize_interval}
use k_deskflight.Registry.{Registry, CheckSelectionIssue, list_by_profile, all_checks}
use k_deskflight.Registry.Keys.{IsKeyed}
use k_deskflight.Specs.{build_spec_map, defaults_for_profile, profile_with_default}
use k_deskflight.Reconciler.{Answer, Request, Reconciler, Session, Reply, no_result}
use k_deskflight.Reconciler.Steps.{is_already_reconciled, in_world, run_checks, now_of}
use k_deskflight.Reconciler.Steps.Reports.{StoresStatus, Works}
use k_deskflight.Reconciler.Steps.Results.{
  NamesResults, condition_type_of, AreNamed, run_checks_selected,
}
use k_deskflight.Reconciler.Loop.Reports.{Reports, after_run, mark_then-Reports}
use k_deskflight.Reconciler.Loop.{
  execute, list_in, select_then, build_then, prepare, unless_reconciled, after_load, after_get,
  reconcile_body, handle_reconcile_panic, reconcile,
}

module _ {W : Type 0} (r : Reconciler W) (stores : StoresStatus r) (spec : PreflightSpec)
    (warning : Option ConditionWarning) (interval : ℤ) (registry : Registry W)
    (wired : r.registry ≡ some registry) (keyed : IsKeyed registry)
    (named : All NamesResults (all_checks registry)) (specs : List (String × CheckSpec))
    (active : List (Check W))
    (built : build_spec_map r.fmt spec.checks
        (defaults_for_profile (profile_with_default spec.profile))
      ≡ (specs, []))
    (selected : list_by_profile registry (profile_with_default spec.profile) specs
      ≡ (active, [])) where
  abbrev selected_names : List String
  selected_names = map condition_type_of active

  execute-Reports :
      (req : Request) (s : Session W)
      → Works spec warning s
      → Achieves (Reports selected_names warning) (execute r req interval active specs s)
  unfolding execute
  execute-Reports req s works =
      after_run r stores spec warning interval selected_names req
        (in_world (run_checks r active specs) s) works
        (subst
          (λ cs.
            Achieves (AreNamed r (map condition_type_of cs)) (in_world (run_checks r cs specs) s))
          (ap (λ (x : List (Check W) × List CheckSelectionIssue). x.0) selected)
          (in_session
            (map condition_type_of
              (list_by_profile registry (profile_with_default spec.profile) specs).0)
            (run_checks r (list_by_profile registry (profile_with_default spec.profile) specs).0
              specs s.world)
            (run_checks_selected r registry (profile_with_default spec.profile) specs s.world keyed
              named)))
    where
      in_session :
          (names : List String) (o : Outcome (List Result) × W)
          → Achieves (AreNamed r names) o
          → Achieves (AreNamed r names) (o.0, record s { world = o.1 })
      in_session names (returned results, w) h = h
      in_session names (panicked v, w) h = h

  select_then-Reports :
      (req : Request) (s : Session W)
      → Works spec warning s
      → Achieves (Reports selected_names warning) (select_then r req interval specs (active, []) s)
  unfolding select_then
  select_then-Reports req s works =
      mark_then-Reports r stores spec warning interval selected_names Phase.running
        (execute r req interval active specs) s (execute-Reports req) works

  build_then-Reports :
      (req : Request) (s : Session W)
      → Works spec warning s
      → Achieves
          (Reports selected_names warning)
          (build_then r req interval (profile_with_default spec.profile) (specs, []) s)
  unfolding build_then
  build_then-Reports req s works =
      let profile = profile_with_default spec.profile in
      subst
        (λ o.
          Achieves (Reports selected_names warning)
            ((list_in r o profile specs >>= select_then r req interval specs) s))
        (sym wired)
        (subst
          (λ sel.
            Achieves (Reports selected_names warning) (select_then r req interval specs sel s))
          (sym selected) (select_then-Reports req s works))

  prepare-Reports :
      (req : Request) (s : Session W)
      → Works spec warning s
      → Achieves (Reports selected_names warning) (prepare r req interval s)
  unfolding prepare
  prepare-Reports req s works =
      subst
        (λ (sp : PreflightSpec). Achieves (Reports selected_names warning) (
          build_then r req interval (profile_with_default sp.profile)
            (build_spec_map r.fmt sp.checks
              (defaults_for_profile (profile_with_default sp.profile)))
            s))
        (sym works.0)
        (subst
          (λ b.
            Achieves (Reports selected_names warning)
              (build_then r req interval (profile_with_default spec.profile) b s))
          (sym built) (build_then-Reports req s works))

  unless_reconciled-Reports :
      (req : Request) (s : Session W)
      → Works spec warning s
      → Achieves (Reports selected_names warning) (unless_reconciled r false req interval s)
  unfolding unless_reconciled
  unless_reconciled-Reports req s works =
      mark_then-Reports r stores spec warning interval selected_names Phase.pending
        (prepare r req interval) s (prepare-Reports req) works

module _ {W : Type 0} (r : Reconciler W) where
  recovered :
      (p : Reply → Session W → Type 0) (o : Outcome Reply × Session W)
      (h : String → Exec (Session W) Reply)
      → Achieves p o
      → Achieves p (recover_with o.0 h o.1)
  recovered p (returned reply, s) h k = k
  recovered p (panicked v, s) h k = absurd k

  -- A reconcile of a generation that is not done yet, whose specs are valid and all have a registered
  -- check, leaves a status with a condition of the condition type of every selected check, one of the
  -- type of the warning about the interval if there is such a warning, and no other. This holds if
  -- each registered check stands under its own name and names its results by its condition type
  -- unless it panics, and if the API takes each write of the status and answers with the object as it
  -- was sent, its version apart.
  pub reconcile-Reports :
      StoresStatus r
      → (registry : Registry W) → r.registry ≡ some registry
      → IsKeyed registry
      → All NamesResults (all_checks registry)
      → (req : Request) (cr : PreflightCheck) (w w' : W)
      → r.get req w ≡ (returned (Answer.object cr), w')
      → is_already_reconciled cr ≡ false
      → (specs : List (String × CheckSpec)) (active : List (Check W))
      → build_spec_map r.fmt cr.spec.checks
          (defaults_for_profile (profile_with_default cr.spec.profile))
        ≡ (specs, [])
      → list_by_profile registry (profile_with_default cr.spec.profile) specs ≡ (active, [])
      → Achieves
          (Reports
            (map condition_type_of active)
            (normalize_interval r.fmt r.parse_duration cr.spec.interval).1)
          (reconcile r req w)
  unfolding reconcile reconcile_body after_get after_load
  reconcile-Reports stores registry wired keyed named req cr w w' got undone specs active built
        selected =
      let (interval, warning) = normalize_interval r.fmt r.parse_duration cr.spec.interval in
      let (ts, clocked) = now_of r w' in
      let begun : Session W = record {
        world = clocked;
        cr = cr;
        cr_loaded = true;
        interval_warning = warning;
        now = ts;
      } in
      rw (got, undone)
        (recovered (Reports (map condition_type_of active) warning)
          (unless_reconciled r false req interval begun)
          (λ rec. handle_reconcile_panic r req rec >>= λ e. pure (no_result, some e))
          (unless_reconciled-Reports r stores cr.spec warning interval registry wired keyed named
            specs active built selected req begun (refl, refl)))
