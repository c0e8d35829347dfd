-- ===== src/Operator/Reports.antt =====
-- What a reconcile of the operator reports, with the checks that it registers.
use k_deskflight.Base.{String, List, [], false, ◌≡◌, refl, subst, ap₂}
use k_deskflight.Base.Exec.{returned}
use k_deskflight.Base.Exec.Laws.{Achieves}
use k_deskflight.Domain.Specs.{CheckSpec}
use k_deskflight.Api.{PreflightCheck}
use k_deskflight.Adapters.{Clients}
use k_deskflight.Interval.{normalize_interval}
use k_deskflight.Registry.{list_by_profile}
use k_deskflight.Specs.{build_spec_map, defaults_for_profile, profile_with_default}
use k_deskflight.Checks.Naming.{
  operator_registry, operator_registry-MayName, operator_registry-IsKeyed,
}
use k_deskflight.Reconciler.{Answer, Request}
use k_deskflight.Reconciler.Steps.{is_already_reconciled}
use k_deskflight.Reconciler.Steps.Reports.{Stores}
use k_deskflight.Reconciler.Loop.{reconcile}
use k_deskflight.Reconciler.Loop.Reports.{Reports}
use k_deskflight.Reconciler.Loop.Reports.Selected.{reconcile-Reports}
use k_deskflight.Operator.Selection.{asked_types, operator_registry-selects}
use k_deskflight.Operator.{Platform, discoveries, new_reconciler}

-- If the API takes each write of the status and answers with the object as it was sent, its version
-- apart, then a reconcile of the operator, of a generation that is not done yet and whose specs are
-- valid, leaves a status with these conditions and no other: CertManagerInstalled,
-- ClusterResourcesReady and KubernetesVersionReady, IngressClassReady and StorageClassReady if the
-- resource has their specs, and the one of the warning about the interval if there is one. This holds
-- whatever the cluster, the reviewer, the clock and the deadlines do.
pub new_reconciler-Reports :
    {W : Type 0} (p : Platform W) (mgr : p.Manager) (c : Clients W)
    → ((cr : PreflightCheck) (w : W) → Stores cr (p.update_object mgr cr w).0)
    → (req : Request) (cr : PreflightCheck) (w w' : W)
    → p.get_object mgr req w ≡ (returned (Answer.object cr), w')
    → is_already_reconciled cr ≡ false
    → (specs : List (String × CheckSpec))
    → build_spec_map p.fmt cr.spec.checks
        (defaults_for_profile (profile_with_default cr.spec.profile))
      ≡ (specs, [])
    → Achieves
        (Reports
          (asked_types cr.spec.checks)
          (normalize_interval p.fmt p.parse_duration cr.spec.interval).1)
        (reconcile (new_reconciler p mgr c) req w)
unfolding new_reconciler
new_reconciler-Reports p mgr c stores req cr w w' got undone specs built =
    let d = discoveries p c in
    let profile = profile_with_default cr.spec.profile in
    let (types, known) =
      operator_registry-selects d profile p.fmt cr.spec.checks (defaults_for_profile profile) specs
        built in
    subst
      (λ names.
        Achieves (Reports names (normalize_interval p.fmt p.parse_duration cr.spec.interval).1)
          (reconcile (new_reconciler p mgr c) req w))
      types
      (reconcile-Reports (new_reconciler p mgr c) stores (operator_registry d) refl
        (operator_registry-IsKeyed d) (operator_registry-MayName d) req cr w w' got undone specs
        (list_by_profile (operator_registry d) profile specs).0 built
        (ap₂ (λ a b. (a, b)) refl known))
