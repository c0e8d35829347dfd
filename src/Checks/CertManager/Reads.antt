-- ===== src/Checks/CertManager/Reads.antt =====
-- The check of cert-manager changes nothing but what its lookup and its clock change.
use k_deskflight.Base.{String, Bool, true, false}
use k_deskflight.Base.Exec.{Exec, Fallible, ok, err}
use k_deskflight.Base.Exec.Laws.{Preserves, bind-Preserves}
use k_deskflight.Domain.Specs.{CheckSpec}
use k_deskflight.Checks.{CheckEnv}
use k_deskflight.Checks.CertManager.{cert_manager_api_group, judge, run_cert_manager}

module _ {W : Type 0} (env : CheckEnv W) (has_api_group : String → Exec W (Fallible Bool))
    (i : W → Type 0) (clock : (w : W) → i w → i (env.now w).1) where
  judge-Keeps : (present : Fallible Bool) → Preserves i (judge env has_api_group present)
  unfolding judge
  judge-Keeps (err text) = clock
  judge-Keeps (ok false) = clock
  judge-Keeps (ok true) = clock

  pub run_cert_manager-Keeps :
      ((group : String) → Preserves i (has_api_group group))
      → (spec : CheckSpec) → Preserves i (run_cert_manager env has_api_group spec)
  unfolding run_cert_manager
  run_cert_manager-Keeps reads CheckSpec.cert_manager =
      bind-Preserves i (has_api_group cert_manager_api_group) (judge env has_api_group)
        (reads cert_manager_api_group) judge-Keeps
  run_cert_manager-Keeps reads (CheckSpec.kubernetes_version s) = clock
  run_cert_manager-Keeps reads (CheckSpec.storage_class s) = clock
  run_cert_manager-Keeps reads (CheckSpec.ingress_class s) = clock
  run_cert_manager-Keeps reads (CheckSpec.cluster_resources s) = clock
