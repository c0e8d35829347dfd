-- ===== src/Checks/IngressClass/Reads.antt =====
-- The check of the ingress classes changes nothing but what its lookup and its clock change.
use k_deskflight.Base.{String, List, [], ◌∷◌}
use k_deskflight.Base.Exec.{Exec, Fallible, ok, err}
use k_deskflight.Base.Exec.Laws.{Preserves, bind-Preserves}
use k_deskflight.Domain.Specs.{CheckSpec, IngressClassSpec}
use k_deskflight.Checks.{CheckEnv}
use k_deskflight.Checks.IngressClass.{IngressClassInfo, conclude, judge, run_ingress_class}

module _ {W : Type 0} (env : CheckEnv W)
    (list_ingress_classes : Exec W (Fallible (List IngressClassInfo))) (i : W → Type 0)
    (clock : (w : W) → i w → i (env.now w).1) where
  conclude-Keeps :
      (s : IngressClassSpec) (missing : List String)
      → Preserves i (conclude env list_ingress_classes s missing)
  unfolding conclude
  conclude-Keeps s [] = clock
  conclude-Keeps s (x ∷ xs) = clock

  judge-Keeps :
      (s : IngressClassSpec) (classes : Fallible (List IngressClassInfo))
      → Preserves i (judge env list_ingress_classes s classes)
  unfolding judge
  judge-Keeps s (err text) = clock
  judge-Keeps s (ok classes) = λ w. conclude-Keeps s _ w

  pub run_ingress_class-Keeps :
      Preserves i list_ingress_classes
      → (spec : CheckSpec) → Preserves i (run_ingress_class env list_ingress_classes spec)
  unfolding run_ingress_class
  run_ingress_class-Keeps reads (CheckSpec.ingress_class s) =
      bind-Preserves i list_ingress_classes (judge env list_ingress_classes s) reads (judge-Keeps s)
  run_ingress_class-Keeps reads (CheckSpec.kubernetes_version s) = clock
  run_ingress_class-Keeps reads (CheckSpec.storage_class s) = clock
  run_ingress_class-Keeps reads CheckSpec.cert_manager = clock
  run_ingress_class-Keeps reads (CheckSpec.cluster_resources s) = clock
