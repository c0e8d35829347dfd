-- ===== src/Checks/StorageClass/Reads.antt =====
-- The check of the storage classes changes nothing but what its lookup and its clock change.
use k_deskflight.Base.{String, List, [], ◌∷◌, Bool}
use k_deskflight.Base.Exec.{Exec, Fallible, ok, err}
use k_deskflight.Base.Exec.Laws.{Preserves, bind-Preserves}
use k_deskflight.Domain.Specs.{CheckSpec, StorageClassSpec}
use k_deskflight.Checks.{CheckEnv}
use k_deskflight.Checks.StorageClass.{StorageClassInfo, conclude, judge, run_storage_class}

module _ {W : Type 0} (env : CheckEnv W)
    (list_storage_classes : Exec W (Fallible (List StorageClassInfo))) (i : W → Type 0)
    (clock : (w : W) → i w → i (env.now w).1) where
  conclude-Keeps :
      (s : StorageClassSpec) (d : Bool) (missing ds : List String)
      → Preserves i (conclude env list_storage_classes s d missing ds)
  unfolding conclude
  conclude-Keeps s d missing [] = clock
  conclude-Keeps s d missing (x ∷ ds) = clock

  judge-Keeps :
      (s : StorageClassSpec) (classes : Fallible (List StorageClassInfo))
      → Preserves i (judge env list_storage_classes s classes)
  unfolding judge
  judge-Keeps s (err text) = clock
  judge-Keeps s (ok classes) = λ w. conclude-Keeps s _ _ _ w

  pub run_storage_class-Keeps :
      Preserves i list_storage_classes
      → (spec : CheckSpec) → Preserves i (run_storage_class env list_storage_classes spec)
  unfolding run_storage_class
  run_storage_class-Keeps reads (CheckSpec.storage_class s) =
      bind-Preserves i list_storage_classes (judge env list_storage_classes s) reads (judge-Keeps s)
  run_storage_class-Keeps reads (CheckSpec.kubernetes_version s) = clock
  run_storage_class-Keeps reads (CheckSpec.ingress_class s) = clock
  run_storage_class-Keeps reads CheckSpec.cert_manager = clock
  run_storage_class-Keeps reads (CheckSpec.cluster_resources s) = clock
