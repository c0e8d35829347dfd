-- ===== src/Tests/Checks.antt =====
-- The five checks.
use k_deskflight.Base.{
  ℕ, ◌≤◌, String, List, [], ◌∷◌, true, false, ◌≡◌, ◌↔◌, refl, All, any, Memᴰ, map, arith,
}
use k_deskflight.Base.Exec.{Fallible, ok}
use k_deskflight.Domain.{ConditionStatus}
use k_deskflight.Domain.Specs.{CheckSpec, StorageClassSpec, IngressClassSpec, ClusterResourcesSpec}
use k_deskflight.Checks.{CheckEnv, HasStatus}
use k_deskflight.Checks.KubernetesVersion.{Semver, run_kubernetes_version}
use k_deskflight.Checks.KubernetesVersion.Passes.{Satisfies, run_kubernetes_version_passes_iff}
use k_deskflight.Checks.StorageClass.{
  StorageClassInfo, run_storage_class, run_storage_class_passes_iff,
}
use k_deskflight.Checks.IngressClass.{
  IngressClassInfo, run_ingress_class, run_ingress_class_passes_iff,
}
use k_deskflight.Checks.CertManager.{IsMild, run_cert_manager, run_cert_manager-IsMild}
use k_deskflight.Checks.ClusterResources.{Quantity, NodeInfo, run_cluster_resources}
use k_deskflight.Checks.ClusterResources.Totals.{
  total_cpu, total_memory, run_cluster_resources_passes_iff,
}
use k_deskflight.Checks.Naming.{Discoveries}
use k_deskflight.Tests.Fixtures.{plain_fmt, tick, answers}

abbrev env : CheckEnv ℕ
env = record { now = tick; fmt = plain_fmt }

-- Versions by their whole text.
abbrev pub texts : Semver
texts = record {
  Version = String;
  new_version = λ s. ok s;
  less_than = λ a b. false;
  original = λ v. v;
}

run_kubernetes_version_passes_iff_example :
    HasStatus ConditionStatus.is_true
      (run_kubernetes_version env texts
        (answers (ok "v1.34.2"))
        (CheckSpec.kubernetes_version (record { min = "1.34" }))
        3).0
    ↔ Satisfies env texts (answers (ok "v1.34.2")) "v1.34.2" "1.34"
run_kubernetes_version_passes_iff_example =
    run_kubernetes_version_passes_iff env texts (answers (ok "v1.34.2")) (record { min = "1.34" })
      "v1.34.2" 3 3 refl

abbrev classes : List StorageClassInfo
classes =
    record { name = "fast"; is_default = true; provisioner = "p" }
    ∷ record { name = "slow"; is_default = false; provisioner = "p" }
    ∷ []

abbrev storage : StorageClassSpec
storage = record { names = "slow" ∷ []; require_default = true }

run_storage_class_passes_iff_example :
    HasStatus ConditionStatus.is_true
      (run_storage_class env (answers (ok classes)) (CheckSpec.storage_class storage) 3).0
    ↔ All (λ n. Memᴰ n (map (λ (c : StorageClassInfo). c.name) classes)) storage.names
      × (storage.require_default ≡ true
          → any (λ (c : StorageClassInfo). c.is_default) classes ≡ true)
run_storage_class_passes_iff_example =
    run_storage_class_passes_iff env (answers (ok classes)) storage classes 3 3 refl

abbrev ingresses : List IngressClassInfo
ingresses = record { name = "nginx"; controller = "c" } ∷ []

abbrev ingress : IngressClassSpec
ingress = record { names = "nginx" ∷ "haproxy" ∷ [] }

run_ingress_class_passes_iff_example :
    HasStatus ConditionStatus.is_true
      (run_ingress_class env (answers (ok ingresses)) (CheckSpec.ingress_class ingress) 3).0
    ↔ All (λ n. Memᴰ n (map (λ (c : IngressClassInfo). c.name) ingresses)) ingress.names
run_ingress_class_passes_iff_example =
    run_ingress_class_passes_iff env (answers (ok ingresses)) ingress ingresses 3 3 refl

run_cert_manager-IsMild_example :
    IsMild env
      (λ g. answers (ok false))
      (run_cert_manager env (λ g. answers (ok false)) CheckSpec.cert_manager 3).0
run_cert_manager-IsMild_example =
    run_cert_manager-IsMild env (λ g. answers (ok false)) CheckSpec.cert_manager 3

abbrev nodes : List NodeInfo
nodes =
    record { name = "a"; allocatable_cpu_milli = 3000; allocatable_memory_bytes = 5000000000 }
    ∷ record { name = "b"; allocatable_cpu_milli = 2000; allocatable_memory_bytes = 6000000000 }
    ∷ []

abbrev four : Quantity
four = record { milli_value = 4000; value = 4 }

abbrev parse_four : String → Fallible Quantity
parse_four s = ok four

abbrev floor : ClusterResourcesSpec
floor = record { min_cpu = "4"; min_memory = "4" }

run_cluster_resources_passes_iff_example :
    HasStatus ConditionStatus.is_true
      (run_cluster_resources env parse_four
        (answers (ok nodes))
        (CheckSpec.cluster_resources floor)
        3).0
    ↔ (4000 ≤ total_cpu nodes) × (4 ≤ total_memory nodes)
unfolding total_cpu total_memory
run_cluster_resources_passes_iff_example =
    run_cluster_resources_passes_iff env parse_four (answers (ok nodes)) floor four four nodes 3 3
      refl refl refl (omega arith) (omega arith) (omega arith) (omega arith)

abbrev pub discoveries : Discoveries ℕ
discoveries = record {
  env = env;
  semver = texts;
  parse_quantity = parse_four;
  server_version = answers (ok "v1.34.2");
  list_storage_classes = answers (ok classes);
  list_ingress_classes = answers (ok ingresses);
  has_api_group = λ g. answers (ok true);
  list_ready_nodes = answers (ok nodes);
}
