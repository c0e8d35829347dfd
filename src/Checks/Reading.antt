-- ===== src/Checks/Reading.antt =====
-- The checks of the operator only read: they change nothing but what the lookups in the cluster and
-- the clock change.
use k_deskflight.Base.{String, All}
use k_deskflight.Base.Exec.Laws.{Preserves}
use k_deskflight.Base.Maps.{insert}
use k_deskflight.Domain.{Check}
use k_deskflight.Domain.Specs.{CheckSpec}
use k_deskflight.Registry.{register, all_checks}
use k_deskflight.Checks.KubernetesVersion.Reads.{run_kubernetes_version-Keeps}
use k_deskflight.Checks.StorageClass.Reads.{run_storage_class-Keeps}
use k_deskflight.Checks.IngressClass.Reads.{run_ingress_class-Keeps}
use k_deskflight.Checks.CertManager.Reads.{run_cert_manager-Keeps}
use k_deskflight.Checks.ClusterResources.Reads.{run_cluster_resources-Keeps}
use k_deskflight.Checks.Naming.{Discoveries, operator_registry}

-- The clock and the lookups keep the property of the world.
pub record LookupsKeep {W : Type 0} (d : Discoveries W) (i : W → Type 0) : Type 0 where
  pub clock : (w : W) → i w → i (d.env.now w).1
  pub server_version : Preserves i d.server_version
  pub list_storage_classes : Preserves i d.list_storage_classes
  pub list_ingress_classes : Preserves i d.list_ingress_classes
  pub has_api_group : (group : String) → Preserves i (d.has_api_group group)
  pub list_ready_nodes : Preserves i d.list_ready_nodes

-- Whatever the lookups and the clock keep of the world, each check of the operator keeps it too, for
-- every spec.
pub operator_registry-Keeps :
    {W : Type 0} (d : Discoveries W) (i : W → Type 0)
    → LookupsKeep d i
    → All
        (λ (c : Check W). (spec : CheckSpec) → Preserves i (c.run spec))
        (all_checks (operator_registry d))
unfolding operator_registry register all_checks insert
operator_registry-Keeps d i keep = (
  run_kubernetes_version-Keeps d.env d.semver d.server_version i keep.clock keep.server_version,
  (
    run_storage_class-Keeps d.env d.list_storage_classes i keep.clock keep.list_storage_classes,
    (
      run_ingress_class-Keeps d.env d.list_ingress_classes i keep.clock keep.list_ingress_classes,
      (
        run_cert_manager-Keeps d.env d.has_api_group i keep.clock keep.has_api_group,
        (
          run_cluster_resources-Keeps d.env d.parse_quantity d.list_ready_nodes i keep.clock
              keep.list_ready_nodes,
          tt,
        ),
      ),
    ),
  ),
)
