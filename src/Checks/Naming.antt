-- ===== src/Checks/Naming.antt =====
-- cmd/operator/main.go registers the five checks; each names its results by its condition type.
use k_deskflight.Base.{
  none, [], String, List, Bool, All, All-mono, All-mem, All-of_mem, refl, false, ◌==◌, ◌≡◌,
}
use k_deskflight.Base.Exec.{Outcome, returned, panicked, Exec, Fallible}
use k_deskflight.Domain.{Result, Check}
use k_deskflight.Domain.Specs.{CheckSpec}
use k_deskflight.Base.Maps.{insert}
use k_deskflight.Registry.{Registry, new_registry, register, all_checks}
use k_deskflight.Registry.Keys.{IsKeyed, register-IsKeyed}
use k_deskflight.Api.Schema.{IsValidResult}
use k_deskflight.Runner.Outcomes.{MayName}
use k_deskflight.Runner.Validity.{MayGive, MayShow, GivesValid}
use k_deskflight.Checks.{CheckEnv}
use k_deskflight.Checks.KubernetesVersion.{
  Semver, new_kubernetes_version, kubernetes_version_check, run_kubernetes_version-MayShow,
}
use k_deskflight.Checks.StorageClass.{
  StorageClassInfo, new_storage_class, storage_class_check, run_storage_class-MayShow,
}
use k_deskflight.Checks.IngressClass.{
  IngressClassInfo, new_ingress_class, ingress_class_check, run_ingress_class-MayShow,
}
use k_deskflight.Checks.CertManager.{new_cert_manager, cert_manager_check, run_cert_manager-MayShow}
use k_deskflight.Checks.ClusterResources.{
  Quantity, NodeInfo, new_cluster_resources, cluster_resources_check,
}
use k_deskflight.Checks.ClusterResources.Totals.{run_cluster_resources-MayShow}

-- What the operator builds the checks from.
pub record Discoveries (W : Type 0) : Type 1 where
  pub env : CheckEnv W
  pub semver : Semver
  pub parse_quantity : String → Fallible Quantity
  pub server_version : Exec W (Fallible String)
  pub list_storage_classes : Exec W (Fallible (List StorageClassInfo))
  pub list_ingress_classes : Exec W (Fallible (List IngressClassInfo))
  pub has_api_group : String → Exec W (Fallible Bool)
  pub list_ready_nodes : Exec W (Fallible (List NodeInfo))

MayGive-of_MayShow : (name : String) (o : Outcome Result) → MayShow name o → MayGive IsValidResult o
MayGive-of_MayShow name (returned r) h = h.1
MayGive-of_MayShow name (panicked v) h = tt

MayName-of_MayShow : (name : String) (o : Outcome Result) → MayShow name o → MayName name o
MayName-of_MayShow name (returned r) h = h.0
MayName-of_MayShow name (panicked v) h = tt

module _ {W : Type 0} (d : Discoveries W) where
  unfoldable pub operator_registry : Registry W
  unfolding register
  operator_registry =
      register (new_cluster_resources d.env d.parse_quantity d.list_ready_nodes none) (
        register (new_cert_manager d.env d.has_api_group none) (
          register (new_ingress_class d.env d.list_ingress_classes none) (
            register (new_storage_class d.env d.list_storage_classes none) (
              register (new_kubernetes_version d.env d.semver d.server_version none)
                new_registry))))

  operator_registry-MayShow :
      All
        (λ (c : Check W). (spec : CheckSpec) (w : W) → MayShow c.condition_type (c.run spec w).0)
        (all_checks operator_registry)
  unfolding operator_registry register all_checks insert
  operator_registry-MayShow = (
    run_kubernetes_version-MayShow d.env d.semver d.server_version,
    (
      run_storage_class-MayShow d.env d.list_storage_classes,
      (
        run_ingress_class-MayShow d.env d.list_ingress_classes,
        (
          run_cert_manager-MayShow d.env d.has_api_group,
          (run_cluster_resources-MayShow d.env d.parse_quantity d.list_ready_nodes, tt),
        ),
      ),
    ),
  )

  -- Each check that the operator registers either panics or gives a result that has the condition
  -- type of the check as its name, whatever the spec and the cluster.
  pub operator_registry-MayName :
      All
        (λ (c : Check W). (spec : CheckSpec) (w : W) → MayName c.condition_type (c.run spec w).0)
        (all_checks operator_registry)
  operator_registry-MayName =
      All-mono _ _ (all_checks operator_registry) (λ c h spec w. MayName-of_MayShow _ _ (h spec w))
        operator_registry-MayShow

  abbrev HasType : Check W → Type 0
  HasType c = (c.condition_type == "") ≡ false

  operator_registry-HasType : All HasType (all_checks operator_registry)
  unfolding operator_registry register all_checks insert
  operator_registry-HasType = (refl, (refl, (refl, (refl, (refl, tt)))))

  -- Each check that the operator registers has a condition type, and whatever the spec, the cluster
  -- and the clock, it either panics or gives a result that the schema of the resource allows as a
  -- condition: its type and its reason are not empty, and its severity is listed.
  pub operator_registry-GivesValid : All GivesValid (all_checks operator_registry)
  operator_registry-GivesValid = All-of_mem GivesValid (all_checks operator_registry) (λ c m. (
    All-mem HasType (all_checks operator_registry) operator_registry-HasType m,
    (λ spec w. MayGive-of_MayShow c.condition_type (c.run spec w).0 (
        All-mem
          (λ (c : Check W). (spec : CheckSpec) (w : W) → MayShow c.condition_type (c.run spec w).0)
          (all_checks operator_registry) operator_registry-MayShow m spec w)),
  ))

  -- Each check that the operator registers stands under its own name.
  pub operator_registry-IsKeyed : IsKeyed operator_registry
  unfolding operator_registry
  operator_registry-IsKeyed =
      let versions =
        register-IsKeyed (kubernetes_version_check d.env d.semver d.server_version) [] tt in
      let storage =
        register-IsKeyed (storage_class_check d.env d.list_storage_classes) _ versions in
      let ingress = register-IsKeyed (ingress_class_check d.env d.list_ingress_classes) _ storage in
      let manager = register-IsKeyed (cert_manager_check d.env d.has_api_group) _ ingress in
      register-IsKeyed (cluster_resources_check d.env d.parse_quantity d.list_ready_nodes) _ manager
