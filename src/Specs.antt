-- ===== src/Specs.antt =====
-- internal/hexagon/application/reconciler.go: the parameters of the checks, from a resource.
pub mod Validity
pub mod Entries
use k_deskflight.Base.{String, List, [], ◌∷◌, ◌++◌, Option, none, some, Bool, ◌==◌, if◌then◌else◌}
use k_deskflight.Base.Format.{Fmt}
use k_deskflight.Base.Maps.{insert, string_eq}
use k_deskflight.Domain.Specs.{
  CheckSpec, KubernetesVersionSpec, StorageClassSpec, IngressClassSpec, ClusterResourcesSpec,
  validate, default_kubernetes_version_min,
}
use k_deskflight.Api.{
  ChecksSpec, StorageClassCheckSpec, ClusterResourcesCheckSpec, profile_production,
  profile_evaluation,
}

pub record SpecError : Type 0 where
  pub check : String
  pub error : String

pub record ProfileDefaults : Type 0 where
  pub cluster_resources_min_cpu : String
  pub cluster_resources_min_memory : String

unfoldable pub defaults_for_profile : String → ProfileDefaults
defaults_for_profile profile =
    if profile == profile_evaluation
    then record { cluster_resources_min_cpu = "2"; cluster_resources_min_memory = "4Gi" }
    else record { cluster_resources_min_cpu = "4"; cluster_resources_min_memory = "8Gi" }

unfoldable pub profile_with_default : String → String
profile_with_default p = if p == "" then profile_production else p

-- the variables `specs` and `errs` of `buildSpecMap`
abbrev pub Built : Type 0
Built = List (String × CheckSpec) × List SpecError

abbrev add_validated : String → CheckSpec → Option String → Built → Built
add_validated kind spec none (specs, errs) = (insert kind spec specs, errs)
add_validated kind spec (some error) (specs, errs) =
    (specs, errs ++ record { check = kind; error = error } ∷ [])

-- the closure `add`
unfoldable pub add : Fmt → String → CheckSpec → Built → Built
unfolding validate insert
add fmt kind spec built = add_validated kind spec (validate fmt spec) built

abbrev or_default : String → String → String
or_default v default = if v == "" then default else v

abbrev pub version_spec : Option String → CheckSpec
version_spec none = CheckSpec.kubernetes_version (record { min = default_kubernetes_version_min })
version_spec (some min) =
    CheckSpec.kubernetes_version (record { min = or_default min default_kubernetes_version_min })

abbrev pub resources_spec : ProfileDefaults → Option ClusterResourcesCheckSpec → CheckSpec
resources_spec defaults none = CheckSpec.cluster_resources (record {
  min_cpu = defaults.cluster_resources_min_cpu;
  min_memory = defaults.cluster_resources_min_memory;
})
resources_spec defaults (some s) = CheckSpec.cluster_resources (record {
  min_cpu = or_default s.min_cpu defaults.cluster_resources_min_cpu;
  min_memory = or_default s.min_memory defaults.cluster_resources_min_memory;
})

module _ (fmt : Fmt) where
  abbrev add_storage_class : Option StorageClassCheckSpec → Built → Built
  add_storage_class none built = built
  add_storage_class (some s) built =
      add fmt "storageClass"
        (CheckSpec.storage_class (record { names = s.names; require_default = s.require_default }))
        built

  abbrev add_ingress_class : Option (List String) → Built → Built
  add_ingress_class none built = built
  add_ingress_class (some names) built =
      add fmt "ingressClass" (CheckSpec.ingress_class (record { names = names })) built

  unfoldable pub build_spec_map : ChecksSpec → ProfileDefaults → Built
  unfolding add
  build_spec_map checks defaults =
      add fmt "clusterResources" (resources_spec defaults checks.cluster_resources) (
        add fmt "certManager" CheckSpec.cert_manager (
          add_ingress_class checks.ingress_class (
            add_storage_class checks.storage_class
              (add fmt "kubernetesVersion" (version_spec checks.kubernetes_version) ([], [])))))
