-- ===== src/Operator/Selection.antt =====
-- What the registry of the operator selects: every spec that a resource can ask for has a check.
use k_deskflight.Base.{String, List, [], ◌∷◌, ◌++◌, Option, none, some, ◌≡◌, refl, sym, subst, map}
use k_deskflight.Base.Format.{Fmt}
use k_deskflight.Base.Maps.{lookup, insert, string_eq}
use k_deskflight.Base.Sort.{sort_by}
use k_deskflight.Base.Text.{str_ltb}
use k_deskflight.Domain.Specs.{CheckSpec}
use k_deskflight.Api.{ChecksSpec, StorageClassCheckSpec}
use k_deskflight.Registry.{register, list_by_profile}
use k_deskflight.Specs.{ProfileDefaults, version_spec, resources_spec, build_spec_map}
use k_deskflight.Specs.Entries.{entries, build_spec_map-entries}
use k_deskflight.Checks.Naming.{Discoveries, operator_registry}
use k_deskflight.Reconciler.Steps.Results.{condition_type_of}

abbrev storage_type : Option StorageClassCheckSpec → List String
storage_type none = []
storage_type (some s) = "StorageClassReady" ∷ []

abbrev ingress_type : Option (List String) → List String
ingress_type none = []
ingress_type (some names) = "IngressClassReady" ∷ []

-- The condition types of the checks that a resource asks for, in the order of the checks' names. Three
-- checks run for every resource, the two on classes only if the resource has their specs.
abbrev pub asked_types : ChecksSpec → List String
asked_types checks =
    "CertManagerInstalled" ∷ "ClusterResourcesReady" ∷ ingress_type checks.ingress_class
    ++ "KubernetesVersionReady" ∷ storage_type checks.storage_class

module _ {W : Type 0} (d : Discoveries W) (profile : String) where
  abbrev Selects : List String → List (String × CheckSpec) → Type 0
  Selects types specs =
      let (active, issues) = list_by_profile (operator_registry d) profile specs in
      (map condition_type_of active ≡ types) × (issues ≡ [])

  entries-Selects :
      (storage : Option StorageClassCheckSpec) (ingress : Option (List String))
      (version resources : CheckSpec)
      → Selects
          ("CertManagerInstalled" ∷ "ClusterResourcesReady" ∷ ingress_type ingress
            ++ "KubernetesVersionReady" ∷ storage_type storage)
          (entries storage ingress version resources)
  unfolding entries list_by_profile operator_registry register lookup insert sort_by str_ltb
  entries-Selects none none version resources = (refl, refl)
  entries-Selects none (some names) version resources = (refl, refl)
  entries-Selects (some s) none version resources = (refl, refl)
  entries-Selects (some s) (some names) version resources = (refl, refl)

  -- If no spec of a resource is invalid, the operator selects a check for each of them, and reports no
  -- unknown check.
  pub operator_registry-selects :
      (fmt : Fmt) (checks : ChecksSpec) (defaults : ProfileDefaults)
      (specs : List (String × CheckSpec))
      → build_spec_map fmt checks defaults ≡ (specs, [])
      → (map condition_type_of (list_by_profile (operator_registry d) profile specs).0
          ≡ asked_types checks)
        × ((list_by_profile (operator_registry d) profile specs).1 ≡ [])
  operator_registry-selects fmt checks defaults specs built =
      subst (Selects (asked_types checks))
        (sym (build_spec_map-entries fmt checks defaults specs built))
        (entries-Selects checks.storage_class checks.ingress_class
          (version_spec checks.kubernetes_version)
          (resources_spec defaults checks.cluster_resources))
