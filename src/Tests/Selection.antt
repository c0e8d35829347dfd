-- ===== src/Tests/Selection.antt =====
-- The selection of checks and their specs.
use k_deskflight.Domain.Specs.{validate_kubernetes_version}
use k_deskflight.Domain.Specs.Grammar.{IsVersion, validate_kubernetes_version_iff}
use k_deskflight.Base.{String, List, [], ◌∷◌, none, some, ◌≡◌, ◌↔◌, refl, All, Memᴰ}
use k_deskflight.Base.Sort.{IsSorted, IsStrictlySorted}
use k_deskflight.Base.Strings.{trim_space, trim_prefix, split}
use k_deskflight.Base.Maps.{string_eq}
use k_deskflight.Domain.Specs.{CheckSpec}
use k_deskflight.Api.{ChecksSpec, no_checks}
use k_deskflight.Registry.{
  Registry, resolve, unknown_check, check_name, issue_name, list_by_profile,
}
use k_deskflight.Registry.Selection.{
  list_by_profile_active_iff, list_by_profile_issues_iff, list_by_profile-IsSorted,
}
use k_deskflight.Specs.{build_spec_map, ProfileDefaults}
use k_deskflight.Specs.Validity.{
  IsValidEntry, build_spec_map-valid, errors_of, requested, build_spec_map-errors,
}
use k_deskflight.Tests.Fixtures.{plain_fmt, storage_check}
use Prim.Native.Nat.{ℕ}

abbrev registry : Registry ℕ
registry = ("storageClass", storage_check) ∷ []

abbrev wanted : List (String × CheckSpec)
wanted = ("certManager", CheckSpec.cert_manager) ∷ ("storageClass", CheckSpec.cert_manager) ∷ []

list_by_profile_active_iff_example :
    Memᴰ storage_check (list_by_profile registry "production" wanted).0
    ↔ ((e : String × CheckSpec) × Memᴰ e wanted × (resolve e.0 registry ≡ some storage_check))
list_by_profile_active_iff_example =
    list_by_profile_active_iff registry "production" wanted storage_check

list_by_profile_issues_iff_example :
    Memᴰ (unknown_check "certManager") (list_by_profile registry "production" wanted).1 ↔ (
      (e : String × CheckSpec) × Memᴰ e wanted
      × (resolve e.0 registry ≡ none)
      × (unknown_check "certManager" ≡ unknown_check e.0))
list_by_profile_issues_iff_example =
    list_by_profile_issues_iff registry "production" wanted (unknown_check "certManager")

list_by_profile-IsSorted_example :
    IsSorted check_name (list_by_profile registry "production" wanted).0
    × IsStrictlySorted issue_name (list_by_profile registry "production" wanted).1
list_by_profile-IsSorted_example = list_by_profile-IsSorted registry "production" wanted

-- an empty list of ingress classes, which is not valid
abbrev checks : ChecksSpec
checks = record no_checks { ingress_class = some []; kubernetes_version = some "1.33" }

abbrev floors : ProfileDefaults
floors = record { cluster_resources_min_cpu = "4"; cluster_resources_min_memory = "8Gi" }

build_spec_map-valid_example :
    All (IsValidEntry plain_fmt) (build_spec_map plain_fmt checks floors).0
build_spec_map-valid_example = build_spec_map-valid plain_fmt checks floors

build_spec_map-errors_example :
    (build_spec_map plain_fmt checks floors).1
    ≡ errors_of plain_fmt (requested plain_fmt checks floors)
build_spec_map-errors_example = build_spec_map-errors plain_fmt checks floors

build_spec_map_test :
    (build_spec_map plain_fmt checks floors).1
    ≡ record { check = "ingressClass"; error = "ingressClass.names: at least one entry required" }
      ∷ []
unfolding build_spec_map trim_space trim_prefix split
build_spec_map_test = refl

validate_kubernetes_version_iff_example :
    (validate_kubernetes_version plain_fmt (record { min = "v1.34" }) ≡ none)
    ↔ IsVersion (trim_prefix "v1.34" "v")
validate_kubernetes_version_iff_example =
    validate_kubernetes_version_iff plain_fmt (record { min = "v1.34" })
