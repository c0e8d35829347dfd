-- ===== src/Specs/Entries.antt =====
-- The map of the specs when none is invalid: one entry for each spec that the resource asks for.
use k_deskflight.Base.{String, List, [], ◌∷◌, ◌++◌, Option, none, some, ◌≡◌, refl, sym, ap, ◌∙◌}
use k_deskflight.Base.Format.{Fmt}
use k_deskflight.Base.Maps.{insert, string_eq}
use k_deskflight.Domain.Specs.{CheckSpec, validate}
use k_deskflight.Api.{ChecksSpec, StorageClassCheckSpec}
use k_deskflight.Specs.{
  SpecError, ProfileDefaults, Built, add_validated, add, version_spec, resources_spec,
  add_storage_class, add_ingress_class, build_spec_map,
}

-- The entries, by what the resource gives of the two specs that have no default.
abbrev pub with_storage_class :
    Option StorageClassCheckSpec → List (String × CheckSpec) → List (String × CheckSpec)
with_storage_class none specs = specs
with_storage_class (some s) specs =
    insert "storageClass"
      (CheckSpec.storage_class (record { names = s.names; require_default = s.require_default }))
      specs

abbrev pub with_ingress_class :
    Option (List String) → List (String × CheckSpec) → List (String × CheckSpec)
with_ingress_class none specs = specs
with_ingress_class (some names) specs =
    insert "ingressClass" (CheckSpec.ingress_class (record { names = names })) specs

unfoldable pub entries :
    Option StorageClassCheckSpec
    → Option (List String)
    → CheckSpec
    → CheckSpec
    → List (String × CheckSpec)
unfolding insert
entries storage ingress version resources = insert "clusterResources" resources (
    insert "certManager" CheckSpec.cert_manager (
      with_ingress_class ingress
        (with_storage_class storage (insert "kubernetesVersion" version []))))

-- Without errors, these are the specs.
abbrev Gives : Built → List (String × CheckSpec) → Type 0
Gives b specs = b ≡ (specs, [])

append_one : (es : List SpecError) (e : SpecError) → es ++ e ∷ [] ≡ [] → ⊥
append_one [] e h = cc
append_one (x ∷ es) e h = cc

module _ (fmt : Fmt) where
  add_validated-clean :
      (k : String) (spec : CheckSpec) (o : Option String) (b : Built)
      → (add_validated k spec o b).1 ≡ []
      → (b.1 ≡ []) × (add_validated k spec o b ≡ (insert k spec b.0, []))
  add_validated-clean k spec none (specs, errs) h = (h, ap (λ es. (insert k spec specs, es)) h)
  add_validated-clean k spec (some e) (specs, errs) h = absurd (append_one errs _ h)

  add-clean :
      (k : String) (spec : CheckSpec) (b : Built)
      → (add fmt k spec b).1 ≡ []
      → (b.1 ≡ []) × (add fmt k spec b ≡ (insert k spec b.0, []))
  unfolding add
  add-clean k spec b h = add_validated-clean k spec (validate fmt spec) b h

  add_storage_class-clean :
      (s : Option StorageClassCheckSpec) (b : Built)
      → (add_storage_class fmt s b).1 ≡ []
      → (b.1 ≡ []) × ((add_storage_class fmt s b).0 ≡ with_storage_class s b.0)
  add_storage_class-clean none b h = (h, refl)
  add_storage_class-clean (some s) b h =
      let (clean, same) = add-clean "storageClass" _ b h in (clean, ap (λ (x : Built). x.0) same)

  add_ingress_class-clean :
      (names : Option (List String)) (b : Built)
      → (add_ingress_class fmt names b).1 ≡ []
      → (b.1 ≡ []) × ((add_ingress_class fmt names b).0 ≡ with_ingress_class names b.0)
  add_ingress_class-clean none b h = (h, refl)
  add_ingress_class-clean (some names) b h =
      let (clean, same) = add-clean "ingressClass" _ b h in (clean, ap (λ (x : Built). x.0) same)

  -- If no spec is invalid, the map has one entry for each spec that the resource asks for.
  pub build_spec_map-entries :
      (checks : ChecksSpec) (defaults : ProfileDefaults) (specs : List (String × CheckSpec))
      → build_spec_map fmt checks defaults ≡ (specs, [])
      → specs
        ≡ entries checks.storage_class checks.ingress_class
            (version_spec checks.kubernetes_version)
            (resources_spec defaults checks.cluster_resources)
  unfolding build_spec_map entries
  build_spec_map-entries checks defaults specs built =
      let version = version_spec checks.kubernetes_version in
      let resources = resources_spec defaults checks.cluster_resources in
      let b1 = add fmt "kubernetesVersion" version ([], []) in
      let b2 = add_storage_class fmt checks.storage_class b1 in
      let b3 = add_ingress_class fmt checks.ingress_class b2 in
      let b4 = add fmt "certManager" CheckSpec.cert_manager b3 in
      let (c4, e5) = add-clean "clusterResources" resources b4 (ap (λ (x : Built). x.1) built) in
      let (c3, e4) = add-clean "certManager" CheckSpec.cert_manager b3 c4 in
      let (c2, e3) = add_ingress_class-clean checks.ingress_class b2 c3 in
      let (c1, e2) = add_storage_class-clean checks.storage_class b1 c2 in
      let (_, e1) = add-clean "kubernetesVersion" version ([], []) c1 in
      let first = λ (x : Built). x.0 in
      sym (ap first built)
      ∙ ap first e5
      ∙ ap (insert "clusterResources" resources) (
          ap first e4
          ∙ ap (insert "certManager" CheckSpec.cert_manager) (
              e3
              ∙ ap (with_ingress_class checks.ingress_class)
                  (e2 ∙ ap (λ b. with_storage_class checks.storage_class (b.0)) e1)))
