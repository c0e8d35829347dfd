-- ===== src/Specs/Validity.antt =====
-- The specs that a run works on are valid, and stand under their kinds.
use k_deskflight.Base.{
  String, List, [], ◌∷◌, ◌++◌, Option, none, some, ◌≡◌, inl, inr, refl, sym, ap, ◌∙◌, All,
  Option-cases,
}
use mathlib.Core.List.{append-nil, append_assoc}
use k_deskflight.Base.Format.{Fmt}
use k_deskflight.Base.Maps.{string_eq}
use k_deskflight.Base.Maps.Entries.{insert-All}
use k_deskflight.Domain.Specs.{CheckSpec, kind, validate}
use k_deskflight.Api.{ChecksSpec, StorageClassCheckSpec}
use k_deskflight.Specs.{
  SpecError, ProfileDefaults, Built, add_validated, add, version_spec, resources_spec,
  add_storage_class, add_ingress_class, build_spec_map,
}

module _ (fmt : Fmt) where
  -- An entry of the map: a valid spec, under its kind.
  abbrev pub IsValidEntry : String × CheckSpec → Type 0
  IsValidEntry e = (kind e.1 ≡ e.0) × (validate fmt e.1 ≡ none)

  add_validated-valid :
      (k : String) (spec : CheckSpec) (o : Option String) (b : Built)
      → kind spec ≡ k
      → validate fmt spec ≡ o
      → All IsValidEntry b.0
      → All IsValidEntry (add_validated k spec o b).0
  add_validated-valid k spec none b named valid h =
      insert-All IsValidEntry k spec b.0 (named, valid) h
  add_validated-valid k spec (some error) b named invalid h = h

  add-valid :
      (k : String) (spec : CheckSpec) (b : Built)
      → kind spec ≡ k
      → All IsValidEntry b.0
      → All IsValidEntry (add fmt k spec b).0
  unfolding add
  add-valid k spec b named h = add_validated-valid k spec (validate fmt spec) b named refl h

  kind-version_spec : (m : Option String) → kind (version_spec m) ≡ "kubernetesVersion"
  unfolding kind
  kind-version_spec none = refl
  kind-version_spec (some m) = refl

  add_storage_class-valid :
      (s : Option StorageClassCheckSpec) (b : Built)
      → All IsValidEntry b.0
      → All IsValidEntry (add_storage_class fmt s b).0
  unfolding kind
  add_storage_class-valid none b h = h
  add_storage_class-valid (some s) b h = add-valid "storageClass" _ b refl h

  add_ingress_class-valid :
      (names : Option (List String)) (b : Built)
      → All IsValidEntry b.0
      → All IsValidEntry (add_ingress_class fmt names b).0
  unfolding kind
  add_ingress_class-valid none b h = h
  add_ingress_class-valid (some names) b h = add-valid "ingressClass" _ b refl h

  resources_lem :
      (checks : ChecksSpec) (defaults : ProfileDefaults)
      → kind (resources_spec defaults checks.cluster_resources) ≡ "clusterResources"
  unfolding kind
  resources_lem checks defaults = elim (Option-cases checks.cluster_resources) [
    | inl absent ↦ rw absent refl
    | inr (s, given) ↦ rw given refl
  ]

  -- Each spec that a run works on is valid and stands under its own kind, so that no check is given
  -- a spec of another kind.
  pub build_spec_map-valid :
      (checks : ChecksSpec) (defaults : ProfileDefaults)
      → All IsValidEntry (build_spec_map fmt checks defaults).0
  unfolding build_spec_map kind
  build_spec_map-valid checks defaults =
      let version = add fmt "kubernetesVersion" (version_spec checks.kubernetes_version) ([], []) in
      let storage = add_storage_class fmt checks.storage_class version in
      let ingress = add_ingress_class fmt checks.ingress_class storage in
      let manager = add fmt "certManager" CheckSpec.cert_manager ingress in
      add-valid "clusterResources" (resources_spec defaults checks.cluster_resources) manager
        (resources_lem checks defaults)
        (add-valid "certManager" CheckSpec.cert_manager ingress refl (
          add_ingress_class-valid checks.ingress_class storage (
            add_storage_class-valid checks.storage_class version (
              add-valid "kubernetesVersion" (version_spec checks.kubernetes_version) ([], [])
                (kind-version_spec checks.kubernetes_version) tt))))

  storage_requests : Option StorageClassCheckSpec → List CheckSpec
  storage_requests none = []
  storage_requests (some s) =
      CheckSpec.storage_class (record { names = s.names; require_default = s.require_default }) ∷ []

  ingress_requests : Option (List String) → List CheckSpec
  ingress_requests none = []
  ingress_requests (some names) = CheckSpec.ingress_class (record { names = names }) ∷ []

  -- The specs that a resource asks for, in the order in which they are built.
  pub requested : ChecksSpec → ProfileDefaults → List CheckSpec
  unfolding storage_requests ingress_requests
  requested checks defaults =
      (((version_spec checks.kubernetes_version ∷ []) ++ storage_requests checks.storage_class)
        ++ ingress_requests checks.ingress_class)
      ++ (CheckSpec.cert_manager ∷ resources_spec defaults checks.cluster_resources ∷ [])

  error_of : CheckSpec → Option String → List SpecError
  error_of spec none = []
  error_of spec (some error) = record { check = kind spec; error = error } ∷ []

  -- What is wrong with some specs, in their order.
  pub errors_of : List CheckSpec → List SpecError
  unfolding error_of
  errors_of [] = []
  errors_of (spec ∷ specs) = error_of spec (validate fmt spec) ++ errors_of specs

  add_validated-errors :
      (k : String) (spec : CheckSpec) (o : Option String) (b : Built)
      → kind spec ≡ k
      → (add_validated k spec o b).1 ≡ b.1 ++ error_of spec o
  unfolding error_of
  add_validated-errors k spec none b named = sym (append-nil b.1)
  add_validated-errors k spec (some error) b named =
      ap (λ n. b.1 ++ record { check = n; error = error } ∷ []) (sym named)

  add-errors :
      (k : String) (spec : CheckSpec) (b : Built)
      → kind spec ≡ k
      → (add fmt k spec b).1 ≡ b.1 ++ errors_of (spec ∷ [])
  unfolding add errors_of
  add-errors k spec b named =
      add_validated-errors k spec (validate fmt spec) b named
      ∙ ap (λ es. b.1 ++ es) (sym (append-nil _))

  errors_of-append : (xs ys : List CheckSpec) → errors_of (xs ++ ys) ≡ errors_of xs ++ errors_of ys
  unfolding errors_of
  errors_of-append [] ys = refl
  errors_of-append (x ∷ xs) ys =
      ap (λ es. error_of x (validate fmt x) ++ es) (errors_of-append xs ys)
      ∙ sym (append_assoc (error_of x (validate fmt x)) (errors_of xs) (errors_of ys))

  add_storage_class-errors :
      (s : Option StorageClassCheckSpec) (b : Built)
      → (add_storage_class fmt s b).1 ≡ b.1 ++ errors_of (storage_requests s)
  unfolding storage_requests errors_of kind
  add_storage_class-errors none b = sym (append-nil b.1)
  add_storage_class-errors (some s) b = add-errors "storageClass" _ b refl

  add_ingress_class-errors :
      (names : Option (List String)) (b : Built)
      → (add_ingress_class fmt names b).1 ≡ b.1 ++ errors_of (ingress_requests names)
  unfolding ingress_requests errors_of kind
  add_ingress_class-errors none b = sym (append-nil b.1)
  add_ingress_class-errors (some names) b = add-errors "ingressClass" _ b refl

  grow :
      (b c : Built) (xs ys : List CheckSpec)
      → c.1 ≡ b.1 ++ errors_of ys
      → b.1 ≡ errors_of xs
      → c.1 ≡ errors_of (xs ++ ys)
  grow b c xs ys more known =
      more ∙ ap (λ es. es ++ errors_of ys) known ∙ sym (errors_of-append xs ys)

  -- The errors are those of the specs that the resource asks for, each under the kind of its spec:
  -- every invalid spec is reported, in the order of the checks, and nothing else is.
  pub build_spec_map-errors :
      (checks : ChecksSpec) (defaults : ProfileDefaults)
      → (build_spec_map fmt checks defaults).1 ≡ errors_of (requested checks defaults)
  unfolding build_spec_map requested kind
  build_spec_map-errors checks defaults =
      let version = version_spec checks.kubernetes_version in
      let resources = resources_spec defaults checks.cluster_resources in
      let b1 = add fmt "kubernetesVersion" version ([], []) in
      let b2 = add_storage_class fmt checks.storage_class b1 in
      let b3 = add_ingress_class fmt checks.ingress_class b2 in
      let b4 = add fmt "certManager" CheckSpec.cert_manager b3 in
      let b5 = add fmt "clusterResources" resources b4 in
      let xs2 = (version ∷ []) ++ storage_requests checks.storage_class in
      let xs3 = xs2 ++ ingress_requests checks.ingress_class in
      grow b4 b5 (xs3 ++ CheckSpec.cert_manager ∷ []) (resources ∷ [])
        (add-errors "clusterResources" resources b4 (resources_lem checks defaults))
        (grow b3 b4 xs3 (CheckSpec.cert_manager ∷ [])
          (add-errors "certManager" CheckSpec.cert_manager b3 refl)
          (grow b2 b3 xs2 (ingress_requests checks.ingress_class)
            (add_ingress_class-errors checks.ingress_class b2)
            (grow b1 b2 (version ∷ []) (storage_requests checks.storage_class)
              (add_storage_class-errors checks.storage_class b1)
              (add-errors "kubernetesVersion" version ([], [])
                (kind-version_spec checks.kubernetes_version)))))
      ∙ ap errors_of (append_assoc xs3 (CheckSpec.cert_manager ∷ []) (resources ∷ []))
