-- ===== src/Checks/StorageClass.antt =====
-- internal/adapter/check/storageclass.go
pub mod Reads
use k_deskflight.Base.{
  Option, String, List, [], ◌∷◌, ◌++◌, Bool, true, false, not, ◌&&◌, ◌||◌, any, All, Memᴰ, map,
  length, ◌≡◌, ◌↔◌, refl, ap, ◌∙◌, arith, if◌then◌else◌, ◌&◌, join, Bool-cases, inl, inr,
}
use k_deskflight.Base.Exec.{returned, Exec, Fallible, ok, err, ◌>>=◌}
use k_deskflight.Base.Maps.{insert, string_eq}
use k_deskflight.Base.Format.{show_nat}
use k_deskflight.Domain.{Severity, ConditionStatus, Result, Check, Time}
use k_deskflight.Domain.Permission.{PermissionRequest}
use k_deskflight.Domain.Specs.{CheckSpec, StorageClassSpec}
use k_deskflight.Api.Schema.{are_valid_fields, are_valid_fields_if}
use k_deskflight.Runner.Validity.{MayShow, IsResultOf, continue-MayGive}
use k_deskflight.Checks.{CheckEnv, with_clock, passed, failed, unknown, invalid_spec, HasStatus}
use k_deskflight.Checks.Presence.{mark, missing_names, is_none_left, missing_names-none_iff}

-- internal/hexagon/port/storage.go
pub record StorageClassInfo : Type 0 where
  pub name : String
  pub is_default : Bool
  pub provisioner : String

abbrev pub storage_permissions : List PermissionRequest
storage_permissions =
    record {
      group = "storage.k8s.io";
      resource = "storageclasses";
      subresource = "";
      verb = "list";
      namespace = "";
    }
    ∷ []

-- the loop over the classes: the names that are present, and whether one is a default
scan : List (String × Bool) → Bool → List StorageClassInfo → List (String × Bool) × Bool
unfolding insert
scan present has_default [] = (present, has_default)
scan present has_default (class ∷ classes) =
    scan (insert class.name true present) (if class.is_default then true else has_default) classes

default_label : Bool → Bool → String
default_label require has =
    if not require then "not required" else if has then "present" else "missing"

missing_diagnostics : List String → List String
missing_diagnostics [] = []
missing_diagnostics (name ∷ names) = ("missing storage classes: " & join ", " (name ∷ names)) ∷ []

default_diagnostics : StorageClassSpec → Bool → List String
default_diagnostics s has_default =
    if s.require_default && not has_default
    then "no default StorageClass present (annotation storageclass.kubernetes.io/is-default-class or legacy beta key required)"
      ∷ []
    else []

module _ {W : Type 0} (env : CheckEnv W)
    (list_storage_classes : Exec W (Fallible (List StorageClassInfo))) where
  -- the method `failed`
  abbrev storage_class_failed : String → String → Exec W Result
  storage_class_failed reason message = failed env "StorageClassReady" reason message

  -- the method `unknown`
  abbrev storage_class_unknown : String → String → Exec W Result
  storage_class_unknown reason message = unknown env "StorageClassReady" reason message

  conclude : StorageClassSpec → Bool → List String → List String → Exec W Result
  unfolding default_label
  conclude s has_default missing [] = passed env "StorageClassReady" "StorageClassReady" (
      "storage classes ok ("
      & show_nat (length s.names)
      & " configured, default: "
      & default_label s.require_default has_default
      & ")")
  conclude s has_default missing (d ∷ ds) =
      storage_class_failed
        (if is_none_left missing then "DefaultStorageClassMissing" else "StorageClassMissing")
        (join "; " (d ∷ ds))

  judge : StorageClassSpec → Fallible (List StorageClassInfo) → Exec W Result
  unfolding scan missing_names missing_diagnostics default_diagnostics conclude
  judge s (err text) =
      storage_class_unknown "StorageClassLookupFailed" ("storage class lookup failed: " & text)
  judge s (ok classes) =
      let (present, has_default) = scan [] false classes in
      let missing = missing_names present s.names in
      conclude s has_default missing
        (missing_diagnostics missing ++ default_diagnostics s has_default)

  unfoldable pub run_storage_class : CheckSpec → Exec W Result
  unfolding judge
  run_storage_class (CheckSpec.storage_class s) = list_storage_classes >>= judge s
  run_storage_class spec = invalid_spec env "StorageClassReady" "storageClass" spec

  abbrev pub storage_class_check : Check W
  storage_class_check = record {
    name = "storageClass";
    spec_kind = "storageClass";
    condition_type = "StorageClassReady";
    required_permissions = storage_permissions;
    run = run_storage_class;
  }

scan_lem :
    (present : List (String × Bool)) (has_default : Bool) (classes : List StorageClassInfo)
    → scan present has_default classes ≡ (
      mark present (map (λ (c : StorageClassInfo). c.name) classes),
      has_default || any (λ (c : StorageClassInfo). c.is_default) classes,
    )
unfolding scan mark
scan_lem present has_default [] = ap (λ d. (present, d)) (ground arith)
scan_lem present has_default (class ∷ classes) =
    scan_lem (insert class.name true present) (if class.is_default then true else has_default)
      classes
    ∙ ap
        (λ d. (
          mark (insert class.name true present) (map (λ (c : StorageClassInfo). c.name) classes),
          d,
        ))
        (ground arith)

module _ {W : Type 0} (env : CheckEnv W)
    (list_storage_classes : Exec W (Fallible (List StorageClassInfo))) where
  conclude_iff :
      (s : StorageClassSpec) (has_default : Bool) (missing : List String) (w : W)
      → HasStatus ConditionStatus.is_true
          (conclude env list_storage_classes s has_default missing
            (missing_diagnostics missing ++ default_diagnostics s has_default)
            w).0
        ↔ (is_none_left missing ≡ true) × (s.require_default ≡ true → has_default ≡ true)
  unfolding conclude missing_diagnostics default_diagnostics
  conclude_iff s has_default (m ∷ ms) w = ((λ e. cc), (λ h. cc))
  conclude_iff s has_default [] w = elim (Bool-cases s.require_default) [
    | inr r ↦ rw r ((λ e. (refl, (λ no. cc))), (λ h. refl))
    | inl r ↦ elim (Bool-cases has_default) [
      | inl d ↦ rw (r, d) ((λ e. (refl, (λ _. refl))), (λ h. refl))
      | inr d ↦ rw (r, d) ((λ e. cc), (λ h. let no : false ≡ true = h.1 refl in cc))
    ]
  ]

  -- When the storage classes could be listed, the check passes exactly if each of the configured
  -- names is the name of a class, and one class is marked as default if that is required.
  pub run_storage_class_passes_iff :
      (s : StorageClassSpec) (classes : List StorageClassInfo) (w w' : W)
      → list_storage_classes w ≡ (returned (ok classes), w')
      → HasStatus ConditionStatus.is_true
          (run_storage_class env list_storage_classes (CheckSpec.storage_class s) w).0
        ↔ All (λ n. Memᴰ n (map (λ (c : StorageClassInfo). c.name) classes)) s.names
          × (s.require_default ≡ true → any (λ (c : StorageClassInfo). c.is_default) classes ≡ true)
  unfolding run_storage_class judge
  run_storage_class_passes_iff s classes w w' e =
      let names = map (λ (c : StorageClassInfo). c.name) classes in
      let verdict =
        conclude_iff s (any (λ (c : StorageClassInfo). c.is_default) classes)
          (missing_names (mark [] names) s.names) w' in
      let present = missing_names-none_iff names s.names in
      rw (e, scan_lem [] false classes)
        ((λ h. (present.0 (verdict.0 h).0, (verdict.0 h).1)), (λ h. verdict.1 (present.1 h.0, h.1)))

module _ {W : Type 0} (env : CheckEnv W)
    (list_storage_classes : Exec W (Fallible (List StorageClassInfo))) where
  conclude-MayShow :
      (s : StorageClassSpec) (d : Bool) (missing ds : List String) (w : W)
      → MayShow "StorageClassReady" (conclude env list_storage_classes s d missing ds w).0
  unfolding conclude are_valid_fields
  conclude-MayShow s d missing [] w = (refl, refl)
  conclude-MayShow s d missing (x ∷ ds) w = (
    refl,
    are_valid_fields_if (is_none_left missing) "StorageClassReady" _ _ Severity.critical refl refl,
  )

  judge-MayShow :
      (s : StorageClassSpec) (classes : Fallible (List StorageClassInfo)) (w : W)
      → MayShow "StorageClassReady" (judge env list_storage_classes s classes w).0
  unfolding judge are_valid_fields
  judge-MayShow s (err text) w = (refl, refl)
  judge-MayShow s (ok classes) w = conclude-MayShow s _ _ _ w

  pub run_storage_class-MayShow :
      (spec : CheckSpec) (w : W)
      → MayShow "StorageClassReady" (run_storage_class env list_storage_classes spec w).0
  unfolding run_storage_class are_valid_fields
  run_storage_class-MayShow (CheckSpec.storage_class s) w =
      continue-MayGive (IsResultOf "StorageClassReady") (list_storage_classes w).0 _ _
        (judge-MayShow s)
  run_storage_class-MayShow (CheckSpec.kubernetes_version s) w = (refl, refl)
  run_storage_class-MayShow (CheckSpec.ingress_class s) w = (refl, refl)
  run_storage_class-MayShow CheckSpec.cert_manager w = (refl, refl)
  run_storage_class-MayShow (CheckSpec.cluster_resources s) w = (refl, refl)

-- NewStorageClass
abbrev pub new_storage_class :
    {W : Type 0}
    → CheckEnv W
    → Exec W (Fallible (List StorageClassInfo))
    → Option (W → Time × W)
    → Check W
new_storage_class env list_storage_classes now =
    storage_class_check (with_clock env now) list_storage_classes
