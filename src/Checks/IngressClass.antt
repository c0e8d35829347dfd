-- ===== src/Checks/IngressClass.antt =====
-- internal/adapter/check/ingressclass.go
pub mod Reads
use k_deskflight.Base.{
  Option, String, List, [], ◌∷◌, Bool, true, All, Memᴰ, map, length, ◌≡◌, ◌↔◌, refl, ◌&◌, join,
}
use k_deskflight.Base.Exec.{returned, Exec, Fallible, ok, err, ◌>>=◌}
use k_deskflight.Base.Maps.{insert, string_eq}
use k_deskflight.Base.Format.{show_nat}
use k_deskflight.Domain.{ConditionStatus, Result, Check, Time}
use k_deskflight.Domain.Permission.{PermissionRequest}
use k_deskflight.Domain.Specs.{CheckSpec, IngressClassSpec}
use k_deskflight.Api.Schema.{are_valid_fields}
use k_deskflight.Runner.Validity.{MayShow, IsResultOf, continue-MayGive}
use k_deskflight.Checks.{CheckEnv, with_clock, passed, failed, unknown, invalid_spec, HasStatus}
use k_deskflight.Checks.Presence.{mark, missing_names, is_none_left, missing_names-none_iff}

-- internal/hexagon/port/ingress.go
pub record IngressClassInfo : Type 0 where
  pub name : String
  pub controller : String

abbrev pub ingress_permissions : List PermissionRequest
ingress_permissions =
    record {
      group = "networking.k8s.io";
      resource = "ingressclasses";
      subresource = "";
      verb = "list";
      namespace = "";
    }
    ∷ []

-- the loop over the classes
mark_classes : List (String × Bool) → List IngressClassInfo → List (String × Bool)
unfolding insert
mark_classes present [] = present
mark_classes present (class ∷ classes) = mark_classes (insert class.name true present) classes

mark_classes_lem :
    (present : List (String × Bool)) (classes : List IngressClassInfo)
    → mark_classes present classes ≡ mark present (map (λ (c : IngressClassInfo). c.name) classes)
unfolding mark_classes mark
mark_classes_lem present [] = refl
mark_classes_lem present (class ∷ classes) =
    mark_classes_lem (insert class.name true present) classes

module _ {W : Type 0} (env : CheckEnv W)
    (list_ingress_classes : Exec W (Fallible (List IngressClassInfo))) where
  -- the method `passed`
  abbrev ingress_class_passed : String → String → Exec W Result
  ingress_class_passed reason message = passed env "IngressClassReady" reason message

  -- the method `failed`
  abbrev ingress_class_failed : String → String → Exec W Result
  ingress_class_failed reason message = failed env "IngressClassReady" reason message

  conclude : IngressClassSpec → List String → Exec W Result
  conclude s (name ∷ names) =
      ingress_class_failed "IngressClassMissing"
        ("missing ingress classes: " & join ", " (name ∷ names))
  conclude s [] =
      ingress_class_passed "IngressClassReady"
        ("ingress classes ok (" & show_nat (length s.names) & " configured)")

  judge : IngressClassSpec → Fallible (List IngressClassInfo) → Exec W Result
  unfolding mark_classes missing_names conclude
  judge s (err text) =
      unknown env "IngressClassReady" "IngressClassLookupFailed"
        ("ingress class lookup failed: " & text)
  judge s (ok classes) = conclude s (missing_names (mark_classes [] classes) s.names)

  unfoldable pub run_ingress_class : CheckSpec → Exec W Result
  unfolding judge
  run_ingress_class (CheckSpec.ingress_class s) = list_ingress_classes >>= judge s
  run_ingress_class spec = invalid_spec env "IngressClassReady" "ingressClass" spec

  abbrev pub ingress_class_check : Check W
  ingress_class_check = record {
    name = "ingressClass";
    spec_kind = "ingressClass";
    condition_type = "IngressClassReady";
    required_permissions = ingress_permissions;
    run = run_ingress_class;
  }

  conclude_iff :
      (s : IngressClassSpec) (missing : List String) (w : W)
      → HasStatus ConditionStatus.is_true (conclude s missing w).0 ↔ (is_none_left missing ≡ true)
  unfolding conclude
  conclude_iff s [] w = ((λ _. refl), (λ _. refl))
  conclude_iff s (name ∷ names) w = ((λ e. cc), (λ e. cc))

  -- When the ingress classes could be listed, the check passes exactly if each of the configured
  -- names is the name of a class.
  pub run_ingress_class_passes_iff :
      (s : IngressClassSpec) (classes : List IngressClassInfo) (w w' : W)
      → list_ingress_classes w ≡ (returned (ok classes), w')
      → HasStatus ConditionStatus.is_true (run_ingress_class (CheckSpec.ingress_class s) w).0
        ↔ All (λ n. Memᴰ n (map (λ (c : IngressClassInfo). c.name) classes)) s.names
  unfolding run_ingress_class judge
  run_ingress_class_passes_iff s classes w w' e =
      let names = map (λ (c : IngressClassInfo). c.name) classes in
      let verdict = conclude_iff s (missing_names (mark [] names) s.names) w' in
      let present = missing_names-none_iff names s.names in
      rw (e, mark_classes_lem [] classes)
        ((λ h. present.0 (verdict.0 h)), (λ h. verdict.1 (present.1 h)))

module _ {W : Type 0} (env : CheckEnv W)
    (list_ingress_classes : Exec W (Fallible (List IngressClassInfo))) where
  conclude-MayShow :
      (s : IngressClassSpec) (missing : List String) (w : W)
      → MayShow "IngressClassReady" (conclude env list_ingress_classes s missing w).0
  unfolding conclude are_valid_fields
  conclude-MayShow s [] w = (refl, refl)
  conclude-MayShow s (x ∷ xs) w = (refl, refl)

  judge-MayShow :
      (s : IngressClassSpec) (classes : Fallible (List IngressClassInfo)) (w : W)
      → MayShow "IngressClassReady" (judge env list_ingress_classes s classes w).0
  unfolding judge are_valid_fields
  judge-MayShow s (err text) w = (refl, refl)
  judge-MayShow s (ok classes) w = conclude-MayShow s _ w

  pub run_ingress_class-MayShow :
      (spec : CheckSpec) (w : W)
      → MayShow "IngressClassReady" (run_ingress_class env list_ingress_classes spec w).0
  unfolding run_ingress_class are_valid_fields
  run_ingress_class-MayShow (CheckSpec.ingress_class s) w =
      continue-MayGive (IsResultOf "IngressClassReady") (list_ingress_classes w).0 _ _
        (judge-MayShow s)
  run_ingress_class-MayShow (CheckSpec.kubernetes_version s) w = (refl, refl)
  run_ingress_class-MayShow (CheckSpec.storage_class s) w = (refl, refl)
  run_ingress_class-MayShow CheckSpec.cert_manager w = (refl, refl)
  run_ingress_class-MayShow (CheckSpec.cluster_resources s) w = (refl, refl)

-- NewIngressClass
abbrev pub new_ingress_class :
    {W : Type 0}
    → CheckEnv W
    → Exec W (Fallible (List IngressClassInfo))
    → Option (W → Time × W)
    → Check W
new_ingress_class env list_ingress_classes now =
    ingress_class_check (with_clock env now) list_ingress_classes
