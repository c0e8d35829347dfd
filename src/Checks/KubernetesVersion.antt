-- ===== src/Checks/KubernetesVersion.antt =====
-- internal/adapter/check/kubernetesversion.go; the semantic versions of Masterminds/semver are a
-- parameter.
pub mod Reads
pub mod Passes
use k_deskflight.Base.{
  Option, String, [], Bool, false, ◌≡◌, ◌↔◌, refl, ◌&◌, Bool-cases, inl, inr, if◌then◌else◌,
}
use k_deskflight.Base.Exec.{returned, Exec, Fallible, ok, err, ◌>>=◌, Fallible-cases}
use k_deskflight.Base.Strings.{trim_space, trim_prefix}
use k_deskflight.Domain.{ConditionStatus, Result, Check, Time}
use k_deskflight.Domain.Specs.{CheckSpec, KubernetesVersionSpec}
use k_deskflight.Api.Schema.{are_valid_fields}
use k_deskflight.Runner.Validity.{MayShow, IsResultOf, continue-MayGive}
use k_deskflight.Checks.{CheckEnv, with_clock, passed, failed, unknown, invalid_spec, HasStatus}

-- What is used of the package semver.
pub record Semver : Type 1 where
  pub Version : Type 0
  pub new_version : String → Fallible Version
  pub less_than : Version → Version → Bool
  pub original : Version → String

unfoldable pub strip_version_prefix : String → String
unfolding trim_space trim_prefix
strip_version_prefix value = trim_prefix (trim_space value) "v"

module _ {W : Type 0} (env : CheckEnv W) (semver : Semver)
    (server_version : Exec W (Fallible String)) where
  -- the method `unknown`
  abbrev version_unknown : String → String → Exec W Result
  version_unknown reason message = unknown env "KubernetesVersionReady" reason message

  compare_versions : semver.Version → semver.Version → Exec W Result
  compare_versions server min =
      if semver.less_than server min
      then failed env "KubernetesVersionReady" "KubernetesVersionTooOld" (
          "server version "
          & semver.original server
          & " is below configured minimum "
          & semver.original min)
      else passed env "KubernetesVersionReady" "KubernetesVersionReady"
          ("server version " & semver.original server & " satisfies minimum " & semver.original min)

  judge_min : KubernetesVersionSpec → semver.Version → Fallible semver.Version → Exec W Result
  unfolding compare_versions
  judge_min s server (ok min) = compare_versions server min
  judge_min s server (err text) =
      version_unknown "MinVersionParseFailed"
        ("cannot parse spec.checks.kubernetesVersion.min " & env.fmt.quote s.min & ": " & text)

  judge_server : KubernetesVersionSpec → String → Fallible semver.Version → Exec W Result
  unfolding judge_min
  judge_server s raw (ok server) =
      judge_min s server (semver.new_version (strip_version_prefix s.min))
  judge_server s raw (err text) =
      version_unknown "ServerVersionParseFailed"
        ("cannot parse server version " & env.fmt.quote raw & ": " & text)

  judge : KubernetesVersionSpec → Fallible String → Exec W Result
  unfolding judge_server
  judge s (err text) =
      version_unknown "ServerVersionLookupFailed" ("server version lookup failed: " & text)
  judge s (ok raw) = judge_server s raw (semver.new_version (strip_version_prefix raw))

  unfoldable pub run_kubernetes_version : CheckSpec → Exec W Result
  unfolding judge
  run_kubernetes_version (CheckSpec.kubernetes_version s) = server_version >>= judge s
  run_kubernetes_version spec = invalid_spec env "KubernetesVersionReady" "kubernetesVersion" spec

  abbrev pub kubernetes_version_check : Check W
  kubernetes_version_check = record {
    name = "kubernetesVersion";
    spec_kind = "kubernetesVersion";
    condition_type = "KubernetesVersionReady";
    required_permissions = [];
    run = run_kubernetes_version;
  }

module _ {W : Type 0} (env : CheckEnv W) (semver : Semver)
    (server_version : Exec W (Fallible String)) where
  compare_versions-MayShow :
      (server min : semver.Version) (w : W)
      → MayShow "KubernetesVersionReady" (compare_versions env semver server_version server min w).0
  unfolding compare_versions are_valid_fields
  compare_versions-MayShow server min w = elim (Bool-cases (semver.less_than server min)) [
    | inl below ↦ rw below (refl, refl)
    | inr enough ↦ rw enough (refl, refl)
  ]

  judge_min-MayShow :
      (s : KubernetesVersionSpec) (server : semver.Version) (min : Fallible semver.Version) (w : W)
      → MayShow "KubernetesVersionReady" (judge_min env semver server_version s server min w).0
  unfolding judge_min are_valid_fields
  judge_min-MayShow s server (err text) w = (refl, refl)
  judge_min-MayShow s server (ok min) w = compare_versions-MayShow server min w

  judge_server-MayShow :
      (s : KubernetesVersionSpec) (raw : String) (server : Fallible semver.Version) (w : W)
      → MayShow "KubernetesVersionReady" (judge_server env semver server_version s raw server w).0
  unfolding judge_server are_valid_fields
  judge_server-MayShow s raw (err text) w = (refl, refl)
  judge_server-MayShow s raw (ok server) w = judge_min-MayShow s server _ w

  judge-MayShow :
      (s : KubernetesVersionSpec) (raw : Fallible String) (w : W)
      → MayShow "KubernetesVersionReady" (judge env semver server_version s raw w).0
  unfolding judge are_valid_fields
  judge-MayShow s (err text) w = (refl, refl)
  judge-MayShow s (ok raw) w = judge_server-MayShow s raw _ w

  pub run_kubernetes_version-MayShow :
      (spec : CheckSpec) (w : W)
      → MayShow "KubernetesVersionReady" (run_kubernetes_version env semver server_version spec w).0
  unfolding run_kubernetes_version are_valid_fields
  run_kubernetes_version-MayShow (CheckSpec.kubernetes_version s) w =
      continue-MayGive (IsResultOf "KubernetesVersionReady") (server_version w).0 _ _
        (judge-MayShow s)
  run_kubernetes_version-MayShow (CheckSpec.storage_class s) w = (refl, refl)
  run_kubernetes_version-MayShow (CheckSpec.ingress_class s) w = (refl, refl)
  run_kubernetes_version-MayShow CheckSpec.cert_manager w = (refl, refl)
  run_kubernetes_version-MayShow (CheckSpec.cluster_resources s) w = (refl, refl)

-- NewKubernetesVersion
abbrev pub new_kubernetes_version :
    {W : Type 0} → CheckEnv W → Semver → Exec W (Fallible String) → Option (W → Time × W) → Check W
new_kubernetes_version env semver server_version now =
    kubernetes_version_check (with_clock env now) semver server_version
