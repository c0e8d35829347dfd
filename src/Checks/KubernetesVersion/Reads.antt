-- ===== src/Checks/KubernetesVersion/Reads.antt =====
-- The check of the version changes nothing but what its lookup and its clock change.
use k_deskflight.Base.{String, Bool-cases, inl, inr}
use k_deskflight.Base.Exec.{Exec, Fallible, ok, err}
use k_deskflight.Base.Exec.Laws.{Preserves, bind-Preserves}
use k_deskflight.Domain.Specs.{CheckSpec, KubernetesVersionSpec}
use k_deskflight.Checks.{CheckEnv}
use k_deskflight.Checks.KubernetesVersion.{
  Semver, compare_versions, judge_min, judge_server, judge, run_kubernetes_version,
}

module _ {W : Type 0} (env : CheckEnv W) (semver : Semver)
    (server_version : Exec W (Fallible String)) (i : W → Type 0)
    (clock : (w : W) → i w → i (env.now w).1) where
  compare_versions-Keeps :
      (server min : semver.Version)
      → Preserves i (compare_versions env semver server_version server min)
  unfolding compare_versions
  compare_versions-Keeps server min w h = elim (Bool-cases (semver.less_than server min)) [
    | inl below ↦ rw below (clock w h)
    | inr enough ↦ rw enough (clock w h)
  ]

  judge_min-Keeps :
      (s : KubernetesVersionSpec) (server : semver.Version) (min : Fallible semver.Version)
      → Preserves i (judge_min env semver server_version s server min)
  unfolding judge_min
  judge_min-Keeps s server (err text) = clock
  judge_min-Keeps s server (ok min) = compare_versions-Keeps server min

  judge_server-Keeps :
      (s : KubernetesVersionSpec) (raw : String) (server : Fallible semver.Version)
      → Preserves i (judge_server env semver server_version s raw server)
  unfolding judge_server
  judge_server-Keeps s raw (err text) = clock
  judge_server-Keeps s raw (ok server) = λ w. judge_min-Keeps s server _ w

  judge-Keeps :
      (s : KubernetesVersionSpec) (raw : Fallible String)
      → Preserves i (judge env semver server_version s raw)
  unfolding judge
  judge-Keeps s (err text) = clock
  judge-Keeps s (ok raw) = λ w. judge_server-Keeps s raw _ w

  pub run_kubernetes_version-Keeps :
      Preserves i server_version
      → (spec : CheckSpec) → Preserves i (run_kubernetes_version env semver server_version spec)
  unfolding run_kubernetes_version
  run_kubernetes_version-Keeps reads (CheckSpec.kubernetes_version s) =
      bind-Preserves i server_version (judge env semver server_version s) reads (judge-Keeps s)
  run_kubernetes_version-Keeps reads (CheckSpec.storage_class s) = clock
  run_kubernetes_version-Keeps reads (CheckSpec.ingress_class s) = clock
  run_kubernetes_version-Keeps reads CheckSpec.cert_manager = clock
  run_kubernetes_version-Keeps reads (CheckSpec.cluster_resources s) = clock
