-- ===== src/Checks/CertManager.antt =====
-- internal/adapter/check/certmanager.go
pub mod Reads
use k_deskflight.Base.{Option, String, [], Bool, true, false, ◌↔◌, ◌≡◌, refl, ◌&◌}
use k_deskflight.Base.Exec.{Outcome, returned, panicked, Exec, Fallible, ok, err, ◌>>=◌, continue}
use k_deskflight.Domain.{Severity, ConditionStatus, Result, Check, Time}
use k_deskflight.Domain.Specs.{CheckSpec}
use k_deskflight.Api.Schema.{are_valid_fields}
use k_deskflight.Runner.Validity.{MayShow, IsResultOf, continue-MayGive}
use k_deskflight.Checks.{CheckEnv, with_clock, result_now, passed, unknown, invalid_spec, HasStatus}

-- internal/hexagon/domain
abbrev pub cert_manager_api_group : String
cert_manager_api_group = "cert-manager.io"

abbrev cert_manager_missing_message : String
cert_manager_missing_message =
    "cert-manager.io API group not registered — install cert-manager or configure external TLS termination (severity warning, not failing)"

module _ {W : Type 0} (env : CheckEnv W) (has_api_group : String → Exec W (Fallible Bool)) where
  judge : Fallible Bool → Exec W Result
  judge (err text) =
      unknown env "CertManagerInstalled" "CertManagerLookupFailed"
        ("api group lookup failed: " & text)
  judge (ok false) =
      result_now env "CertManagerInstalled" ConditionStatus.is_false "CertManagerMissing"
        Severity.warning cert_manager_missing_message
  judge (ok true) =
      passed env "CertManagerInstalled" "CertManagerInstalled"
        ("cert-manager.io API group registered (" & cert_manager_api_group & ")")

  unfoldable pub run_cert_manager : CheckSpec → Exec W Result
  unfolding judge
  run_cert_manager CheckSpec.cert_manager = has_api_group cert_manager_api_group >>= judge
  run_cert_manager spec = invalid_spec env "CertManagerInstalled" "certManager" spec

  abbrev pub cert_manager_check : Check W
  cert_manager_check = record {
    name = "certManager";
    spec_kind = "certManager";
    condition_type = "CertManagerInstalled";
    required_permissions = [];
    run = run_cert_manager;
  }

  -- A result that is True, or False with the severity warning, or Unknown: never a failure.
  abbrev pub IsMild : Outcome Result → Type 0
  IsMild (returned r) = (r.status ≡ ConditionStatus.is_false → r.severity ≡ Severity.warning)
  IsMild (panicked v) = Unit

  judge-IsMild : (o : Outcome (Fallible Bool)) (w : W) → IsMild (continue o judge w).0
  unfolding judge
  judge-IsMild (returned (err text)) w = λ e. cc
  judge-IsMild (returned (ok false)) w = λ e. refl
  judge-IsMild (returned (ok true)) w = λ e. cc
  judge-IsMild (panicked v) w = tt

  judge_passes_iff :
      (present : Bool) (w : W)
      → HasStatus ConditionStatus.is_true (judge (ok present) w).0 ↔ (present ≡ true)
  unfolding judge
  judge_passes_iff true w = ((λ _. refl), (λ _. refl))
  judge_passes_iff false w = ((λ e. cc), (λ e. cc))

  -- When the API groups could be listed, the check passes exactly if the group is there.
  pub run_cert_manager_passes_lem :
      (present : Bool) (w w' : W)
      → has_api_group cert_manager_api_group w ≡ (returned (ok present), w')
      → HasStatus ConditionStatus.is_true (run_cert_manager CheckSpec.cert_manager w).0
        ↔ (present ≡ true)
  unfolding run_cert_manager
  run_cert_manager_passes_lem present w w' e = rw e (judge_passes_iff present w')

  -- Whatever the spec and the cluster, a False result of the cert-manager check has the severity
  -- warning, so that it does not make the preflight fail.
  pub run_cert_manager-IsMild : (spec : CheckSpec) (w : W) → IsMild (run_cert_manager spec w).0
  unfolding run_cert_manager
  run_cert_manager-IsMild CheckSpec.cert_manager w =
      judge-IsMild (has_api_group cert_manager_api_group w).0
        (has_api_group cert_manager_api_group w).1
  run_cert_manager-IsMild (CheckSpec.kubernetes_version s) w = λ e. cc
  run_cert_manager-IsMild (CheckSpec.storage_class s) w = λ e. cc
  run_cert_manager-IsMild (CheckSpec.ingress_class s) w = λ e. cc
  run_cert_manager-IsMild (CheckSpec.cluster_resources s) w = λ e. cc

module _ {W : Type 0} (env : CheckEnv W) (has_api_group : String → Exec W (Fallible Bool)) where
  judge-MayShow :
      (present : Fallible Bool) (w : W)
      → MayShow "CertManagerInstalled" (judge env has_api_group present w).0
  unfolding judge are_valid_fields
  judge-MayShow (err text) w = (refl, refl)
  judge-MayShow (ok false) w = (refl, refl)
  judge-MayShow (ok true) w = (refl, refl)

  pub run_cert_manager-MayShow :
      (spec : CheckSpec) (w : W)
      → MayShow "CertManagerInstalled" (run_cert_manager env has_api_group spec w).0
  unfolding run_cert_manager are_valid_fields
  run_cert_manager-MayShow CheckSpec.cert_manager w =
      continue-MayGive (IsResultOf "CertManagerInstalled")
        (has_api_group cert_manager_api_group w).0 _ _ judge-MayShow
  run_cert_manager-MayShow (CheckSpec.kubernetes_version s) w = (refl, refl)
  run_cert_manager-MayShow (CheckSpec.storage_class s) w = (refl, refl)
  run_cert_manager-MayShow (CheckSpec.ingress_class s) w = (refl, refl)
  run_cert_manager-MayShow (CheckSpec.cluster_resources s) w = (refl, refl)

-- NewCertManager
abbrev pub new_cert_manager :
    {W : Type 0} → CheckEnv W → (String → Exec W (Fallible Bool)) → Option (W → Time × W) → Check W
new_cert_manager env has_api_group now = cert_manager_check (with_clock env now) has_api_group
