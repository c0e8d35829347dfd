-- ===== src/Runner/Results.antt =====
-- internal/hexagon/application/runner.go: the results that stand in for a check.
use k_deskflight.Base.{String, List, [], ◌∷◌, map, ◌&◌, join}
use k_deskflight.Base.Integers.{ℤ}
use k_deskflight.Base.Format.{Fmt}
use k_deskflight.Base.Sort.{sort_by}
use k_deskflight.Domain.{Severity, ConditionStatus, Time, utc, Result, Check}
use k_deskflight.Domain.Permission.{PermissionRequest, canonical_string}
use k_deskflight.Logging.{sanitize_message}

abbrev pub text_key : String → String
text_key s = s

abbrev pub join_parts : List String → String
join_parts [] = "(none)"
join_parts (x ∷ xs) = join ", " (sort_by text_key (x ∷ xs))

unfoldable pub join_permissions : List PermissionRequest → String
unfolding sort_by canonical_string
join_permissions perms = join_parts (map canonical_string perms)

module _ {W : Type 0} where
  abbrev pub synthetic : Check W → String → Severity → String → Time → Result
  synthetic check reason severity message ts = record {
    name = check.condition_type;
    status = ConditionStatus.unknown;
    reason = reason;
    severity = severity;
    message = message;
    last_transition = utc ts;
  }

  unfoldable pub rbac_insufficient_result : Check W → List PermissionRequest → Time → Result
  unfolding sanitize_message
  rbac_insufficient_result check missing ts =
      synthetic check "RBACInsufficient" Severity.critical
        (sanitize_message ("missing permissions: " & join_permissions missing)) ts

  unfoldable pub rbac_check_failed_result : Check W → List PermissionRequest → Time → Result
  unfolding sanitize_message
  rbac_check_failed_result check failed ts =
      synthetic check "RBACCheckFailed" Severity.critical
        (sanitize_message ("SelfSubjectAccessReview failed for: " & join_permissions failed)) ts

  unfoldable pub timeout_result : Fmt → Check W → ℤ → Time → Result
  unfolding sanitize_message
  timeout_result fmt check timeout ts =
      synthetic check "Timeout" Severity.critical
        (sanitize_message ("check exceeded per-check timeout (" & fmt.show_duration timeout & ")"))
        ts

  unfoldable pub reconcile_timeout_result : Check W → Time → Result
  unfolding sanitize_message
  reconcile_timeout_result check ts =
      synthetic check "ReconcileTimeout" Severity.critical
        (sanitize_message "reconcile deadline exceeded before check completed") ts

  unfoldable pub reconcile_canceled_result : Check W → Time → Result
  unfolding sanitize_message
  reconcile_canceled_result check ts =
      synthetic check "ReconcileCanceled" Severity.info
        (sanitize_message "reconcile canceled before check completed") ts

  unfoldable pub internal_error_result : Check W → Time → Result
  unfolding sanitize_message
  internal_error_result check ts =
      synthetic check "InternalError" Severity.critical
        (sanitize_message "internal check error (panic recovered)") ts
