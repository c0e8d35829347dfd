-- ===== src/Tests/Runs.antt =====
-- One check of a run.
use k_deskflight.Base.{ℕ, [], ◌∷◌, ◌++◌, none, some, true, false, ◌≡◌, ◌≢◌, refl}
use k_deskflight.Base.Exec.{returned}
use k_deskflight.Base.Integers.{pos}
use k_deskflight.Base.Maps.{lookup}
use k_deskflight.Domain.{Check}
use k_deskflight.Domain.Permission.{permission_eq}
use k_deskflight.Domain.Specs.{CheckSpec}
use k_deskflight.Runner.{
  Race, RunnerEnv, PermOutcome, PermissionCache, classify_permissions, run_check_safely,
}
use k_deskflight.Runner.Permissions.{Reviewed, denied_in, failed_in, classify_permissions-Reviewed}
use k_deskflight.Runner.Outcomes.{Names, refusal, run_check_safely-Names, run_check_safely_refused}
use k_deskflight.Tests.Fixtures.{
  plain_fmt, tick, answers, list_nodes, list_classes, storage_check, crashing_check,
}

-- A reviewer that grants everything.
abbrev env : RunnerEnv ℕ
env = record {
  logger = none;
  reviewer = some (λ p. answers (true, none));
  now = tick;
  race = λ w. (Race.result_first none, w);
  check_timeout = pos 0;
  stack = "";
  fmt = plain_fmt;
}

abbrev denied : PermOutcome
denied = record { allowed = false; error = none }

abbrev cache : PermissionCache
cache =
    (list_classes, denied) ∷ (list_nodes, record { allowed = false; error = some "timeout" }) ∷ []

-- The check of the storage classes, with two permissions.
abbrev guarded_check : Check ℕ
guarded_check = record storage_check { required_permissions = list_classes ∷ list_nodes ∷ [] }

run_check_safely-Names_example :
    Names "CertManagerInstalled"
      (run_check_safely env crashing_check CheckSpec.cert_manager ([], 3)).0
run_check_safely-Names_example =
    run_check_safely-Names env crashing_check (λ spec w. tt) CheckSpec.cert_manager ([], 3)

-- The review of one permission that was denied, and of one that could not be reviewed.
reviewed :
    classify_permissions env guarded_check (list_classes ∷ list_nodes ∷ []) (cache, 3)
    ≡ (returned (list_classes ∷ [], list_nodes ∷ []), (cache, 3))
unfolding classify_permissions lookup
reviewed = refl

some_refused :
    denied_in cache (list_classes ∷ list_nodes ∷ [])
      ++ failed_in cache (list_classes ∷ list_nodes ∷ [])
    ≢ []
unfolding denied_in failed_in lookup
some_refused e = cc

run_check_safely_refused_example :
    run_check_safely env guarded_check CheckSpec.cert_manager (cache, 3) ≡ (
      returned (
          refusal env guarded_check
            (denied_in cache (list_classes ∷ list_nodes ∷ []))
            (failed_in cache (list_classes ∷ list_nodes ∷ []))
            3),
      (cache, 4),
    )
run_check_safely_refused_example =
    run_check_safely_refused env guarded_check CheckSpec.cert_manager (cache, 3) (cache, 3)
      (list_classes ∷ [], list_nodes ∷ []) reviewed some_refused

classify_permissions-Reviewed_example :
    Reviewed
      (list_classes ∷ list_nodes ∷ [])
      cache
      (classify_permissions env storage_check (list_classes ∷ list_nodes ∷ []) (cache, 3))
classify_permissions-Reviewed_example =
    classify_permissions-Reviewed env storage_check (list_classes ∷ list_nodes ∷ []) (cache, 3)
