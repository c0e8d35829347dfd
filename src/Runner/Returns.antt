-- ===== src/Runner/Returns.antt =====
-- A review of permissions does not panic if there is a reviewer, and if the reviewer does not panic.
use k_deskflight.Base.{String, List, [], ◌∷◌, Option, none, some, Bool, ◌≡◌}
use k_deskflight.Base.Exec.{Outcome, returned, panicked, Exec, pure, ◌>>=◌, IsReturned}
use k_deskflight.Base.Exec.Laws.{bind-returns}
use k_deskflight.Base.Maps.{lookup}
use k_deskflight.Domain.{Check}
use k_deskflight.Domain.Permission.{PermissionRequest, permission_eq}
use k_deskflight.Runner.{
  RunnerEnv, RunState, PermOutcome, add_to_bucket, remember, review_if_absent, review,
  classify_permissions,
}

module _ {W : Type 0} (env : RunnerEnv W)
    (can_i : PermissionRequest → Exec W (Bool × Option String)) (wired : env.reviewer ≡ some can_i)
    (answers : (p : PermissionRequest) (w : W) → IsReturned (can_i p w).0) (check : Check W) where
  remember-returns :
      (p : PermissionRequest) (o : Outcome (Bool × Option String)) (s : RunState W)
      → IsReturned o
      → IsReturned (remember env check p o s).0
  unfolding remember
  remember-returns p (returned (allowed, error)) s h = tt
  remember-returns p (panicked v) s h = h

  review_if_absent-returns :
      (p : PermissionRequest) (o : Option PermOutcome) (s : RunState W)
      → IsReturned (review_if_absent env check p o s).0
  unfolding review_if_absent
  review_if_absent-returns p (some outcome) s = tt
  review_if_absent-returns p none s = rw wired (remember-returns p _ _ (answers p s.1))

  review-returns : (p : PermissionRequest) (s : RunState W) → IsReturned (review env check p s).0
  unfolding review
  review-returns p s = review_if_absent-returns p (lookup p s.0) s

  pub classify_permissions-returns :
      (ps : List PermissionRequest) (s : RunState W)
      → IsReturned (classify_permissions env check ps s).0
  unfolding classify_permissions
  classify_permissions-returns [] s = tt
  classify_permissions-returns (p ∷ ps) s =
      bind-returns (review env check p)
        (λ outcome. classify_permissions env check ps >>= λ buckets.
          pure (add_to_bucket p outcome.allowed outcome.error buckets))
        (review-returns p)
        (λ outcome.
          bind-returns (classify_permissions env check ps)
            (λ buckets. pure (add_to_bucket p outcome.allowed outcome.error buckets))
            (classify_permissions-returns ps) (λ buckets t. tt))
        s
