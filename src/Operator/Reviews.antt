-- ===== src/Operator/Reviews.antt =====
-- What a run of the operator asks the reviewer for, and what the markers grant.
use k_deskflight.Base.{String, List, [], ◌∷◌, Bool, ◌≡◌, All, All-mem, All-mono, AreDistinct, Memᴰ}
use k_deskflight.Base.Exec.{Outcome, returned, panicked, continue, Fallible, IsReturned, pure}
use k_deskflight.Domain.{Check}
use k_deskflight.Domain.Permission.{PermissionRequest}
use k_deskflight.Domain.Specs.{CheckSpec}
use k_deskflight.Logging.{LogEntry}
use k_deskflight.Adapters.{Clients, attributes_of, review_answer, can_i}
use k_deskflight.Registry.{all_checks, list_by_profile}
use k_deskflight.Registry.Members.{list_by_profile-registered}
use k_deskflight.Checks.Naming.{operator_registry}
use k_deskflight.Markers.Grants.{IsGranted, required_permissions-IsGranted}
use k_deskflight.Reconciler.Steps.{run_checks}
use k_deskflight.Reconciler.Steps.Reviews.{IsRequired, run_checks-asks_once}
use k_deskflight.Operator.Lookups.{LookupsLeave, run-leaves}
use k_deskflight.Operator.{Platform, discoveries, new_reconciler}

-- The observation is the list of the permissions that were asked for: each review adds its own, and
-- returns, and no other call changes it.
pub record WatchesReviews {W : Type 0} (p : Platform W) (c : Clients W)
    (asked : W → List PermissionRequest) : Type 0 where
  pub lookups : LookupsLeave p c asked
  pub seen :
      (q : PermissionRequest) (w : W)
      → IsReturned (c.self_subject_access_review (attributes_of q) w).0
        × (asked (c.self_subject_access_review (attributes_of q) w).1 ≡ q ∷ asked w)
  pub races : (w : W) → asked (p.race w).1 ≡ asked w
  pub logs : (e : LogEntry) (w : W) → asked (p.logger e w) ≡ asked w

module _ {W : Type 0} (p : Platform W) (mgr : p.Manager) (c : Clients W)
    (asked : W → List PermissionRequest) (watches : WatchesReviews p c asked) (profile : String)
    (specs : List (String × CheckSpec)) where
  -- The checks that the operator selects.
  abbrev pub selected_checks : List (Check W)
  selected_checks = (list_by_profile (operator_registry (discoveries p c)) profile specs).0

  answered :
      (q : PermissionRequest) (before : List PermissionRequest) (o : Outcome (Fallible Bool))
      (w : W)
      → IsReturned o
      → asked w ≡ before
      → IsReturned (continue o (λ answer. pure (review_answer q answer)) w).0
        × (asked (continue o (λ answer. pure (review_answer q answer)) w).1 ≡ before)
  answered q before (returned a) w h same = (tt, same)
  answered q before (panicked v) w h same = absurd h

  can_i-seen :
      (q : PermissionRequest) (w : W)
      → IsReturned (can_i c q w).0 × (asked (can_i c q w).1 ≡ q ∷ asked w)
  unfolding can_i
  can_i-seen q w =
      let (returns, adds) = watches.seen q w in answered q (q ∷ asked w) _ _ returns adds

  registered :
      (check : Check W)
      → Memᴰ check selected_checks
      → Memᴰ check (all_checks (operator_registry (discoveries p c)))
  registered check =
      All-mem (λ (k : Check W). Memᴰ k (all_checks (operator_registry (discoveries p c))))
        selected_checks
        (list_by_profile-registered (operator_registry (discoveries p c)) profile specs)

  IsGranted-of_IsRequired :
      (q : PermissionRequest) → IsRequired (new_reconciler p mgr c) selected_checks q → IsGranted q
  IsGranted-of_IsRequired q (check, m, i) =
      All-mem IsGranted check.required_permissions
        (All-mem (λ (k : Check W). All IsGranted k.required_permissions)
          (all_checks (operator_registry (discoveries p c)))
          (required_permissions-IsGranted (discoveries p c)) (registered check m))
        i

  -- If the review of a permission returns, whatever its answer, then a run of the operator that
  -- starts with no permission asked for asks for each permission at most once, over all its checks,
  -- and only for permissions that the RBAC markers grant. The permissions that were asked for are any
  -- observation to which each review adds its own, and that no other call of the cluster, the clock,
  -- the scheduler or the log changes.
  pub new_reconciler_reviews :
      (w : W)
      → asked w ≡ []
      → AreDistinct (asked (run_checks (new_reconciler p mgr c) selected_checks specs w).1)
        × All IsGranted (asked (run_checks (new_reconciler p mgr c) selected_checks specs w).1)
  unfolding new_reconciler
  new_reconciler_reviews w start =
      let (once, required) =
        run_checks-asks_once (new_reconciler p mgr c) asked selected_checks specs w
          (record {
            leaves = record {
              clock = watches.lookups.clock;
              races = watches.races;
              logs = watches.logs;
            };
            seen = can_i-seen;
            runs = λ check m. run-leaves p c asked watches.lookups check (registered check m);
          })
          start in
      (
        once,
        All-mono (IsRequired (new_reconciler p mgr c) selected_checks) IsGranted _
            IsGranted-of_IsRequired required,
      )
