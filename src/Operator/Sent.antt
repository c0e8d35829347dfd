-- ===== src/Operator/Sent.antt =====
-- What the reconciler of the operator sends to the API, for any cluster.
use k_deskflight.Base.{String, List, ◌∷◌, Option, Bool, ◌≡◌, refl, subst, ap, All, map, Memᴰ}
use k_deskflight.Base.Exec.{Exec}
use mathlib.Core.Option.{some-injective}
use k_deskflight.Domain.{Check}
use k_deskflight.Domain.Permission.{PermissionRequest}
use k_deskflight.Domain.Specs.{CheckSpec}
use k_deskflight.Api.{Phase, PreflightStatus, PreflightCheck}
use k_deskflight.Api.Schema.{IsValidStatus}
use k_deskflight.Logging.{LogEntry}
use k_deskflight.Adapters.{Clients, ResourceAttributes, can_i}
use k_deskflight.Registry.{Registry, all_checks}
use k_deskflight.Checks.Naming.{operator_registry-GivesValid}
use k_deskflight.Runner.Validity.{GivesValid}
use k_deskflight.Reconciler.{Request}
use k_deskflight.Reconciler.Writes.{Settled}
use k_deskflight.Reconciler.Steps.Histories.{Records}
use k_deskflight.Reconciler.Steps.Validity.{AnswersValid}
use k_deskflight.Reconciler.Loop.{reconcile}
use k_deskflight.Reconciler.Loop.Settles.{reconcile-Settled}
use k_deskflight.Reconciler.Loop.Validity.Sent.{Sends, reconcile_valid}
use k_deskflight.Operator.Lookups.{LookupsLeave, call-Keeps, run-leaves}
use k_deskflight.Operator.{Platform, discoveries, new_reconciler}

-- The observation is the list of the statuses that were sent to the API: a write of the status adds its
-- own, and no other call of the cluster, the clock, the scheduler or the log changes it.
pub record WatchesStatus {W : Type 0} (p : Platform W) (mgr : p.Manager) (c : Clients W)
    (sent : W → List PreflightStatus) : Type 0 where
  pub lookups : LookupsLeave p c sent
  pub reviews :
      (a : ResourceAttributes) (w : W) → sent (c.self_subject_access_review a w).1 ≡ sent w
  pub races : (w : W) → sent (p.race w).1 ≡ sent w
  pub logs : (e : LogEntry) (w : W) → sent (p.logger e w) ≡ sent w
  pub gets : (req : Request) (w : W) → sent (p.get_object mgr req w).1 ≡ sent w
  pub updates :
      (cr : PreflightCheck) (w : W) → sent (p.update_object mgr cr w).1 ≡ cr.status ∷ sent w

module _ {W : Type 0} (p : Platform W) (mgr : p.Manager) (c : Clients W)
    (sent : W → List PreflightStatus) (watches : WatchesStatus p mgr c sent) where
  can_i-IsSame : (q : PermissionRequest) (w : W) → sent (can_i c q w).1 ≡ sent w
  unfolding can_i
  can_i-IsSame q w =
      call-Keeps sent (sent w) (c.self_subject_access_review _) _ (watches.reviews _) (λ a v h. h) w
        refl

  new_reconciler-Sends : Sends (new_reconciler p mgr c) sent
  unfolding new_reconciler
  new_reconciler-Sends = record {
    leaves = record { clock = watches.lookups.clock; races = watches.races; logs = watches.logs };
    gets = watches.gets;
    updates = watches.updates;
    reviews = λ f e q w.
        subst (λ (g : PermissionRequest → Exec W (Bool × Option String)). sent (g q w).1 ≡ sent w)
          (some-injective _ _ e) (can_i-IsSame q w);
    runs = λ known e.
        subst
          (λ (reg : Registry W).
            (k : Check W)
            → Memᴰ k (all_checks reg)
            → (spec : CheckSpec) (w : W) → sent (k.run spec w).1 ≡ sent w)
          (some-injective _ _ e) (run-leaves p c sent watches.lookups);
  }

  -- If the API gives only objects with valid conditions, after a write if the status that was sent is
  -- valid, then every status that the operator sends is valid, whatever the cluster, the reviewer, the
  -- clock and the deadlines do, and also after a panic: its phase and the severity of each condition
  -- are listed in the schema of the resource, no condition has an empty type or an empty reason, and
  -- no type stands twice. The statuses that were sent are any observation to which a write of the
  -- status adds its own, and that no other call of the cluster, the clock, the scheduler or the log
  -- changes.
  pub new_reconciler_valid :
      ((req : Request) (w : W) → AnswersValid (p.get_object mgr req w).0)
      → ((cr : PreflightCheck) (w : W)
          → IsValidStatus cr.status
          → AnswersValid (p.update_object mgr cr w).0)
      → (req : Request) (w : W) → All IsValidStatus (sent w)
      → All IsValidStatus (sent (reconcile (new_reconciler p mgr c) req w).1.world)
  unfolding new_reconciler
  new_reconciler_valid got stores req w h =
      reconcile_valid (new_reconciler p mgr c) sent new_reconciler-Sends
        (record {
          got = got;
          stores = stores;
          checks = λ known e.
              subst (λ (reg : Registry W). All GivesValid (all_checks reg)) (some-injective _ _ e)
                (operator_registry-GivesValid (discoveries p c));
        })
        req w h

  abbrev pub phases_of : List PreflightStatus → List Phase
  phases_of = map (λ (st : PreflightStatus). st.phase)

  new_reconciler-Records : Records (new_reconciler p mgr c) (λ w. phases_of (sent w))
  new_reconciler-Records =
      let sends = new_reconciler-Sends in
      record {
        leaves = record {
          clock = λ w. ap phases_of (sends.leaves.clock w);
          races = λ w. ap phases_of (sends.leaves.races w);
          logs = λ e w. ap phases_of (sends.leaves.logs e w);
        };
        gets = λ req w. ap phases_of (sends.gets req w);
        updates = λ cr w. ap phases_of (sends.updates cr w);
        reviews = λ f e q w. ap phases_of (sends.reviews f e q w);
        runs = λ known e k m spec w. ap phases_of (sends.runs known e k m spec w);
      }

  -- Whatever the cluster, the reviewer, the clock and the deadlines do, and wherever it panics, the
  -- phases of the statuses that a reconcile of the operator sends are, in this order, at most one
  -- Pending, at most one Running, at most one terminal phase, and after a panic at most one terminal
  -- phase more. The statuses that were sent are any observation to which a write of the status adds
  -- its own, and that no other call of the cluster, the clock, the scheduler or the log changes.
  pub new_reconciler-Settled :
      (req : Request) (w : W)
      → Settled
          (phases_of (sent w))
          (phases_of (sent (reconcile (new_reconciler p mgr c) req w).1.world))
  new_reconciler-Settled req w =
      reconcile-Settled (new_reconciler p mgr c) (λ w. phases_of (sent w)) new_reconciler-Records
        req w
