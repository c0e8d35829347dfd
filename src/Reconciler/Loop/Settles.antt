-- ===== src/Reconciler/Loop/Settles.antt =====
-- The sequence of the statuses that a reconcile writes, with what it does after a panic.
use k_deskflight.Base.{
  String, List, some, Bool, true, false, refl, sym, subst, nat_eq, Bool-cases, inl, inr,
}
use k_deskflight.Base.Exec.{Outcome, returned, panicked, recover_with, pure, ◌>>=◌}
use k_deskflight.Domain.{Time}
use k_deskflight.Api.{Phase}
use k_deskflight.Logging.{LogEntry}
use k_deskflight.Merge.{merge_interval_warning}
use k_deskflight.Reconciler.{Request, Reconciler, Session, start, Reply, no_result}
use k_deskflight.Reconciler.Outputs.{reconcile_panic_output}
use k_deskflight.Reconciler.Steps.{log, write_status}
use k_deskflight.Reconciler.Steps.Histories.{Leads, Records, bind-Leads, write_status-Leads}
use k_deskflight.Reconciler.Writes.{Finished, Settled, calm, recovered}
use k_deskflight.Reconciler.Loop.Writes.{body-Goes}
use k_deskflight.Reconciler.Loop.{
  reconcile_body, reconcile, stamp, attempt_write, log_inner, write_panic, write_if_loaded,
  handle_reconcile_panic,
}
use k_deskflight.Reconciler.Loop.Replies.{merge-is_terminal}

module _ {W : Type 0} (r : Reconciler W) (history : W → List Phase) (records : Records r history)
    (before : List Phase) where
  stamp-Goes : (p : List Phase → Type 0) (now : Time) → Leads r history records p p (stamp r now)
  stamp-Goes p now s h = elim (Bool-cases (nat_eq now 0)) [
    | inl unset ↦ rw unset (subst p (sym (records.leaves.clock s.world)) h)
    | inr set ↦ rw set h
  ]

  attempt_write-Goes :
      (v : String) → Leads r history records (Finished before) (Settled before) (attempt_write r v)
  unfolding attempt_write reconcile_panic_output
  attempt_write-Goes v s =
      bind-Leads r history records (Finished before) (Finished before) (Settled before)
        (stamp r s.now)
        (λ ts.
          write_status r
            (merge_interval_warning (reconcile_panic_output v ts) s.interval_warning ts)
          >>= λ _. pure tt)
        (λ h k. calm k) (stamp-Goes (Finished before) s.now)
        (λ ts.
          let out = merge_interval_warning (reconcile_panic_output v ts) s.interval_warning ts in
          bind-Leads r history records (Finished before) (Settled before) (Settled before)
            (write_status r out) (λ _. pure tt) (λ h k. k)
            (write_status-Leads r history records (Finished before) (Settled before) out
              (merge-is_terminal (reconcile_panic_output v ts) s.interval_warning ts refl)
              (λ h phase t k. recovered t k))
            (λ _ t k. k))
        s

  logged : (p : List Phase → Type 0) (e : LogEntry) → Leads r history records p p (log r e)
  logged p e s h = subst p (sym (records.leaves.logs e s.world)) h

  write_if_loaded-Goes :
      (b : Bool) (req : Request) (v : String)
      → Leads r history records (Finished before) (Settled before) (write_if_loaded r b req v)
  unfolding write_panic
  write_if_loaded-Goes false req v s h = calm h
  write_if_loaded-Goes true req v s h = inner (attempt_write r v s) (attempt_write-Goes v s h)
    where
      inner :
          (o : Outcome (Unit {0}) × Session W)
          → Settled before (history o.1.world)
          → Settled before (history (recover_with o.0 (log_inner r req) o.1).1.world)
      inner (returned a, t) k = k
      inner (panicked x, t) k = logged (Settled before) _ t k

  handle-Goes :
      (req : Request) (v : String)
      → Leads r history records (Finished before) (Settled before) (handle_reconcile_panic r req v)
  unfolding handle_reconcile_panic
  handle-Goes req v s h =
      bind-Leads r history records (Finished before) (Settled before) (Settled before)
        (write_if_loaded r s.cr_loaded req v) (λ _. pure _) (λ h k. k)
        (write_if_loaded-Goes s.cr_loaded req v) (λ _ t k. k) _ (logged (Finished before) _ s h)

  recovered-Goes :
      (req : Request) (o : Outcome Reply × Session W)
      → Finished before (history o.1.world)
      → Settled before (
          history
            (recover_with o.0
              (λ rec. handle_reconcile_panic r req rec >>= λ e. pure (no_result, some e))
              o.1).1.world)
  recovered-Goes req (returned reply, s) h = calm h
  recovered-Goes req (panicked v, s) h =
      bind-Leads r history records (Finished before) (Settled before) (Settled before)
        (handle_reconcile_panic r req v) (λ e. pure (no_result, some e)) (λ h k. k)
        (handle-Goes req v) (λ e t k. k) s h

-- Whatever the checks, the API and the clock do, and wherever it panics, the phases that a reconcile
-- writes are, in this order, at most one Pending, at most one Running, at most one terminal phase, and
-- after a panic at most one terminal phase more. The history of the writes is any observation of the
-- world to which a write of the status adds its phase, and that nothing else changes.
pub reconcile-Settled :
    {W : Type 0} (r : Reconciler W) (history : W → List Phase)
    → Records r history
    → (req : Request) (w : W) → Settled (history w) (history (reconcile r req w).1.world)
unfolding reconcile
reconcile-Settled r history records req w =
    recovered-Goes r history records (history w) req (reconcile_body r req (start w))
      (body-Goes r history records (history w) req (start w) refl)
