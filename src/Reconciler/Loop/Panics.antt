-- ===== src/Reconciler/Loop/Panics.antt =====
-- What follows a panic: an error, and nothing else.
use k_deskflight.Base.{String, some, Bool, true, false, inl, refl}
use k_deskflight.Base.Exec.{Outcome, returned, panicked, pure, ◌>>=◌, IsReturned}
use k_deskflight.Base.Exec.Laws.{Achieves, recover_with-returns}
use k_deskflight.Reconciler.{ApiError, Request, no_result, Reconciler, Session}
use k_deskflight.Reconciler.Loop.{
  attempt_write, log_inner, write_panic, write_if_loaded, handle_reconcile_panic,
}
use k_deskflight.Reconciler.Loop.Replies.{Ends}

module _ {W : Type 0} (r : Reconciler W) (gone : Type 0) where
  -- A recovery from a panic replies with nothing but an error.
  write_panic-returns :
      (req : Request) (v : String) (s : Session W) → IsReturned (write_panic r req v s).0
  unfolding write_panic
  write_panic-returns req v s =
      recover_with-returns (attempt_write r v s).0 (log_inner r req) (attempt_write r v s).1
        (λ inner t. tt)

  write_if_loaded-returns :
      (b : Bool) (req : Request) (v : String) (s : Session W)
      → IsReturned (write_if_loaded r b req v s).0
  write_if_loaded-returns true req v s = write_panic-returns req v s
  write_if_loaded-returns false req v s = tt

  error_after :
      (e : ApiError) (o : Outcome (Unit {0}) × Session W)
      → IsReturned o.0
      → Achieves
          (Ends gone)
          (((λ (s : Session W). o) >>= (λ _. pure e) >>= (λ e'. pure (no_result, some e'))) o.1)
  error_after e (returned u, s) h = inl refl
  error_after e (panicked v, s) h = h

  pub handle-Achieves :
      (req : Request) (v : String) (s : Session W)
      → Achieves (Ends gone) ((handle_reconcile_panic r req v >>= λ e. pure (no_result, some e)) s)
  unfolding handle_reconcile_panic
  handle-Achieves req v s =
      error_after _ (write_if_loaded r s.cr_loaded req v _)
        (write_if_loaded-returns s.cr_loaded req v _)
