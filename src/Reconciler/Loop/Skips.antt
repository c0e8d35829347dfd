-- ===== src/Reconciler/Loop/Skips.antt =====
-- A reconcile of a generation that is done.
use k_deskflight.Base.{none, true, ◌≡◌, ◌≢◌, inl, inr, refl, ap, subst}
use k_deskflight.Base.Exec.{Outcome, returned}
use k_deskflight.Base.Exec.Laws.{Achieves}
use k_deskflight.Api.{PreflightCheck}
use k_deskflight.Interval.{normalize_interval}
use k_deskflight.Reconciler.{
  Answer, Request, CtrlResult, no_result, after_interval, requeue_now, Reconciler, Session, Reply,
}
use k_deskflight.Reconciler.Steps.{is_already_reconciled, now_of}
use k_deskflight.Reconciler.Steps.Laws.{KeepsStatus}
use k_deskflight.Reconciler.Loop.{
  after_get, after_load, unless_reconciled, reconcile_body, reconcile,
}
use k_deskflight.Reconciler.Loop.Replies.{IsGone, Ends}
use k_deskflight.Reconciler.Loop.Ends.{reconcile-Ends}

module _ {W : Type 0} (r : Reconciler W) where
  -- A reconcile of a resource whose generation is done only reads the resource and the clock: it runs
  -- no check and writes no status, and comes back after the interval of the resource.
  reconcile_skips :
      (req : Request) (cr : PreflightCheck) (w w' : W)
      → r.get req w ≡ (returned (Answer.object cr), w')
      → is_already_reconciled cr ≡ true
      → reconcile r req w ≡ (
        returned
            (after_interval (normalize_interval r.fmt r.parse_duration cr.spec.interval).0, none),
        record {
          world = (now_of r w').1;
          cr = cr;
          cr_loaded = true;
          interval_warning = (normalize_interval r.fmt r.parse_duration cr.spec.interval).1;
          now = (now_of r w').0;
        },
      )
  unfolding reconcile reconcile_body after_get after_load unless_reconciled
  reconcile_skips req cr w w' got done = rw (got, done) refl

  done_of_Ends :
      (gone : Type 0) (res : CtrlResult) (s : Session W)
      → res ≢ no_result
      → res ≢ requeue_now
      → Ends gone (res, none) s
      → is_already_reconciled s.cr ≡ true
  done_of_Ends gone res s something later (inl (_, e)) = absurd (something e)
  done_of_Ends gone res s something later (inr (inl (e, _))) = absurd (later e)
  done_of_Ends gone res s something later (inr (inr (_, _, done))) = done

  -- If a reconcile ended without an error and is to come back after an interval, and the API then
  -- gives the resource as that reconcile left it, the next reconcile has the reply to come back after
  -- the interval, and changes nothing: of the world it uses the resource and the clock only. This
  -- holds if the API answers a write of the status that it takes with the object as it was sent, its
  -- version apart.
  pub reconcile_once :
      KeepsStatus r
      → (req : Request) (w : W) (res : CtrlResult) (s : Session W)
      → reconcile r req w ≡ (returned (res, none), s)
      → res ≢ no_result
      → res ≢ requeue_now
      → (w' w'' : W) → r.get req w' ≡ (returned (Answer.object s.cr), w'')
      → ((reconcile r req w').0
          ≡ returned (
            after_interval (normalize_interval r.fmt r.parse_duration s.cr.spec.interval).0,
            none,
          ))
        × ((reconcile r req w').1.world ≡ (now_of r w'').1)
  reconcile_once keeps req w res s ended something later w' w'' got =
      let done = done_of_Ends (IsGone (r.get req w).0) res s something later (
        subst (λ o. Achieves (Ends (IsGone (r.get req w).0)) o) ended
          (reconcile-Ends r keeps req w)) in
      let skipped = reconcile_skips req s.cr w' w'' got done in
      (
        ap (λ (o : Outcome Reply × Session W). o.0) skipped,
        ap (λ (o : Outcome Reply × Session W). o.1.world) skipped,
      )
