-- ===== src/Reconciler/Loop/Replies.antt =====
-- How a reconcile may end, and the statuses that it may end with.
use k_deskflight.Base.{List, Option, none, some, true, false, ◌≡◌, ◌⊎◌, inr, refl, arith}
use k_deskflight.Base.Exec.{Outcome, returned, panicked}
use k_deskflight.Base.Integers.{ℤ}
use k_deskflight.Domain.{Time, Result}
use k_deskflight.Aggregator.{AggregationOutput, aggregate, derive_phase}
use k_deskflight.Interval.{ConditionWarning}
use k_deskflight.Interval.Bounds.{IsAllowed}
use k_deskflight.Merge.{merge_interval_warning, escalate_phase}
use k_deskflight.Reconciler.{
  ErrorKind, ApiError, Answer, no_result, after_interval, requeue_now, Session, Reply,
}
use k_deskflight.Reconciler.Outputs.{is_terminal}
use k_deskflight.Reconciler.Steps.{is_already_reconciled}

-- The API answered that there is no such resource.
abbrev pub IsGone : Outcome Answer → Type 0
IsGone (returned (Answer.failure e)) = e.kind ≡ ErrorKind.not_found
IsGone (returned (Answer.object cr)) = ⊥
IsGone (panicked v) = ⊥

-- A reply without an error comes in three ways: the resource is gone, and there is nothing to come
-- back for; the reconcile is to be repeated at once, and the resource is not done; or it is to come
-- back after an interval in the bounds, and the generation is done. With an error, the controller
-- decides when to come back.
abbrev pub Ends : {W : Type 0} → Type 0 → Reply → Session W → Type 0
Ends gone (res, none) s =
    gone × (res ≡ no_result)
    ⊎ (res ≡ requeue_now) × (is_already_reconciled s.cr ≡ false)
    ⊎ (res.requeue ≡ false) × IsAllowed res.requeue_after × (is_already_reconciled s.cr ≡ true)
Ends gone (res, some e) s = (res ≡ no_result) ⊎ (res.requeue ≡ false) × IsAllowed res.requeue_after

pub Ends-of_done :
    {W : Type 0} (gone : Type 0) (interval : ℤ) (e : Option ApiError) (s : Session W)
    → IsAllowed interval
    → is_already_reconciled s.cr ≡ true
    → Ends gone (after_interval interval, e) s
Ends-of_done gone interval none s allowed done = inr (inr (refl, allowed, done))
Ends-of_done gone interval (some e) s allowed done = inr (refl, allowed)

-- The statuses that are written at the end are terminal.
pub aggregate-is_terminal :
    (results : List Result) (now : Time) → is_terminal (aggregate results now).phase ≡ true
unfolding aggregate derive_phase
aggregate-is_terminal results now = ground arith

pub merge-is_terminal :
    (out : AggregationOutput) (w : Option ConditionWarning) (now : Time)
    → is_terminal out.phase ≡ true
    → is_terminal (merge_interval_warning out w now).phase ≡ true
unfolding merge_interval_warning escalate_phase
merge-is_terminal out none now h = h
merge-is_terminal out (some w) now h = ground arith
