-- ===== src/Reconciler/Writes.antt =====
-- The phases that one reconcile writes, the last one first: `Reconcile` marks Pending, then Running, and
-- writes one final status; after a panic it tries one more.
use k_deskflight.Base.{List, ◌∷◌, ◌≡◌, true}
use k_deskflight.Api.{Phase}
use k_deskflight.Reconciler.Outputs.{is_terminal}

module _ (before : List Phase) where
  -- At most Pending was written.
  pub data Begun : List Phase → Type 0 where
    untouched : Begun before
    pending : Begun (Phase.pending ∷ before)

  -- Then at most Running.
  pub data Started : List Phase → Type 0 where
    waiting : {h : List Phase} → Begun h → Started h
    running : {h : List Phase} → Begun h → Started (Phase.running ∷ h)

  -- Then at most one terminal phase.
  pub data Finished : List Phase → Type 0 where
    unfinished : {h : List Phase} → Started h → Finished h
    final : {h : List Phase} {p : Phase} → is_terminal p ≡ true → Started h → Finished (p ∷ h)

  -- Then at most one more, after a panic.
  pub data Settled : List Phase → Type 0 where
    calm : {h : List Phase} → Finished h → Settled h
    recovered : {h : List Phase} {p : Phase} → is_terminal p ≡ true → Finished h → Settled (p ∷ h)
