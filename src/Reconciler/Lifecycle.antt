-- ===== src/Reconciler/Lifecycle.antt =====
-- The life of a status during one reconcile, as the comments on Reconcile and markPhase describe it:
-- Pending and Running are marked without touching anything else, and the end settles the
-- generation.
use k_deskflight.Base.{ℕ, true, false, ◌≡◌, ◌⊎◌, inl, inr, refl}
use k_deskflight.Api.{Phase, PreflightStatus}
use k_deskflight.Reconciler.Outputs.{is_terminal}

-- The second status can be reached from the first while a generation is reconciled.
pub data Lifecycle (generation : ℕ) (first : PreflightStatus) : PreflightStatus → Type 0 where
  rests : Lifecycle generation first first
  marks :
      (s : PreflightStatus) (phase : Phase)
      → is_terminal phase ≡ false
      → Lifecycle generation first s
      → Lifecycle generation first (record s { phase = phase })
  settles :
      (s t : PreflightStatus)
      → is_terminal t.phase ≡ true
      → t.observed_generation ≡ generation
      → Lifecycle generation first s
      → Lifecycle generation first t

-- Until the generation is settled, the status has the conditions, the summary and the observed
-- generation that it had.
pub Lifecycle-keeps :
    (generation : ℕ) (first last : PreflightStatus)
    → Lifecycle generation first last
    → (last.observed_generation ≡ generation)
      ⊎ (last.observed_generation ≡ first.observed_generation)
        × (last.summary ≡ first.summary)
        × (last.conditions ≡ first.conditions)
Lifecycle-keeps generation first last rests = inr (refl, refl, refl)
Lifecycle-keeps generation first last (marks s phase _ l) = Lifecycle-keeps generation first s l
Lifecycle-keeps generation first last (settles s t _ settled _) = inl settled
