-- ===== src/Reconciler/Steps/Moves.antt =====
-- The steps of a reconcile keep the resource on its way through the lifecycle.
use k_deskflight.Base.{String, Bool, true, false, ◌≡◌, sym, subst, ◌∙◌}
use k_deskflight.Base.Exec.{Outcome, returned, panicked, continue}
use k_deskflight.Base.Exec.Laws.{Preserves}
use k_deskflight.Api.{Phase, PreflightCheck}
use k_deskflight.Aggregator.{AggregationOutput}
use k_deskflight.Reconciler.{Answer, Reconciler, Session}
use k_deskflight.Reconciler.Outputs.{is_terminal}
use k_deskflight.Reconciler.Lifecycle.{Lifecycle}
use k_deskflight.Reconciler.Steps.{
  stored, update_cr, with_phase, mark_unless, mark_phase, with_output, write_status,
}
use k_deskflight.Reconciler.Steps.Laws.{KeepsStatus, Echoes}

-- The resource has the generation of the one that was read, and a status that its own leads to.
abbrev pub IsOnTheWay : {W : Type 0} → PreflightCheck → Session W → Type 0
IsOnTheWay read s =
    (s.cr.generation ≡ read.generation) × Lifecycle read.generation read.status s.cr.status

module _ {W : Type 0} (r : Reconciler W) (keeps : KeepsStatus r) (read : PreflightCheck) where
  -- the same of an object
  abbrev Leads : PreflightCheck → Type 0
  Leads cr = (cr.generation ≡ read.generation) × Lifecycle read.generation read.status cr.status

  stored-IsOnTheWay :
      (doing : String) (cr : PreflightCheck) (o : Outcome Answer) (s : Session W)
      → Echoes cr o
      → IsOnTheWay read s
      → Leads cr
      → IsOnTheWay read (continue o (stored r doing) s).1
  stored-IsOnTheWay doing cr (returned (Answer.object cr')) s (generation, status) h (same, way) =
      (generation ∙ same, subst (λ st. Lifecycle read.generation read.status st) (sym status) way)
  stored-IsOnTheWay doing cr (returned (Answer.failure e)) s echoes h leads = h
  stored-IsOnTheWay doing cr (panicked v) s echoes h leads = h

  update_cr-IsOnTheWay :
      (doing : String) (cr : PreflightCheck) (s : Session W)
      → Leads cr
      → IsOnTheWay read (update_cr r doing cr s).1
  unfolding update_cr
  update_cr-IsOnTheWay doing cr s leads =
      stored-IsOnTheWay doing cr (r.update_status cr s.world).0 _ (keeps cr s.world) leads leads

  mark_unless-Preserves :
      (b : Bool) (phase : Phase) (s : Session W)
      → is_terminal phase ≡ false
      → IsOnTheWay read s
      → IsOnTheWay read (mark_unless r b phase s.cr s).1
  mark_unless-Preserves true phase s begun h = h
  mark_unless-Preserves false phase s begun (generation, way) =
      update_cr-IsOnTheWay _ (with_phase r phase s.cr) s
        (generation, Lifecycle.marks s.cr.status phase begun way)

  pub mark_phase-Preserves :
      (phase : Phase) → is_terminal phase ≡ false → Preserves (IsOnTheWay read) (mark_phase r phase)
  unfolding mark_phase
  mark_phase-Preserves phase begun s h = mark_unless-Preserves _ phase s begun h

  pub write_status-Preserves :
      (out : AggregationOutput)
      → is_terminal out.phase ≡ true
      → Preserves (IsOnTheWay read) (write_status r out)
  unfolding write_status
  write_status-Preserves out terminal s (generation, way) =
      update_cr-IsOnTheWay _ (with_output r out s.cr) s
        (generation, Lifecycle.settles s.cr.status _ terminal generation way)
