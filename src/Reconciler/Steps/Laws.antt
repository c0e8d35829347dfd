-- ===== src/Reconciler/Steps/Laws.antt =====
-- What the writes of the status leave behind in the resource that the reconcile works on.
use k_deskflight.Base.{String, Option, none, some, Bool, true, false, ◌≡◌, refl, ap, arith}
use k_deskflight.Base.Exec.{Outcome, returned, panicked, continue}
use k_deskflight.Base.Exec.Laws.{Ensures}
use k_deskflight.Api.{Phase, PreflightCheck}
use k_deskflight.Aggregator.{AggregationOutput}
use k_deskflight.Reconciler.{ApiError, Answer, Reconciler, Session}
use k_deskflight.Reconciler.Outputs.{is_terminal}
use k_deskflight.Reconciler.Steps.{
  is_already_reconciled, stored, update_cr, with_phase, mark_unless, mark_phase, with_output,
  write_status,
}

-- The object in an answer has the generation and the status of the object that was sent: writing the
-- status does not change the generation, and the server gives back what it stored.
abbrev pub Echoes : PreflightCheck → Outcome Answer → Type 0
Echoes cr (returned (Answer.object cr')) =
    (cr'.generation ≡ cr.generation) × (cr'.status ≡ cr.status)
Echoes cr (returned (Answer.failure e)) = Unit
Echoes cr (panicked v) = Unit

abbrev pub KeepsStatus : {W : Type 0} → Reconciler W → Type 0
KeepsStatus {W} r = (cr : PreflightCheck) (w : W) → Echoes cr (r.update_status cr w).0

module _ {W : Type 0} (r : Reconciler W) (keeps : KeepsStatus r) where
  -- The resource has the generation and the status of this one.
  abbrev Has : PreflightCheck → Option ApiError → Session W → Type 0
  Has cr e s = (s.cr.generation ≡ cr.generation) × (s.cr.status ≡ cr.status)

  stored-Has :
      (doing : String) (cr : PreflightCheck) (o : Outcome Answer) (s : Session W)
      → Echoes cr o
      → s.cr ≡ cr
      → Ensures (Has cr) (continue o (stored r doing) s)
  stored-Has doing cr (returned (Answer.object cr')) s h same = h
  stored-Has doing cr (returned (Answer.failure e)) s h same =
      (ap (λ (c : PreflightCheck). c.generation) same, ap (λ (c : PreflightCheck). c.status) same)
  stored-Has doing cr (panicked v) s h same = tt

  update_cr-Has :
      (doing : String) (cr : PreflightCheck) (s : Session W)
      → Ensures (Has cr) (update_cr r doing cr s)
  unfolding update_cr
  update_cr-Has doing cr s =
      stored-Has doing cr (r.update_status cr s.world).0 _ (keeps cr s.world) refl

  -- A failed write of a phase leaves the resource with that phase.
  abbrev pub Marked : Phase → Option ApiError → Session W → Type 0
  Marked phase none s = Unit
  Marked phase (some e) s = s.cr.status.phase ≡ phase

  Marked-of_Has :
      (phase : Phase) (cr : PreflightCheck) (e : Option ApiError) (s : Session W)
      → Has (with_phase r phase cr) e s
      → Marked phase e s
  Marked-of_Has phase cr none s h = tt
  Marked-of_Has phase cr (some e) s (_, same) =
      ap (λ (st : k_deskflight.Api.PreflightStatus). st.phase) same

  Ensures-mono :
      {A : Type 0} (p q : A → Session W → Type 0) (o : Outcome A × Session W)
      → ((a : A) (s : Session W) → p a s → q a s)
      → Ensures p o
      → Ensures q o
  Ensures-mono p q (returned a, s) f h = f a s h
  Ensures-mono p q (panicked v, s) f h = tt

  mark_unless-Marked :
      (b : Bool) (phase : Phase) (s : Session W)
      → Ensures (Marked phase) (mark_unless r b phase s.cr s)
  mark_unless-Marked true phase s = tt
  mark_unless-Marked false phase s =
      Ensures-mono (Has (with_phase r phase s.cr)) (Marked phase)
        (update_cr r _ (with_phase r phase s.cr) s) (λ e t. Marked-of_Has phase s.cr e t)
        (update_cr-Has _ (with_phase r phase s.cr) s)

  pub mark_phase-Marked :
      (phase : Phase) (s : Session W) → Ensures (Marked phase) (mark_phase r phase s)
  unfolding mark_phase
  mark_phase-Marked phase s = mark_unless-Marked _ phase s

  -- After the write of a terminal status, the generation is done, whether the server took it or not.
  abbrev pub IsDone : Option ApiError → Session W → Type 0
  IsDone e s = is_already_reconciled s.cr ≡ true

  IsDone-of_Has :
      (out : AggregationOutput) (cr : PreflightCheck) (e : Option ApiError) (s : Session W)
      → is_terminal out.phase ≡ true
      → Has (with_output r out cr) e s
      → IsDone e s
  unfolding is_already_reconciled
  IsDone-of_Has out cr e s terminal (generation, status) = rw (generation, status) (ground arith)

  pub write_status-IsDone :
      (out : AggregationOutput) (s : Session W)
      → is_terminal out.phase ≡ true
      → Ensures IsDone (write_status r out s)
  unfolding write_status
  write_status-IsDone out s terminal =
      Ensures-mono (Has (with_output r out s.cr)) IsDone (update_cr r _ (with_output r out s.cr) s)
        (λ e t. IsDone-of_Has out s.cr e t terminal) (update_cr-Has _ (with_output r out s.cr) s)
