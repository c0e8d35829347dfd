-- ===== src/Reconciler/Steps/Reports.antt =====
-- The steps of a reconcile whose writes are stored: what they leave of the resource's spec and of the
-- warning about the interval, and what the final write leaves in the status.
use k_deskflight.Base.{
  String, List, [], ◌∷◌, Option, none, Bool, true, false, ◌≡◌, refl, ap, map, ◌∙◌,
}
use k_deskflight.Base.Exec.{Outcome, returned, panicked, continue}
use k_deskflight.Base.Exec.Laws.{Achieves, Achieves-mono}
use k_deskflight.Api.{Phase, Condition, PreflightSpec, PreflightStatus, PreflightCheck}
use k_deskflight.Aggregator.{AggregationOutput}
use k_deskflight.Aggregator.Kinds.{kinds}
use k_deskflight.Interval.{ConditionWarning}
use k_deskflight.Reconciler.{ApiError, Answer, Reconciler, Session}
use k_deskflight.Reconciler.Outputs.{sanitize_condition, sanitize_conditions}
use k_deskflight.Reconciler.Steps.{
  stored, update_cr, with_phase, mark_unless, mark_phase, with_output, write_status,
}

-- The API takes a write of the status, and gives back the object as it was sent, its version apart.
abbrev pub Stores : PreflightCheck → Outcome Answer → Type 0
Stores cr (returned (Answer.object cr')) = (cr'.spec ≡ cr.spec) × (cr'.status ≡ cr.status)
Stores cr (returned (Answer.failure e)) = ⊥
Stores cr (panicked v) = ⊥

abbrev pub StoresStatus : {W : Type 0} → Reconciler W → Type 0
StoresStatus {W} r = (cr : PreflightCheck) (w : W) → Stores cr (r.update_status cr w).0

-- The session has this spec and this warning.
abbrev pub Works : {W : Type 0} → PreflightSpec → Option ConditionWarning → Session W → Type 0
Works spec warning s = (s.cr.spec ≡ spec) × (s.interval_warning ≡ warning)

kinds-sanitized : (cs : List Condition) → kinds (map sanitize_condition cs) ≡ kinds cs
kinds-sanitized [] = refl
kinds-sanitized (c ∷ cs) = ap (λ ks. c.kind ∷ ks) (kinds-sanitized cs)

pub kinds-sanitize : (cs : List Condition) → kinds (sanitize_conditions cs) ≡ kinds cs
unfolding sanitize_conditions
kinds-sanitize [] = refl
kinds-sanitize (c ∷ cs) = kinds-sanitized (c ∷ cs)

module _ {W : Type 0} (r : Reconciler W) (stores : StoresStatus r) (spec : PreflightSpec)
    (warning : Option ConditionWarning) where
  -- No error, and the session has the status of this object.
  abbrev Has : PreflightCheck → Option ApiError → Session W → Type 0
  Has cr e s = (e ≡ none) × (s.cr.status ≡ cr.status) × Works spec warning s

  stored-Has :
      (doing : String) (cr : PreflightCheck) (o : Outcome Answer) (s : Session W)
      → Stores cr o
      → cr.spec ≡ spec
      → s.interval_warning ≡ warning
      → Achieves (Has cr) (continue o (stored r doing) s)
  stored-Has doing cr (returned (Answer.object cr')) s (sp, st) same warned =
      (refl, st, (sp ∙ same, warned))
  stored-Has doing cr (returned (Answer.failure e)) s h same warned = absurd h
  stored-Has doing cr (panicked v) s h same warned = absurd h

  update_cr-Has :
      (doing : String) (cr : PreflightCheck) (s : Session W)
      → cr.spec ≡ spec
      → s.interval_warning ≡ warning
      → Achieves (Has cr) (update_cr r doing cr s)
  unfolding update_cr
  update_cr-Has doing cr s same warned =
      stored-Has doing cr (r.update_status cr s.world).0 _ (stores cr s.world) same warned

  -- No error, and the session works on.
  abbrev pub WorksOn : Option ApiError → Session W → Type 0
  WorksOn e s = (e ≡ none) × Works spec warning s

  mark_unless-WorksOn :
      (b : Bool) (phase : Phase) (s : Session W)
      → Works spec warning s
      → Achieves WorksOn (mark_unless r b phase s.cr s)
  mark_unless-WorksOn true phase s h = (refl, h)
  mark_unless-WorksOn false phase s (same, warned) =
      Achieves-mono (Has (with_phase r phase s.cr)) WorksOn
        (update_cr r _ (with_phase r phase s.cr) s) (λ e t (ok, _, works). (ok, works))
        (update_cr-Has _ (with_phase r phase s.cr) s same warned)

  pub mark_phase-WorksOn :
      (phase : Phase) (s : Session W)
      → Works spec warning s
      → Achieves WorksOn (mark_phase r phase s)
  unfolding mark_phase
  mark_phase-WorksOn phase s h = mark_unless-WorksOn _ phase s h

  -- The status has conditions of these types.
  abbrev pub Shows : List Condition → Option ApiError → Session W → Type 0
  Shows cs e s = kinds s.cr.status.conditions ≡ kinds cs

  pub write_status-Shows :
      (out : AggregationOutput) (s : Session W)
      → Works spec warning s
      → Achieves (Shows out.conditions) (write_status r out s)
  unfolding write_status
  write_status-Shows out s (same, warned) =
      Achieves-mono (Has (with_output r out s.cr)) (Shows out.conditions)
        (update_cr r _ (with_output r out s.cr) s)
        (λ e t (_, status, _).
          ap (λ (st : PreflightStatus). kinds st.conditions) status ∙ kinds-sanitize out.conditions)
        (update_cr-Has _ (with_output r out s.cr) s same warned)
