-- ===== src/Reconciler/Steps/Histories.antt =====
-- What the steps of a reconcile add to the history of the phases that were written.
use k_deskflight.Base.{
  String, List, [], ◌∷◌, Option, none, some, Bool, true, false, ◌≡◌, refl, sym, subst, All,
  All-mono, Memᴰ,
}
use k_deskflight.Base.Exec.{Outcome, returned, panicked, Exec, continue, ◌>>=◌}
use k_deskflight.Domain.{Check, Result}
use k_deskflight.Domain.Permission.{PermissionRequest}
use k_deskflight.Domain.Specs.{CheckSpec}
use k_deskflight.Api.{Phase, PreflightCheck}
use k_deskflight.Logging.{log_result}
use k_deskflight.Aggregator.{AggregationOutput}
use k_deskflight.Registry.{Registry, all_checks}
use k_deskflight.Runner.Invariants.{Leaves, IsQuiet-of_Leaves, ReviewsKeep}
use k_deskflight.Reconciler.{Answer, Request, Reconciler, Session}
use k_deskflight.Reconciler.Outputs.{is_terminal}
use k_deskflight.Reconciler.Steps.{
  in_world, mark_phase, write_status, run_checks, update_cr, stored, with_phase, mark_unless,
  with_output, runner_env, log_results,
}
use k_deskflight.Reconciler.Steps.Reviews.{run_checks-Keeps}

-- The observation is the history of the written phases: a write of the status adds its phase, and
-- nothing else changes it.
pub record Records {W : Type 0} (r : Reconciler W) (history : W → List Phase) : Type 0 where
  pub leaves : Leaves (runner_env r) history
  pub gets : (req : Request) (w : W) → history (r.get req w).1 ≡ history w
  pub updates :
      (cr : PreflightCheck) (w : W) → history (r.update_status cr w).1 ≡ cr.status.phase ∷ history w
  pub reviews :
      (can_i : PermissionRequest → Exec W (Bool × Option String))
      → r.access_reviewer ≡ some can_i
      → (p : PermissionRequest) (w : W) → history (can_i p w).1 ≡ history w
  pub runs :
      (registry : Registry W)
      → r.registry ≡ some registry
      → (c : Check W) → Memᴰ c (all_checks registry)
      → (spec : CheckSpec) (w : W) → history (c.run spec w).1 ≡ history w

module _ {W : Type 0} (r : Reconciler W) (history : W → List Phase)
    (records : Records r history) where
  abbrev pub Seen : (List Phase → Type 0) → Session W → Type 0
  Seen p s = p (history s.world)

  -- An action leads from one property of the history to another one, also when it panics.
  abbrev pub Leads :
      {A : Type 0} → (List Phase → Type 0) → (List Phase → Type 0) → Exec (Session W) A → Type 0
  Leads p q m = (s : Session W) → Seen p s → Seen q (m s).1

  continue-Leads :
      {A B : Type 0} (q t : List Phase → Type 0) (o : Outcome A) (f : A → Exec (Session W) B)
      (s : Session W)
      → ((h : List Phase) → q h → t h)
      → ((a : A) → Leads q t (f a))
      → Seen q s
      → Seen t (continue o f s).1
  continue-Leads q t (returned a) f s weaker k h = k a s h
  continue-Leads q t (panicked v) f s weaker k h = weaker _ h

  pub bind-Leads :
      {A B : Type 0} (p q t : List Phase → Type 0) (m : Exec (Session W) A)
      (f : A → Exec (Session W) B)
      → ((h : List Phase) → q h → t h)
      → Leads p q m
      → ((a : A) → Leads q t (f a))
      → Leads p t (m >>= f)
  bind-Leads p q t m f weaker first next s h =
      continue-Leads q t (m s).0 f (m s).1 weaker next (first s h)

  stored-Seen :
      (p : List Phase → Type 0) (doing : String) (o : Outcome Answer) (s : Session W)
      → Seen p s
      → Seen p (continue o (stored r doing) s).1
  stored-Seen p doing (returned (Answer.object cr)) s h = h
  stored-Seen p doing (returned (Answer.failure e)) s h = h
  stored-Seen p doing (panicked v) s h = h

  update_cr-Leads :
      (p q : List Phase → Type 0) (doing : String) (cr : PreflightCheck)
      → ((h : List Phase) → p h → q (cr.status.phase ∷ h))
      → Leads p q (update_cr r doing cr)
  unfolding update_cr
  update_cr-Leads p q doing cr adds s h =
      stored-Seen q doing (r.update_status cr s.world).0 _
        (subst q (sym (records.updates cr s.world)) (adds (history s.world) h))

  pub mark_phase-Leads :
      (p q : List Phase → Type 0) (phase : Phase)
      → ((h : List Phase) → p h → q h)
      → ((h : List Phase) → p h → q (phase ∷ h))
      → Leads p q (mark_phase r phase)
  unfolding mark_phase
  mark_phase-Leads p q phase stays adds s h = mark _ s h
    where
      mark : (b : Bool) (s' : Session W) → Seen p s' → Seen q (mark_unless r b phase s'.cr s').1
      mark true s' k = stays _ k
      mark false s' k = update_cr-Leads p q _ (with_phase r phase s'.cr) adds s' k

  pub write_status-Leads :
      (p q : List Phase → Type 0) (out : AggregationOutput)
      → is_terminal out.phase ≡ true
      → ((h : List Phase) (phase : Phase) → is_terminal phase ≡ true → p h → q (phase ∷ h))
      → Leads p q (write_status r out)
  unfolding write_status
  write_status-Leads p q out terminal adds s h =
      update_cr-Leads p q _ (with_output r out s.cr) (λ h'. adds h' out.phase terminal) s h

  -- The checks of a run write no status.
  pub run_checks-Leads :
      (p : List Phase → Type 0) (registry : Registry W)
      → r.registry ≡ some registry
      → (active : List (Check W)) (specs : List (String × CheckSpec))
      → All (λ c. Memᴰ c (all_checks registry)) active
      → Leads p p (in_world (run_checks r active specs))
  run_checks-Leads p registry wired active specs known s =
      run_checks-Keeps r (λ w. p (history w)) active specs
        (IsQuiet-of_Leaves (runner_env r) history p records.leaves)
        (reviews r.access_reviewer (λ can_i e. records.reviews can_i e))
        (All-mono _ _ active (λ c i spec w. subst p (sym (records.runs registry wired c i spec w)))
          known)
        s.world
    where
      reviews :
          (reviewer : Option (PermissionRequest → Exec W (Bool × Option String)))
          → ((can_i : PermissionRequest → Exec W (Bool × Option String))
              → reviewer ≡ some can_i
              → (q : PermissionRequest) (w : W) → history (can_i q w).1 ≡ history w)
          → ReviewsKeep (runner_env r) (λ w. p (history w)) reviewer
      reviews none k = tt
      reviews (some can_i) k = λ q w. subst p (sym (k can_i refl q w))

  -- Logging writes no status.
  pub log_results-Leads :
      (p : List Phase → Type 0) (req : Request) (results : List Result) (w : W)
      → p (history w)
      → p (history (log_results r req results w))
  unfolding log_results log_result
  log_results-Leads p req [] w h = h
  log_results-Leads p req (res ∷ results) w h =
      log_results-Leads p req results _ (subst p (sym (records.leaves.logs _ w)) h)
