-- ===== src/Reconciler/Loop/Validity/Sent.antt =====
-- A reconcile sends only statuses that the schema of the resource allows, also after a panic.
use k_deskflight.Base.{
  String, List, ◌∷◌, Option, none, some, Bool, true, false, ◌≡◌, inl, inr, refl, sym, subst, All,
  Memᴰ, Bool-cases, nat_eq, All-of_mem, All-mem,
}
use k_deskflight.Base.Exec.{Outcome, returned, panicked, Exec, continue, pure, ◌>>=◌}
use k_deskflight.Base.Exec.Laws.{Preserves, bind-Preserves, recover-Preserves}
use k_deskflight.Domain.{Check, Time}
use k_deskflight.Domain.Permission.{PermissionRequest}
use k_deskflight.Domain.Specs.{CheckSpec}
use k_deskflight.Api.{PreflightStatus, PreflightCheck}
use k_deskflight.Api.Schema.{are_valid_fields, AreValid, IsValidStatus}
use k_deskflight.Interval.Validity.{normalize_interval-IsValidWarning}
use k_deskflight.Merge.{merge_interval_warning}
use k_deskflight.Registry.{Registry, all_checks}
use k_deskflight.Runner.Invariants.{Leaves, IsQuiet-of_Leaves, ReviewsKeep}
use k_deskflight.Runner.Validity.{GivesValid}
use k_deskflight.Reconciler.{Answer, Request, Reconciler, Session, start, no_result}
use k_deskflight.Reconciler.Outputs.{reconcile_panic_output}
use k_deskflight.Reconciler.Steps.{is_already_reconciled, load, write_status, runner_env}
use k_deskflight.Reconciler.Steps.Validity.{
  ServesValid, AnswersValid, IsFine, Sound, write_status-Sound,
}
use k_deskflight.Reconciler.Loop.{
  after_load, after_get, reconcile_body, reconcile, stamp, attempt_write, log_inner, write_panic,
  write_if_loaded, handle_reconcile_panic,
}
use k_deskflight.Reconciler.Loop.Validity.{merged-IsFit, unless_reconciled-Keeps}

module _ {W : Type 0} (r : Reconciler W) (i : W → Type 0) (serves : ServesValid r i) where
  abbrev Keeps : {A : Type 0} → Exec (Session W) A → Type 0
  Keeps m = Preserves (Sound r i serves) m

  after_load-Keeps :
      (req : Request) (s : Session W)
      → i s.world
      → AreValid s.cr.status.conditions
      → Sound r i serves (after_load r req s).1
  unfolding after_load
  after_load-Keeps req s world valid =
      unless_reconciled-Keeps r i serves (is_already_reconciled s.cr) req _ _ (
        serves.quiet.clock s.world world,
        valid,
        normalize_interval-IsValidWarning r.fmt r.parse_duration s.cr.spec.interval,
      )

  get_then-Keeps :
      (req : Request) (o : Outcome Answer) (s : Session W)
      → AnswersValid o
      → Sound r i serves s
      → Sound r i serves (continue o (after_get r req) s).1
  unfolding after_get
  get_then-Keeps req (returned (Answer.failure e)) s valid h = h
  get_then-Keeps req (returned (Answer.object cr)) s valid (world, _, warned) =
      after_load-Keeps req (load cr s) world valid
  get_then-Keeps req (panicked v) s valid h = h

  body-Keeps : (req : Request) → Keeps (reconcile_body r req)
  unfolding reconcile_body
  body-Keeps req s (world, rest, warned) =
      get_then-Keeps req (r.get req s.world).0 _ (serves.got req s.world)
        (serves.gets req s.world world, rest, warned)

  stamp-Keeps : (now : Time) → Keeps (stamp r now)
  stamp-Keeps now s (world, valid, warned) = elim (Bool-cases (nat_eq now 0)) [
    | inl unset ↦ rw unset (serves.quiet.clock s.world world, valid, warned)
    | inr set ↦ rw set (world, valid, warned)
  ]

  attempt_write-Keeps : (v : String) → Keeps (attempt_write r v)
  unfolding attempt_write reconcile_panic_output are_valid_fields
  attempt_write-Keeps v s h =
      bind-Preserves (Sound r i serves) (stamp r s.now)
        (λ ts.
          write_status r
            (merge_interval_warning (reconcile_panic_output v ts) s.interval_warning ts)
          >>= λ _. pure tt)
        (stamp-Keeps s.now)
        (λ ts.
          let out = merge_interval_warning (reconcile_panic_output v ts) s.interval_warning ts in
          bind-Preserves (Sound r i serves) (write_status r out) (λ _. pure tt)
            (write_status-Sound r i serves out (
              merged-IsFit r i serves (reconcile_panic_output v ts) ts s h
                (refl, ((refl, tt), (tt, tt)))))
            (λ _ t k. k))
        s h

  write_if_loaded-Keeps :
      (b : Bool) (req : Request) (v : String) → Keeps (write_if_loaded r b req v)
  unfolding write_panic
  write_if_loaded-Keeps false req v = λ s h. h
  write_if_loaded-Keeps true req v =
      recover-Preserves (Sound r i serves) (attempt_write r v) (log_inner r req)
        (attempt_write-Keeps v)
        (λ inner t (world, valid, warned). (serves.quiet.logs _ t.world world, valid, warned))

  handle-Keeps : (req : Request) (v : String) → Keeps (handle_reconcile_panic r req v)
  unfolding handle_reconcile_panic
  handle-Keeps req v s (world, valid, warned) =
      bind-Preserves (Sound r i serves) (write_if_loaded r s.cr_loaded req v) (λ _. pure _)
        (write_if_loaded-Keeps s.cr_loaded req v) (λ _ t k. k) _
        (serves.quiet.logs _ s.world world, valid, warned)

  reconcile-keeps_world : (req : Request) (w : W) → i w → i (reconcile r req w).1.world
  unfolding reconcile
  reconcile-keeps_world req w h =
      (recover-Preserves (Sound r i serves) (reconcile_body r req)
        (λ rec. handle_reconcile_panic r req rec >>= λ e. pure (no_result, some e)) (body-Keeps req)
        (λ rec.
          bind-Preserves (Sound r i serves) (handle_reconcile_panic r req rec)
            (λ e. pure (no_result, some e)) (handle-Keeps req rec) (λ e t k. k))
        (start w) (h, (tt, tt), tt)).0

-- The observation is the list of the statuses that were sent: a write of the status adds its own, and
-- nothing else changes it.
pub record Sends {W : Type 0} (r : Reconciler W) (sent : W → List PreflightStatus) : Type 0 where
  pub leaves : Leaves (runner_env r) sent
  pub gets : (req : Request) (w : W) → sent (r.get req w).1 ≡ sent w
  pub updates : (cr : PreflightCheck) (w : W) → sent (r.update_status cr w).1 ≡ cr.status ∷ sent w
  pub reviews :
      (can_i : PermissionRequest → Exec W (Bool × Option String))
      → r.access_reviewer ≡ some can_i
      → (p : PermissionRequest) (w : W) → sent (can_i p w).1 ≡ sent w
  pub runs :
      (registry : Registry W)
      → r.registry ≡ some registry
      → (c : Check W) → Memᴰ c (all_checks registry)
      → (spec : CheckSpec) (w : W) → sent (c.run spec w).1 ≡ sent w

-- The API gives only objects with valid conditions, after a write if the status that was sent is valid;
-- the registered checks have a condition type, and give valid results unless they panic.
pub record TrustsValid {W : Type 0} (r : Reconciler W) : Type 0 where
  pub got : (req : Request) (w : W) → AnswersValid (r.get req w).0
  pub stores :
      (cr : PreflightCheck) (w : W)
      → IsValidStatus cr.status
      → AnswersValid (r.update_status cr w).0
  pub checks :
      (registry : Registry W) → r.registry ≡ some registry → All GivesValid (all_checks registry)

module _ {W : Type 0} (r : Reconciler W) (sent : W → List PreflightStatus) where
  abbrev AllSentValid : W → Type 0
  AllSentValid w = All IsValidStatus (sent w)

  reviews-Keep :
      (reviewer : Option (PermissionRequest → Exec W (Bool × Option String)))
      → ((can_i : PermissionRequest → Exec W (Bool × Option String))
          → reviewer ≡ some can_i
          → (q : PermissionRequest) (w : W) → sent (can_i q w).1 ≡ sent w)
      → ReviewsKeep (runner_env r) AllSentValid reviewer
  reviews-Keep none k = tt
  reviews-Keep (some can_i) k = λ q w. subst (All IsValidStatus) (sym (k can_i refl q w))

  serves_of : Sends r sent → TrustsValid r → ServesValid r AllSentValid
  serves_of sends trusts = record {
    quiet = IsQuiet-of_Leaves (runner_env r) sent (All IsValidStatus) sends.leaves;
    gets = λ req w. subst (All IsValidStatus) (sym (sends.gets req w));
    updates = λ cr w valid h. subst (All IsValidStatus) (sym (sends.updates cr w)) (valid, h);
    got = trusts.got;
    stores = trusts.stores;
    reviews = reviews-Keep r.access_reviewer sends.reviews;
    runs = λ registry wired. All-of_mem (IsFine r AllSentValid) (all_checks registry) (λ c m. (
      (λ spec w. subst (All IsValidStatus) (sym (sends.runs registry wired c m spec w))),
      All-mem GivesValid (all_checks registry) (trusts.checks registry wired) m,
    ));
  }

  -- Every status that a reconcile sends to the API is valid, also after a panic: its phase and the
  -- severity of each condition are listed in the schema of the resource, no condition has an empty
  -- type or an empty reason, and no type stands twice. This holds if the API gives only objects with
  -- valid conditions, and the registered checks have a condition type and give valid results unless
  -- they panic. The statuses that were sent are any observation of the world to which a write of the
  -- status adds its own, and that nothing else changes.
  pub reconcile_valid :
      Sends r sent
      → TrustsValid r
      → (req : Request) (w : W) → All IsValidStatus (sent w)
      → All IsValidStatus (sent (reconcile r req w).1.world)
  reconcile_valid sends trusts req w h =
      reconcile-keeps_world r AllSentValid (serves_of sends trusts) req w h
