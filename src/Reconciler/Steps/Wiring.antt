-- ===== src/Reconciler/Steps/Wiring.antt =====
-- What `Validate` accepts, and what that is good for.
use k_deskflight.Base.{
  String, List, [], ◌∷◌, Option, none, some, Bool, false, ◌≡◌, ◌↔◌, refl, sym, subst, arith, All,
  All-of_mem, All-mono, inl, inr, Bool-cases, not, leb, length,
}
use k_deskflight.Base.Exec.{Exec, IsReturned}
use k_deskflight.Base.Format.{Fmt}
use k_deskflight.Domain.{Check}
use k_deskflight.Domain.Permission.{PermissionRequest}
use mathlib.Core.Option.{some-injective}
use k_deskflight.Registry.{Registry, all_checks}
use k_deskflight.Runner.Returns.{classify_permissions-returns}
use k_deskflight.Runner.{RunState, classify_permissions}
use k_deskflight.Reconciler.{Reconciler}
use k_deskflight.Reconciler.Steps.{
  needs_reviewer, first_unreviewed, validate_wiring, validate_reconciler, runner_env,
}

module _ {W : Type 0} where
  -- A check that is not reviewed, if there is no reviewer.
  abbrev pub IsReviewable :
      Option (PermissionRequest → Exec W (Bool × Option String)) → Check W → Type 0
  IsReviewable none c = c.required_permissions ≡ []
  IsReviewable (some can_i) c = Unit

  none_needed : (c : Check W) → needs_reviewer c ≡ false → c.required_permissions ≡ []
  none_needed c e = go c.required_permissions e
    where
      go : (ps : List PermissionRequest) → not (leb (length ps) 0) ≡ false → ps ≡ []
      go [] h = refl
      go (p ∷ ps) h = ground (arith, h)

  needed : (c : Check W) → c.required_permissions ≡ [] → needs_reviewer c ≡ false
  needed c e = rw e refl

  first_unreviewed_iff :
      (fmt : Fmt) (cs : List (Check W))
      → (first_unreviewed fmt cs ≡ none) ↔ All (λ c. c.required_permissions ≡ []) cs
  unfolding first_unreviewed
  first_unreviewed_iff fmt [] = ((λ _. tt), (λ _. refl))
  first_unreviewed_iff fmt (c ∷ cs) = elim (Bool-cases (needs_reviewer c)) [
    | inl needs ↦
        rw needs ((λ e. cc), (λ h. let free : needs_reviewer c ≡ false = needed c h.0 in cc))
    | inr free ↦ rw free (
      (λ e. (none_needed c free, (first_unreviewed_iff fmt cs).0 e)),
      (λ h. (first_unreviewed_iff fmt cs).1 h.1),
    )
  ]

  validate_wiring_iff :
      (fmt : Fmt) (registry : Option (Registry W))
      (reviewer : Option (PermissionRequest → Exec W (Bool × Option String)))
      → (validate_wiring fmt registry reviewer ≡ none) ↔ (
          (reg : Registry W) × (registry ≡ some reg) × All (IsReviewable reviewer) (all_checks reg))
  unfolding validate_wiring
  validate_wiring_iff fmt none reviewer = ((λ e. cc), (λ (reg, e, h). cc))
  validate_wiring_iff fmt (some reg) (some can_i) =
      ((λ _. (reg, refl, All-of_mem (λ c. Unit) (all_checks reg) (λ c m. tt))), (λ _. refl))
  validate_wiring_iff fmt (some reg) none = (
    (λ e. (reg, refl, (first_unreviewed_iff fmt (all_checks reg)).0 e)),
    (λ (reg', e, h). (first_unreviewed_iff fmt (all_checks reg)).1 (
        subst (λ (x : Registry W). All (λ c. c.required_permissions ≡ []) (all_checks x))
          (sym (some-injective _ _ e)) h)),
  )

module _ {W : Type 0} (r : Reconciler W) where
  -- `Validate` accepts a reconciler exactly if it has a registry, and if it has a reviewer or none of
  -- the registered checks requires a permission.
  pub validate_reconciler_iff : (validate_reconciler r ≡ none) ↔ (
      (registry : Registry W) × (r.registry ≡ some registry)
      × All (IsReviewable r.access_reviewer) (all_checks registry))
  unfolding validate_reconciler
  validate_reconciler_iff = validate_wiring_iff r.fmt r.registry r.access_reviewer

  reviewed-returns :
      (reviewer : Option (PermissionRequest → Exec W (Bool × Option String)))
      → r.access_reviewer ≡ reviewer
      → ((can_i : PermissionRequest → Exec W (Bool × Option String))
          → reviewer ≡ some can_i
          → (p : PermissionRequest) (w : W) → IsReturned (can_i p w).0)
      → (c : Check W) (s : RunState W) → IsReviewable reviewer c
      → IsReturned (classify_permissions (runner_env r) c c.required_permissions s).0
  unfolding classify_permissions
  reviewed-returns none e answers c s free = rw free tt
  reviewed-returns (some can_i) e answers c s _ =
      classify_permissions-returns (runner_env r) can_i e (answers can_i refl) c
        c.required_permissions s

  -- A reconciler that `Validate` accepts has a registry, and the review of the permissions of a check
  -- of it does not panic, for want of a reviewer or otherwise, unless the reviewer itself panics.
  pub validate_reconciler_safe :
      validate_reconciler r ≡ none
      → ((can_i : PermissionRequest → Exec W (Bool × Option String))
          → r.access_reviewer ≡ some can_i
          → (p : PermissionRequest) (w : W) → IsReturned (can_i p w).0)
      → (registry : Registry W) × (r.registry ≡ some registry)
        × All
            (λ (c : Check W).
              (s : RunState W)
              → IsReturned (classify_permissions (runner_env r) c c.required_permissions s).0)
            (all_checks registry)
  validate_reconciler_safe valid answers =
      let (registry, wired, reviewable) = validate_reconciler_iff.0 valid in
      (
        registry,
        wired,
        All-mono (IsReviewable r.access_reviewer) _ (all_checks registry)
            (λ c free s. reviewed-returns r.access_reviewer refl answers c s free) reviewable,
      )
