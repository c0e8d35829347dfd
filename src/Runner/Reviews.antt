-- ===== src/Runner/Reviews.antt =====
-- What the reviewer is asked for in the course of several checks.
use k_deskflight.Base.{
  String, List, ◌∷◌, Option, none, some, Bool, ◌≡◌, ◌≢◌, sym, subst, arith, All, All-mono,
  AreDistinct, Option-cases, inl, inr, ◌∙◌, All-mem,
}
use k_deskflight.Base.Exec.{Outcome, returned, panicked, Exec, IsReturned}
use k_deskflight.Base.Exec.Laws.{Preserves}
use k_deskflight.Base.Maps.{lookup, insert, lookup-insert}
use k_deskflight.Domain.{Check}
use k_deskflight.Domain.Permission.{PermissionRequest, request_eq_iff, permission_eq}
use k_deskflight.Domain.Specs.{CheckSpec}
use k_deskflight.Runner.{
  RunnerEnv, RunState, PermOutcome, PermissionCache, call_reviewer, remember, review_if_absent,
  review, run_check_safely,
}
use k_deskflight.Runner.Invariants.{
  Leaves, IsQuiet-of_Leaves, classify_permissions-Keeps, run_check_safely-Keeps,
}

-- Permissions, each once, that the cache knows and that may be asked for.
abbrev pub AreAskedOnce :
    (PermissionRequest → Type 0) → PermissionCache → List PermissionRequest → Type 0
AreAskedOnce allowed cache asked =
    All (λ p. (lookup p cache ≢ none) × allowed p) asked × AreDistinct asked

AreAskedOnce-ask :
    (allowed : PermissionRequest → Type 0) (p : PermissionRequest) (o : PermOutcome)
    (cache : PermissionCache) (asked : List PermissionRequest)
    → allowed p
    → lookup p cache ≡ none
    → AreAskedOnce allowed cache asked
    → AreAskedOnce allowed (insert p o cache) (p ∷ asked)
AreAskedOnce-ask allowed p o cache asked may absent (known, distinct) = (
  (
    (ground (arith, lookup-insert p p o cache, request_eq_iff p p), may),
    All-mono _ _ asked (λ q (k, a). (ground (arith, lookup-insert p q o cache), a)) known,
  ),
  (
    All-mono _ _ asked (λ q (k, a) (e : p ≡ q). k (subst (λ x. lookup x cache ≡ none) e absent))
        known,
    distinct,
  ),
)

-- The reviewer answers, and is seen to be asked.
abbrev pub IsSeen :
    {W : Type 0}
    → (W → List PermissionRequest)
    → Option (PermissionRequest → Exec W (Bool × Option String))
    → Type 0
IsSeen asked none = Unit
IsSeen {W} asked (some can_i) =
    (p : PermissionRequest) (w : W) → IsReturned (can_i p w).0 × (asked (can_i p w).1 ≡ p ∷ asked w)

module _ {W : Type 0} (env : RunnerEnv W) (asked : W → List PermissionRequest)
    (leaves : Leaves env asked) (allowed : PermissionRequest → Type 0) where
  abbrev pub AsksOnce : RunState W → Type 0
  AsksOnce s = AreAskedOnce allowed s.0 (asked s.1)

  answered :
      (check : Check W) (p : PermissionRequest) (cache : PermissionCache) (w : W)
      (o : Outcome (Bool × Option String)) (w' : W)
      → allowed p
      → lookup p cache ≡ none
      → AreAskedOnce allowed cache (asked w)
      → IsReturned o
      → asked w' ≡ p ∷ asked w
      → AsksOnce (remember env check p o (cache, w')).1
  unfolding remember
  answered check p cache w (panicked v) w' may absent h r e = absurd r
  answered check p cache w (returned (ok, none)) w' may absent h r e =
      subst (AreAskedOnce allowed _) (sym e)
        (AreAskedOnce-ask allowed p _ cache (asked w) may absent h)
  answered check p cache w (returned (ok, some text)) w' may absent h r e =
      subst (AreAskedOnce allowed _) (sym (leaves.logs _ w' ∙ e))
        (AreAskedOnce-ask allowed p _ cache (asked w) may absent h)

  asks :
      (reviewer : Option (PermissionRequest → Exec W (Bool × Option String)))
      → IsSeen asked reviewer
      → (check : Check W) (p : PermissionRequest) (cache : PermissionCache) (w : W) → allowed p
      → lookup p cache ≡ none
      → AreAskedOnce allowed cache (asked w)
      → AsksOnce
          (remember env check p
            (call_reviewer env reviewer p w).0
            (cache, (call_reviewer env reviewer p w).1)).1
  unfolding remember
  asks none seen check p cache w may absent h = h
  asks (some can_i) seen check p cache w may absent h =
      let (r, e) = seen p w in answered check p cache w (can_i p w).0 (can_i p w).1 may absent h r e

  review-AsksOnce :
      IsSeen asked env.reviewer
      → (check : Check W) (p : PermissionRequest) → allowed p
      → Preserves AsksOnce (review env check p)
  unfolding review review_if_absent
  review-AsksOnce seen check p may (cache, w) h = elim (Option-cases (lookup p cache)) [
    | inl absent ↦ rw absent (asks env.reviewer seen check p cache w may absent h)
    | inr (o, found) ↦ rw found h
  ]

  -- A checked run asks for permissions that the check requires and that no check asked for before.
  pub run_check_safely-AsksOnce :
      IsSeen asked env.reviewer
      → (check : Check W) (spec : CheckSpec)
      → ((s : CheckSpec) (w : W) → asked (check.run s w).1 ≡ asked w)
      → All allowed check.required_permissions
      → Preserves AsksOnce (run_check_safely env check spec)
  run_check_safely-AsksOnce seen check spec runs may =
      let quiet =
        λ (c : PermissionCache). IsQuiet-of_Leaves env asked (AreAskedOnce allowed c) leaves in
      run_check_safely-Keeps env (λ c w. AreAskedOnce allowed c (asked w)) quiet check spec
        (λ c s w h. subst (AreAskedOnce allowed c) (sym (runs s w)) h)
        (classify_permissions-Keeps env (λ c w. AreAskedOnce allowed c (asked w)) quiet check
          check.required_permissions
          (λ p i. review-AsksOnce seen check p (All-mem allowed check.required_permissions may i)))
