-- ===== src/Topology.antt =====
-- internal/hexagon/application/leader_topology.go: the guard against several operator pods without
-- leader election.
pub mod Namespace
pub mod Passes
use k_deskflight.Base.{
  ℕ, ◌≤◌, ◌+◌, String, List, [], ◌∷◌, Option, none, some, Bool, true, false, not, ◌&&◌, ◌||◌, ◌==◌,
  ltb, ◌≡◌, ◌≢◌, ◌⊎◌, ◌↔◌, inl, inr, refl, ap, arith, eq_iff, if◌then◌else◌, ◌&◌, Bool-cases, All,
}
use k_deskflight.Base.Exec.{Outcome, returned, Exec, Fallible, ok, err, pure, ◌>>=◌}
use k_deskflight.Base.Integers.{ℤ, pos, negsuc, ltb_ℤ, ◌≤ℤ◌}
use k_deskflight.Base.Format.{Fmt, show_nat, show_ℤ}

abbrev pub single_pod_topology_mismatch_reason : String
single_pod_topology_mismatch_reason = "SinglePodTopologyMismatch"

-- Pod.Status.Phase is Running or Pending
abbrev pub is_active : String → Bool
is_active phase = phase == "Running" || phase == "Pending"

-- the loop over the pods
unfoldable pub count_active : ℕ → List String → ℕ
count_active active [] = active
count_active active (phase ∷ phases) =
    count_active (if is_active phase then active + 1 else active) phases

-- Running or Pending, as a description, and that it holds of at most one of the phases.
abbrev pub IsActive : String → Type 0
IsActive phase = (phase ≡ "Running") ⊎ (phase ≡ "Pending")

abbrev pub AtMostOneActive : List String → Type 0
AtMostOneActive [] = Unit
AtMostOneActive (phase ∷ phases) =
    (IsActive phase → All (λ other. ¬ IsActive other) phases) × AtMostOneActive phases

is_active_iff : (phase : String) → (is_active phase ≡ true) ↔ IsActive phase
is_active_iff phase = ground (arith, eq_iff phase "Running", eq_iff phase "Pending")

count_active-le : (n : ℕ) (phases : List String) → n ≤ count_active n phases
unfolding count_active
count_active-le n [] = omega arith
count_active-le n (phase ∷ phases) = elim (Bool-cases (is_active phase)) [
  | inl active ↦ rw active (omega (arith, count_active-le (n + 1) phases))
  | inr other ↦ rw other (count_active-le n phases)
]

-- A count stays where it is exactly if no pod is active.
count_active_same :
    (n : ℕ) (phases : List String)
    → (count_active n phases ≤ n) ↔ All (λ phase. ¬ IsActive phase) phases
unfolding count_active
count_active_same n [] = ((λ _. tt), (λ _. omega arith))
count_active_same n (phase ∷ phases) = elim (Bool-cases (is_active phase)) [
  | inl active ↦ rw active (
    (λ (h : count_active (n + 1) phases ≤ n).
        let no : ⊥ = omega (arith, count_active-le (n + 1) phases) in absurd no),
    (λ (idle, _). absurd (idle ((is_active_iff phase).0 active))),
  )
  | inr other ↦ rw other (
    (λ h. ((λ active. cc ((is_active_iff phase).1 active)), (count_active_same n phases).0 h)),
    (λ (_, rest). (count_active_same n phases).1 rest),
  )
]

AtMostOneActive-of_none :
    (phases : List String) → All (λ phase. ¬ IsActive phase) phases → AtMostOneActive phases
AtMostOneActive-of_none [] _ = tt
AtMostOneActive-of_none (phase ∷ phases) (idle, rest) =
    ((λ active. absurd (idle active)), AtMostOneActive-of_none phases rest)

count_active_few : (phases : List String) → (count_active 0 phases ≤ 1) ↔ AtMostOneActive phases
unfolding count_active
count_active_few [] = ((λ _. tt), (λ _. omega arith))
count_active_few (phase ∷ phases) = elim (Bool-cases (is_active phase)) [
  | inl active ↦ rw active (
    (λ h.
        let none_else = (count_active_same 1 phases).0 h in
        ((λ _. none_else), AtMostOneActive-of_none phases none_else)),
    (λ (alone, _). (count_active_same 1 phases).1 (alone ((is_active_iff phase).0 active))),
  )
  | inr other ↦ rw other (
    (λ h. ((λ active. cc ((is_active_iff phase).1 active)), (count_active_few phases).0 h)),
    (λ (_, rest). (count_active_few phases).1 rest),
  )
]

abbrev mismatch : String → Option String
mismatch text = some (single_pod_topology_mismatch_reason & ": " & text)

-- The pods of a namespace by a selector, each by its phase.
module _ {W : Type 0} (fmt : Fmt)
    (list_pods : String → String → Exec W (Fallible (List String))) where
  judge_count : String → String → ℕ → Option String
  judge_count namespace selector active =
      if ltb 1 active
      then mismatch (
          "--leader-elect=false expects 1 operator pod but "
          & show_nat active
          & " are active in namespace "
          & fmt.quote namespace
          & " (label="
          & fmt.quote selector
          & ")")
      else none

  judge_pods : String → String → Fallible (List String) → Option String
  unfolding count_active judge_count
  judge_pods namespace selector (err text) =
      mismatch ("list pods in " & fmt.quote namespace & ": " & text)
  judge_pods namespace selector (ok phases) = judge_count namespace selector (count_active 0 phases)

  abbrev normalized_replicas : ℤ → ℤ
  normalized_replicas n = if ltb_ℤ n (pos 1) then pos 1 else n

  guard_selector : Bool → String → String → Exec W (Option String)
  unfolding judge_pods
  guard_selector true namespace selector = pure (
      mismatch (
        "empty label selector — refusing to count pods in namespace "
        & fmt.quote namespace
        & " without a selector"))
  guard_selector false namespace selector =
      list_pods namespace selector >>= λ pods. pure (judge_pods namespace selector pods)

  guard_replicas : Bool → ℤ → String → String → Exec W (Option String)
  unfolding guard_selector
  guard_replicas true n namespace selector = pure (
      mismatch (
        "--leader-elect=false with --expected-replica-count="
        & show_ℤ n
        & " (>1) is a configuration error; either enable leader election or set --expected-replica-count=1"))
  guard_replicas false n namespace selector = guard_selector (selector == "") namespace selector

  unfoldable pub enforce_single_pod_topology : String → String → ℤ → Bool → Exec W (Option String)
  unfolding guard_replicas
  enforce_single_pod_topology namespace selector replicas true = pure none
  enforce_single_pod_topology namespace selector replicas false =
      let n = normalized_replicas replicas in guard_replicas (ltb_ℤ (pos 1) n) n namespace selector

  -- When the guard lets the operator start without leader election.
  abbrev pub IsSinglePod : String → ℤ → Fallible (List String) → Type 0
  IsSinglePod selector replicas answer =
      (replicas ≤ℤ pos 1)
      × (selector ≢ "")
      × ((phases : List String) × (answer ≡ ok phases) × AtMostOneActive phases)

  judge_pods_iff :
      (namespace selector : String) (answer : Fallible (List String))
      → (judge_pods namespace selector answer ≡ none)
        ↔ ((phases : List String) × (answer ≡ ok phases) × AtMostOneActive phases)
  unfolding judge_pods judge_count
  judge_pods_iff namespace selector (err text) = ((λ e. cc), (λ (phases, e, _). cc))
  judge_pods_iff namespace selector (ok phases) = (
    (λ e.
        let few : count_active 0 phases ≤ 1 = ground arith in
        (phases, refl, (count_active_few phases).0 few)),
    (λ (others, e, small).
        let same : phases ≡ others = cc in
        let few : count_active 0 phases ≤ 1 = (count_active_few phases).1 (rw same small) in
        ground arith),
  )

  replicas_iff : (n : ℤ) → (ltb_ℤ (pos 1) (normalized_replicas n) ≡ false) ↔ (n ≤ℤ pos 1)
  replicas_iff (pos n) = ground arith
  replicas_iff (negsuc n) = ground arith

  returned_iff : (a b : Option String) → (Outcome.returned a ≡ returned b) ↔ (a ≡ b)
  returned_iff a b = ((λ e. cc), (λ e. ap returned e))

  single_of :
      (selector : String) (replicas : ℤ) (answer : Fallible (List String))
      → (false ≡ true) ⊎ IsSinglePod selector replicas answer
      → IsSinglePod selector replicas answer
  single_of selector replicas answer (inl e) = cc
  single_of selector replicas answer (inr h) = h

  -- If the pods can be listed without a panic, the operator may start exactly when leader election is
  -- on, or at most one replica is expected, the selector is not empty, and the list has at most one
  -- pod that is running or pending.
  pub enforce_single_pod_topology_iff :
      (namespace selector : String) (replicas : ℤ) (elect : Bool) (w w' : W)
      (answer : Fallible (List String))
      → list_pods namespace selector w ≡ (returned answer, w')
      → ((enforce_single_pod_topology namespace selector replicas elect w).0 ≡ returned none)
        ↔ ((elect ≡ true) ⊎ IsSinglePod selector replicas answer)
  unfolding enforce_single_pod_topology guard_replicas guard_selector
  enforce_single_pod_topology_iff namespace selector replicas true w w' answer e =
      ((λ _. inl refl), (λ _. refl))
  enforce_single_pod_topology_iff namespace selector replicas false w w' answer e =
      elim (Bool-cases (ltb_ℤ (pos 1) (normalized_replicas replicas))) [
        | inl many ↦ rw many (
          (λ h. cc),
          (λ h.
              let one : ltb_ℤ (pos 1) (normalized_replicas replicas) ≡ false =
                (replicas_iff replicas).1 (single_of selector replicas answer h).0 in
              cc),
        )
        | inr few ↦ elim (Bool-cases (selector == "")) [
          | inl empty ↦
              rw (few, empty)
                (
                  (λ h. cc),
                  (λ h.
                      absurd
                        ((single_of selector replicas answer h).1 ((eq_iff selector "").0 empty))),
                )
          | inr given ↦
              rw (few, given, e)
                (
                  (λ h. inr (
                    (replicas_iff replicas).0 few,
                    (λ same. cc ((eq_iff selector "").1 same)),
                    (judge_pods_iff namespace selector answer).0 ((returned_iff _ none).0 h),
                  )),
                  (λ h. ap returned (
                      (judge_pods_iff namespace selector answer).1
                        (single_of selector replicas answer h).2)),
                )
        ]
      ]
