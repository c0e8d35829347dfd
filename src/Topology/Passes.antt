-- ===== src/Topology/Passes.antt =====
-- What is known when the guard against several pods lets the operator pass.
use k_deskflight.Base.{
  String, List, none, Bool, true, false, ◌==◌, ◌≡◌, ◌⊎◌, inl, inr, refl, Bool-cases, eq_iff,
}
use k_deskflight.Base.Exec.{Outcome, returned, panicked, Exec, Fallible, pure, continue}
use k_deskflight.Base.Exec.Laws.{Preserves, bind-Preserves}
use k_deskflight.Base.Integers.{ℤ, pos, ltb_ℤ}
use k_deskflight.Base.Format.{Fmt}
use k_deskflight.Topology.{
  judge_pods, judge_pods_iff, normalized_replicas, replicas_iff, guard_selector, guard_replicas,
  enforce_single_pod_topology, IsSinglePod,
}

module _ {W : Type 0} (fmt : Fmt)
    (list_pods : String → String → Exec W (Fallible (List String))) where
  judged :
      (namespace selector : String) (o : Outcome (Fallible (List String))) (w : W)
      → (continue o (λ pods. pure (judge_pods fmt list_pods namespace selector pods)) w).0
        ≡ returned none
      → (answer : Fallible (List String)) × (o ≡ returned answer)
        × (judge_pods fmt list_pods namespace selector answer ≡ none)
  judged namespace selector (returned answer) w e = (answer, refl, cc)
  judged namespace selector (panicked v) w e = cc

  -- The guard lets the operator pass only with leader election, or after it listed the pods and found
  -- at most one.
  pub enforce_single_pod_topology-inv :
      (namespace selector : String) (replicas : ℤ) (elect : Bool) (w : W)
      → (enforce_single_pod_topology fmt list_pods namespace selector replicas elect w).0
        ≡ returned none
      → (elect ≡ true)
        ⊎ ((answer : Fallible (List String)) × ((list_pods namespace selector w).0
              ≡ returned answer)
            × IsSinglePod fmt list_pods selector replicas answer)
  unfolding enforce_single_pod_topology guard_replicas guard_selector
  enforce_single_pod_topology-inv namespace selector replicas true w e = inl refl
  enforce_single_pod_topology-inv namespace selector replicas false w e =
      elim (Bool-cases (ltb_ℤ (pos 1) (normalized_replicas fmt list_pods replicas))) [
        | inl many ↦ cc (rw many at e)
        | inr few ↦ elim (Bool-cases (selector == "")) [
          | inl empty ↦ cc (rw (few, empty) at e)
          | inr given ↦
              let (answer, listed, fine) =
                judged namespace selector (list_pods namespace selector w).0
                  (list_pods namespace selector w).1 (rw (few, given) at e) in
              inr (
                answer,
                listed,
                (
                  (replicas_iff fmt list_pods replicas).0 few,
                  (λ same. cc ((eq_iff selector "").1 same)),
                  (judge_pods_iff fmt list_pods namespace selector answer).0 fine,
                ),
              )
        ]
      ]

  -- The guard keeps what the listing of the pods keeps.
  pub enforce_single_pod_topology-Preserves :
      (i : W → Type 0)
      → ((namespace selector : String) → Preserves i (list_pods namespace selector))
      → (namespace selector : String) (replicas : ℤ) (elect : Bool)
      → Preserves i (enforce_single_pod_topology fmt list_pods namespace selector replicas elect)
  unfolding enforce_single_pod_topology
  enforce_single_pod_topology-Preserves i lists namespace selector replicas true w h = h
  enforce_single_pod_topology-Preserves i lists namespace selector replicas false w h =
      replicas-Preserves _ _ w h
    where
      selector-Preserves :
          (b : Bool) → Preserves i (guard_selector fmt list_pods b namespace selector)
      selector-Preserves true w' k = k
      selector-Preserves false w' k =
          bind-Preserves i (list_pods namespace selector) _ (lists namespace selector)
            (λ pods v l. l) w' k

      replicas-Preserves :
          (b : Bool) (n : ℤ) → Preserves i (guard_replicas fmt list_pods b n namespace selector)
      replicas-Preserves true n w' k = k
      replicas-Preserves false n w' k = selector-Preserves _ w' k
