-- ===== src/Merge/Laws.antt =====
-- What the warning adds to the status, and what it leaves.
use k_deskflight.Base.{
  ◌≤◌, List, [], ◌∷◌, some, ◌≡◌, ◌≢◌, ◌⊎◌, inl, inr, refl, sym, subst, arith, Memᴰ, Option-cases,
  mem-perm,
}
use mathlib.Core.List.Memᴰ
use mathlib.Core.List.Permᴰ
use k_deskflight.Domain.{Severity, Time}
use k_deskflight.Api.{Phase, Condition}
use k_deskflight.Aggregator.{AggregationOutput}
use k_deskflight.Interval.{ConditionWarning}
use k_deskflight.Merge.{
  condition_severity_rank, severer, merge_same_type, or_append, warning_condition,
  merge_interval_warning,
}
use k_deskflight.Merge.Sorting.{merge_same_type-inv, sort_conditions-perm}

-- One severity is at least another, in the order critical, warning, info, and then all others.
abbrev pub IsAtLeast : Severity → Severity → Type 0
IsAtLeast a b =
    (b ≡ Severity.critical → a ≡ Severity.critical)
    × (b ≡ Severity.warning → (a ≡ Severity.warning) ⊎ (a ≡ Severity.critical))
    × (b ≡ Severity.info → (a ≡ Severity.info) ⊎ ((a ≡ Severity.warning) ⊎ (a ≡ Severity.critical)))

rank-IsAtLeast :
    (a b : Severity) → condition_severity_rank b ≤ condition_severity_rank a → IsAtLeast a b
rank-IsAtLeast Severity.critical b h = ((λ _. refl), (λ _. inr refl), (λ _. inr (inr refl)))
rank-IsAtLeast Severity.warning Severity.critical h = ground arith
rank-IsAtLeast Severity.warning b h = ((λ e. ground arith), (λ _. inl refl), (λ _. inr (inl refl)))
rank-IsAtLeast Severity.info b h = ((λ e. ground arith), (λ e. ground arith), (λ _. inl refl))
rank-IsAtLeast (Severity.other text) b h =
    ((λ e. ground arith), (λ e. ground arith), (λ e. ground arith))

severer-rank :
    (cond c : Condition)
    → (condition_severity_rank cond.severity ≤ condition_severity_rank (severer cond c).severity)
      × (condition_severity_rank c.severity ≤ condition_severity_rank (severer cond c).severity)
severer-rank cond c = ground arith

-- Among merged conditions there is one of the warning's type, at least as severe.
merge_same_type-has :
    (cond : Condition) (cs ds : List Condition)
    → merge_same_type cond cs ≡ some ds
    → (c : Condition) × Memᴰ c ds
      × (c.kind ≡ cond.kind)
      × (condition_severity_rank cond.severity ≤ condition_severity_rank c.severity)
merge_same_type-has cond [] ds e = unfold merge_same_type in cc
merge_same_type-has cond (c ∷ cs) ds e = elim (merge_same_type-inv cond c cs ds e) [
  | inl (same, made) ↦
      rw made (severer cond c, Memᴰ.head refl, ground arith, (severer-rank cond c).0)
  | inr (ds', found, made) ↦
      let (k, i, named, above) = merge_same_type-has cond cs ds' found in
      rw made (k, Memᴰ.tail i, named, above)
]

-- Conditions of other types stay.
merge_same_type-keeps :
    (cond k : Condition) (cs ds : List Condition)
    → merge_same_type cond cs ≡ some ds
    → k.kind ≢ cond.kind
    → Memᴰ k cs
    → Memᴰ k ds
merge_same_type-keeps cond k [] ds e ne i = unfold merge_same_type in cc
merge_same_type-keeps cond k (c ∷ cs) ds e ne (Memᴰ.head here) =
    elim (merge_same_type-inv cond c cs ds e) [
      | inl (same, made) ↦
          absurd (ne (subst (λ (x : Condition). x.kind ≡ cond.kind) (sym here) same))
      | inr (ds', found, made) ↦ rw made (Memᴰ.head here)
    ]
merge_same_type-keeps cond k (c ∷ cs) ds e ne (Memᴰ.tail i) =
    elim (merge_same_type-inv cond c cs ds e) [
      | inl (same, made) ↦ rw made (Memᴰ.tail i)
      | inr (ds', found, made) ↦
          rw made (Memᴰ.tail (merge_same_type-keeps cond k cs ds' found ne i))
    ]

or_append-has :
    (cond : Condition) (cs : List Condition)
    → (c : Condition) × Memᴰ c (or_append (merge_same_type cond cs) cs cond)
      × (c.kind ≡ cond.kind)
      × (condition_severity_rank cond.severity ≤ condition_severity_rank c.severity)
or_append-has cond cs = elim (Option-cases (merge_same_type cond cs)) [
  | inl missing ↦ rw missing (cond, Memᴰ.append_right cs (Memᴰ.head refl), refl, omega arith)
  | inr (ds, found) ↦ rw found (merge_same_type-has cond cs ds found)
]

or_append-keeps :
    (cond k : Condition) (cs : List Condition)
    → k.kind ≢ cond.kind
    → Memᴰ k cs
    → Memᴰ k (or_append (merge_same_type cond cs) cs cond)
or_append-keeps cond k cs ne i = elim (Option-cases (merge_same_type cond cs)) [
  | inl missing ↦ rw missing (Memᴰ.append_left (cond ∷ []) i)
  | inr (ds, found) ↦ rw found (merge_same_type-keeps cond k cs ds found ne i)
]

merge_interval_warning-has :
    (out : AggregationOutput) (w : ConditionWarning) (now : Time)
    → (c : Condition) × Memᴰ c (merge_interval_warning out (some w) now).conditions
      × (c.kind ≡ w.kind)
      × (condition_severity_rank w.severity ≤ condition_severity_rank c.severity)
unfolding merge_interval_warning
merge_interval_warning-has out w now =
    let (c, i, named, above) = or_append-has (warning_condition w now) out.conditions in
    (c, mem-perm (Permᴰ.symm (sort_conditions-perm _)) i, named, above)

merge_interval_warning-keeps :
    (out : AggregationOutput) (w : ConditionWarning) (now : Time) (k : Condition)
    → k.kind ≢ w.kind
    → Memᴰ k out.conditions
    → Memᴰ k (merge_interval_warning out (some w) now).conditions
unfolding merge_interval_warning
merge_interval_warning-keeps out w now k ne i =
    mem-perm (Permᴰ.symm (sort_conditions-perm _))
      (or_append-keeps (warning_condition w now) k out.conditions ne i)

merge_interval_warning-phase :
    (out : AggregationOutput) (w : ConditionWarning) (now : Time)
    → (out.phase ≡ Phase.passed → (merge_interval_warning out (some w) now).phase ≡ Phase.warning)
      × (out.phase ≡ Phase.failed → (merge_interval_warning out (some w) now).phase ≡ Phase.failed)
      × (out.phase ≡ Phase.warning
          → (merge_interval_warning out (some w) now).phase ≡ Phase.warning)
unfolding merge_interval_warning
merge_interval_warning-phase out w now = (ground arith, ground arith, ground arith)

-- A warning about the interval makes a passed run a warning, leaves a failed run failed and a warning
-- a warning, and never changes the counters. Afterwards there is a condition of the warning's type
-- at least as severe as the warning, and every condition of another type is still there.
pub merge_interval_warning_lem :
    (out : AggregationOutput) (w : ConditionWarning) (now : Time)
    → (out.phase ≡ Phase.passed → (merge_interval_warning out (some w) now).phase ≡ Phase.warning)
      × (out.phase ≡ Phase.failed → (merge_interval_warning out (some w) now).phase ≡ Phase.failed)
      × (out.phase ≡ Phase.warning
          → (merge_interval_warning out (some w) now).phase ≡ Phase.warning)
      × ((merge_interval_warning out (some w) now).summary ≡ out.summary)
      × ((c : Condition) × Memᴰ c (merge_interval_warning out (some w) now).conditions
          × (c.kind ≡ w.kind)
          × IsAtLeast c.severity w.severity)
      × ((k : Condition)
          → k.kind ≢ w.kind
          → Memᴰ k out.conditions
          → Memᴰ k (merge_interval_warning out (some w) now).conditions)
merge_interval_warning_lem out w now =
    let (c, i, named, above) = merge_interval_warning-has out w now in
    let (passed, failed, warned) = merge_interval_warning-phase out w now in
    (
      passed,
      failed,
      warned,
      unfold merge_interval_warning in refl,
      (c, i, named, rank-IsAtLeast c.severity w.severity above),
      merge_interval_warning-keeps out w now,
    )
