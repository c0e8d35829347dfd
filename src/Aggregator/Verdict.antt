-- ===== src/Aggregator/Verdict.antt =====
-- The phase that a run ends in.
use k_deskflight.Base.{ℕ, List, [], ◌∷◌, Bool, true, false, ◌||◌, ◌≡◌, ◌↔◌, arith, any, length}
use k_deskflight.Domain.{Severity, ConditionStatus, Time, Result}
use k_deskflight.Api.{Phase}
use k_deskflight.Aggregator.{Tally, count_result, count_results, derive_phase, aggregate}
use k_deskflight.Aggregator.Counts.{Class, classify, same_class, class_of}

-- Whether some result is of a class.
abbrev pub has : Class → List Result → Bool
has k = any (λ r. same_class (class_of r) k)

module _ (rs : List Result) where
  -- What the results have for each phase, worst first.
  abbrev pub CallsFor : Phase → Type 0
  CallsFor Phase.failed = has Class.hard_failure rs ≡ true
  CallsFor Phase.warning = (has Class.hard_failure rs ≡ false) × (has Class.soft_failure rs ≡ true)
  CallsFor Phase.unknown =
      (has Class.hard_failure rs ≡ false)
      × (has Class.soft_failure rs ≡ false)
      × (has Class.undetermined rs ≡ true)
  CallsFor Phase.passed =
      (has Class.hard_failure rs ≡ false)
      × (has Class.soft_failure rs ≡ false)
      × (has Class.undetermined rs ≡ false)
  CallsFor _ = ⊥

step_critical :
    (st : ConditionStatus) (sev : Severity) (t : Tally)
    → (count_result st sev t).1.has_failed_critical
      ≡ (t.1.has_failed_critical || same_class (classify st sev) Class.hard_failure)
unfolding count_result
step_critical st sev t = ground arith

step_non_crit :
    (st : ConditionStatus) (sev : Severity) (t : Tally)
    → (count_result st sev t).1.has_failed_non_crit
      ≡ (t.1.has_failed_non_crit || same_class (classify st sev) Class.soft_failure)
unfolding count_result
step_non_crit st sev t = ground arith

step_unknown :
    (st : ConditionStatus) (sev : Severity) (t : Tally)
    → (count_result st sev t).1.has_unknown
      ≡ (t.1.has_unknown || same_class (classify st sev) Class.undetermined)
unfolding count_result
step_unknown st sev t = ground arith

flag_critical :
    (rs : List Result) (t : Tally)
    → (count_results rs t).1.has_failed_critical
      ≡ (t.1.has_failed_critical || has Class.hard_failure rs)
unfolding count_results
flag_critical [] t = ground arith
flag_critical (r ∷ rs) t = ground (
  arith,
  step_critical r.status r.severity t,
  flag_critical rs (count_result r.status r.severity t),
)

flag_non_crit :
    (rs : List Result) (t : Tally)
    → (count_results rs t).1.has_failed_non_crit
      ≡ (t.1.has_failed_non_crit || has Class.soft_failure rs)
unfolding count_results
flag_non_crit [] t = ground arith
flag_non_crit (r ∷ rs) t = ground (
  arith,
  step_non_crit r.status r.severity t,
  flag_non_crit rs (count_result r.status r.severity t),
)

flag_unknown :
    (rs : List Result) (t : Tally)
    → (count_results rs t).1.has_unknown ≡ (t.1.has_unknown || has Class.undetermined rs)
unfolding count_results
flag_unknown [] t = ground arith
flag_unknown (r ∷ rs) t = ground (
  arith,
  step_unknown r.status r.severity t,
  flag_unknown rs (count_result r.status r.severity t),
)

derive_phase_iff :
    (rs : List Result) (p : Phase) (total : ℕ)
    → (derive_phase
          (has Class.hard_failure rs)
          (has Class.soft_failure rs)
          (has Class.undetermined rs)
          total
        ≡ p)
      ↔ CallsFor rs p
unfolding derive_phase
derive_phase_iff rs p total = ground arith

-- The phase of a run is decided by the worst result: failed exactly when some result is False and
-- critical; otherwise warning exactly when some result is False; otherwise unknown exactly when some
-- result is Unknown; otherwise passed. It is never another phase.
pub aggregate-phase_iff :
    (rs : List Result) (now : Time) (p : Phase) → ((aggregate rs now).phase ≡ p) ↔ CallsFor rs p
unfolding aggregate
aggregate-phase_iff rs now p =
    rw (flag_critical rs _, flag_non_crit rs _, flag_unknown rs _)
      (derive_phase_iff rs p (length rs))
