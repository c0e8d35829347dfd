-- ===== src/Aggregator/Counts.antt =====
-- The counters of the summary.
use k_deskflight.Base.{
  ℕ, ◌+◌, ◌%◌, ◌<◌, ◌≤◌, List, [], ◌∷◌, Bool, true, false, ◌≡◌, refl, arith, length, All,
}
use k_deskflight.Base.Integers.{two_32, inc_32}
use k_deskflight.Domain.{Severity, ConditionStatus, Time, Result}
use k_deskflight.Aggregator.{Tally, count_result, count_results, no_tally, aggregate}

-- The four classes of a result, described without the counting loop.
pub data Class : Type 0 where
  pass hard_failure soft_failure undetermined uncounted : Class

abbrev pub classify : ConditionStatus → Severity → Class
classify ConditionStatus.is_true _ = Class.pass
classify ConditionStatus.is_false Severity.critical = Class.hard_failure
classify ConditionStatus.is_false _ = Class.soft_failure
classify ConditionStatus.unknown _ = Class.undetermined
classify (ConditionStatus.other _) _ = Class.uncounted

abbrev pub same_class : Class → Class → Bool
same_class Class.pass Class.pass = true
same_class Class.hard_failure Class.hard_failure = true
same_class Class.soft_failure Class.soft_failure = true
same_class Class.undetermined Class.undetermined = true
same_class Class.uncounted Class.uncounted = true
same_class _ _ = false

abbrev pub class_of : Result → Class
class_of r = classify r.status r.severity

abbrev pub one_if : Bool → ℕ
one_if true = 1
one_if false = 0

-- How many results are of a class.
pub count : Class → List Result → ℕ
count k [] = 0
count k (r ∷ rs) = one_if (same_class (class_of r) k) + count k rs

pub count-le-length : (k : Class) (rs : List Result) → count k rs ≤ length rs
unfolding count
count-le-length k [] = omega arith
count-le-length k (r ∷ rs) = ground (arith, count-le-length k rs)

-- The counter that a class goes to.
abbrev counter : Class → Tally → ℕ
counter Class.pass t = t.0.passed
counter Class.hard_failure t = t.0.failed
counter Class.soft_failure t = t.0.warning
counter Class.undetermined t = t.0.unknown
counter Class.uncounted t = 0

abbrev pub IsCounted : Class → Type 0
IsCounted Class.uncounted = ⊥
IsCounted _ = Unit

counter-count_result :
    (k : Class) (st : ConditionStatus) (sev : Severity) (t : Tally)
    → IsCounted k
    → counter k t < two_32
    → counter k (count_result st sev t)
      ≡ (counter k t + one_if (same_class (classify st sev) k)) % two_32
unfolding count_result inc_32
counter-count_result Class.pass st sev t c h = ground arith
counter-count_result Class.hard_failure st sev t c h = ground arith
counter-count_result Class.soft_failure st sev t c h = ground arith
counter-count_result Class.undetermined st sev t c h = ground arith
counter-count_result Class.uncounted st sev t c h = absurd c

counter-count_results :
    (k : Class) (rs : List Result) (t : Tally)
    → IsCounted k
    → counter k t < two_32
    → counter k (count_results rs t) ≡ (counter k t + count k rs) % two_32
unfolding count_results count
counter-count_results k [] t c h = omega arith
counter-count_results k (r ∷ rs) t c h = omega (
  arith,
  counter-count_result k r.status r.severity t c h,
  counter-count_results k rs (count_result r.status r.severity t) c
      (omega (arith, counter-count_result k r.status r.severity t c h)),
)

checks_total-count_results :
    (rs : List Result) (t : Tally) → (count_results rs t).0.checks_total ≡ t.0.checks_total
unfolding count_results count_result
checks_total-count_results [] t = refl
checks_total-count_results (r ∷ rs) t =
    ground (arith, checks_total-count_results rs (count_result r.status r.severity t))

counter-no_tally : (k : Class) (total : ℕ) (now : Time) → counter k (no_tally total now) ≡ 0
counter-no_tally Class.pass total now = refl
counter-no_tally _ total now = refl

count_lem :
    (k : Class) (rs : List Result) (now : Time)
    → IsCounted k
    → length rs < 2147483648
    → counter k (count_results rs (no_tally (length rs) now)) ≡ count k rs
count_lem k rs now c small = omega (
  arith,
  counter-no_tally k (length rs) now,
  count-le-length k rs,
  counter-count_results k rs (no_tally (length rs) now) c
      (omega (arith, counter-no_tally k (length rs) now)),
)

-- Of fewer than 2^31 results, each counter of the summary is the number of results of its class:
-- True, False with severity critical, False with another severity, Unknown; the total is the number
-- of results.
pub aggregate-counts :
    (rs : List Result) (now : Time)
    → length rs < 2147483648
    → ((aggregate rs now).summary.passed ≡ count Class.pass rs)
      × ((aggregate rs now).summary.failed ≡ count Class.hard_failure rs)
      × ((aggregate rs now).summary.warning ≡ count Class.soft_failure rs)
      × ((aggregate rs now).summary.unknown ≡ count Class.undetermined rs)
      × ((aggregate rs now).summary.checks_total ≡ length rs)
unfolding aggregate
aggregate-counts rs now small = (
  count_lem Class.pass rs now tt small,
  count_lem Class.hard_failure rs now tt small,
  count_lem Class.soft_failure rs now tt small,
  count_lem Class.undetermined rs now tt small,
  omega (arith, checks_total-count_results rs (no_tally (length rs) now)),
)

counts_cover :
    (rs : List Result)
    → All (λ r. IsCounted (class_of r)) rs
    → count Class.pass rs
        + count Class.hard_failure rs
        + count Class.soft_failure rs
        + count Class.undetermined rs
      ≡ length rs
unfolding count
counts_cover [] _ = omega arith
counts_cover (r ∷ rs) (c, h) = ground (arith, counts_cover rs h)

-- Every result is counted once: if the status of each is True, False or Unknown and there are fewer
-- than 2^31 results, the four counters add up to the total.
pub aggregate-sum :
    (rs : List Result) (now : Time)
    → length rs < 2147483648
    → All (λ r. IsCounted (class_of r)) rs
    → (aggregate rs now).summary.passed
        + (aggregate rs now).summary.failed
        + (aggregate rs now).summary.warning
        + (aggregate rs now).summary.unknown
      ≡ (aggregate rs now).summary.checks_total
aggregate-sum rs now small known =
    omega (arith, aggregate-counts rs now small, counts_cover rs known)
