-- ===== src/Interval/Validity.antt =====
-- The warning about an interval makes a valid condition.
use k_deskflight.Base.{String, refl, inl, inr, Bool-cases, ◌==◌}
use k_deskflight.Base.Exec.{Fallible, ok, err}
use k_deskflight.Base.Integers.{ℤ, ltb_ℤ}
use k_deskflight.Base.Format.{Fmt}
use k_deskflight.Api.Schema.{are_valid_fields}
use k_deskflight.Interval.{normalize_interval, normalize_parsed, min_interval, max_interval}
use k_deskflight.Merge.Validity.{IsValidWarning}

module _ (fmt : Fmt) (parse_duration : String → Fallible ℤ) where
  normalize_parsed-IsValidWarning :
      (raw : String) (f : Fallible ℤ) → IsValidWarning (normalize_parsed fmt parse_duration raw f).1
  unfolding are_valid_fields
  normalize_parsed-IsValidWarning raw (err text) = refl
  normalize_parsed-IsValidWarning raw (ok parsed) = elim (Bool-cases (ltb_ℤ parsed min_interval)) [
    | inl low ↦ rw low refl
    | inr fits ↦ elim (Bool-cases (ltb_ℤ max_interval parsed)) [
      | inl high ↦ rw (fits, high) refl
      | inr inside ↦ rw (fits, inside) tt
    ]
  ]

  pub normalize_interval-IsValidWarning :
      (raw : String) → IsValidWarning (normalize_interval fmt parse_duration raw).1
  unfolding normalize_interval
  normalize_interval-IsValidWarning raw = elim (Bool-cases (raw == "")) [
    | inl unset ↦ rw unset tt
    | inr given ↦ rw given (normalize_parsed-IsValidWarning raw (parse_duration raw))
  ]
