-- ===== src/Interval/Bounds.antt =====
-- What every interval satisfies, whatever the text of the resource and whatever the parser makes of it.
use k_deskflight.Base.{
  String, none, ◌≡◌, ◌≢◌, ◌⊎◌, ◌↔◌, inl, inr, refl, arith, false, ◌==◌, eq_iff, Bool-cases,
}
use k_deskflight.Base.Exec.{Fallible, ok, err}
use k_deskflight.Base.Integers.{ℤ, pos, negsuc, ◌≤ℤ◌}
use k_deskflight.Base.Format.{Fmt}
use k_deskflight.Interval.{
  default_interval, min_interval, max_interval, clamp_parsed, normalize_parsed, normalize_interval,
}

abbrev pub IsAllowed : ℤ → Type 0
IsAllowed d = (min_interval ≤ℤ d) × (d ≤ℤ max_interval)

module _ (fmt : Fmt) (parse_duration : String → Fallible ℤ) where
  clamp_parsed-IsAllowed : (d : ℤ) → IsAllowed (clamp_parsed fmt parse_duration d).0
  clamp_parsed-IsAllowed (pos n) = ground arith
  clamp_parsed-IsAllowed (negsuc n) = ground arith

  normalize_parsed-IsAllowed :
      (raw : String) (r : Fallible ℤ) → IsAllowed (normalize_parsed fmt parse_duration raw r).0
  normalize_parsed-IsAllowed raw (ok d) = clamp_parsed-IsAllowed d
  normalize_parsed-IsAllowed raw (err text) = ground arith

  clamp_parsed_quiet : (d : ℤ) → ((clamp_parsed fmt parse_duration d).1 ≡ none) ↔ IsAllowed d
  clamp_parsed_quiet (pos n) = ground arith
  clamp_parsed_quiet (negsuc n) = ground arith

  clamp_parsed_same : (d : ℤ) → IsAllowed d → (clamp_parsed fmt parse_duration d).0 ≡ d
  clamp_parsed_same (pos n) h = ground arith
  clamp_parsed_same (negsuc n) h = ground arith

  normalize_parsed_quiet :
      (raw : String) (r : Fallible ℤ)
      → (normalize_parsed fmt parse_duration raw r).1 ≡ none
      → (d : ℤ) × (r ≡ ok d) × IsAllowed d × ((normalize_parsed fmt parse_duration raw r).0 ≡ d)
  normalize_parsed_quiet raw (err text) h = cc
  normalize_parsed_quiet raw (ok d) h =
      let allowed = (clamp_parsed_quiet d).0 h in (d, refl, allowed, clamp_parsed_same d allowed)

-- The interval is between 30 seconds and 24 hours, whatever the text and the parser.
pub normalize_interval_bounds :
    (fmt : Fmt) (parse_duration : String → Fallible ℤ) (raw : String)
    → IsAllowed (normalize_interval fmt parse_duration raw).0
unfolding normalize_interval
normalize_interval_bounds fmt parse_duration raw = elim (Bool-cases (raw == "")) [
  | inl absent ↦ rw absent (ground arith)
  | inr given ↦ rw given (normalize_parsed-IsAllowed fmt parse_duration raw (parse_duration raw))
]

-- There is no warning exactly when the text is empty, with the default as the interval, or is read
-- as a duration in the bounds, with that duration as the interval.
pub normalize_interval_quiet_iff :
    (fmt : Fmt) (parse_duration : String → Fallible ℤ) (raw : String)
    → ((normalize_interval fmt parse_duration raw).1 ≡ none) ↔ (
        (raw ≡ "") × ((normalize_interval fmt parse_duration raw).0 ≡ default_interval)
        ⊎ ((d : ℤ) × (raw ≢ "")
            × (parse_duration raw ≡ ok d)
            × IsAllowed d
            × ((normalize_interval fmt parse_duration raw).0 ≡ d)))
unfolding normalize_interval
normalize_interval_quiet_iff fmt parse_duration raw = (
  λ quiet. elim (Bool-cases (raw == "")) [
    | inl absent ↦ inl ((eq_iff raw "").0 absent, rw absent)
    | inr given ↦
        let (d, parsed, allowed, same) =
          normalize_parsed_quiet fmt parse_duration raw (parse_duration raw) (rw given at quiet) in
        inr (d, (λ e. cc ((eq_iff raw "").1 e)), parsed, allowed, rw given same)
  ],
  λ cases. elim cases [
    | inl (empty, _) ↦ rw ((eq_iff raw "").1 empty)
    | inr (d, given, parsed, allowed, _) ↦
        let not_empty : (raw == "") ≡ false = ground (arith, eq_iff raw "") in
        rw (not_empty, parsed) ((clamp_parsed_quiet fmt parse_duration d).1 allowed)
  ],
)
