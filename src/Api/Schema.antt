-- ===== src/Api/Schema.antt =====
-- The validation markers of api/v1alpha1/opendeskpreflightcheck_types.go, which the API server checks
-- on every write: the listed phases and severities, the least lengths, and the map of conditions.
use k_deskflight.Base.{
  String, List, Bool, true, false, not, ◌&&◌, ◌==◌, ◌≡◌, All, AreDistinct, map, if◌then◌else◌,
}
use k_deskflight.Domain.{Severity, Result}
use k_deskflight.Api.{Phase, Condition, PreflightStatus}

-- the Enum of Phase
abbrev pub is_listed_phase : Phase → Bool
is_listed_phase (Phase.other s) = false
is_listed_phase _ = true

-- the Enum of Severity
abbrev pub is_listed_severity : Severity → Bool
is_listed_severity (Severity.other s) = false
is_listed_severity _ = true

-- What the markers ask of the type, the reason and the severity of a condition.
unfoldable pub are_valid_fields : String → String → Severity → Bool
are_valid_fields kind reason severity =
    not (kind == "") && not (reason == "") && is_listed_severity severity

abbrev pub IsValidCondition : Condition → Type 0
IsValidCondition c = are_valid_fields c.kind c.reason c.severity ≡ true

-- The same of the result that a condition is made of.
abbrev pub IsValidResult : Result → Type 0
IsValidResult r = are_valid_fields r.name r.reason r.severity ≡ true

abbrev condition_kind : Condition → String
condition_kind c = c.kind

-- Conditions that are valid, and of which no two have the same type.
abbrev pub AreValid : List Condition → Type 0
AreValid cs = All IsValidCondition cs × AreDistinct (map condition_kind cs)

abbrev pub IsValidStatus : PreflightStatus → Type 0
IsValidStatus st = (is_listed_phase st.phase ≡ true) × AreValid st.conditions

-- A reason that is chosen from two.
pub are_valid_fields_if :
    (b : Bool) (kind s t : String) (severity : Severity)
    → are_valid_fields kind s severity ≡ true
    → are_valid_fields kind t severity ≡ true
    → are_valid_fields kind (if b then s else t) severity ≡ true
are_valid_fields_if true kind s t severity h k = h
are_valid_fields_if false kind s t severity h k = k
