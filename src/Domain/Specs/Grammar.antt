-- ===== src/Domain/Specs/Grammar.antt =====
-- What the validation of a Kubernetes version accepts.
use Prim.Native.Char.{code}
use k_deskflight.Base.{
  ◌≤◌, String, List, [], ◌∷◌, Option, none, some, true, ◌||◌, ◌&&◌, ◌≡◌, ◌≢◌, ◌↔◌, refl, sym, ap,
  subst, ◌∙◌, ◌==◌, eq_iff, ◌&◌, join, length, ltb, All, all, codes, Bool-cases, inl, inr, arith,
  if◌then◌else◌,
}
use k_deskflight.Base.Strings.{split, trim_prefix}
use k_deskflight.Base.Strings.Splitting.{Lacks, split-Lacks, split-join_two, join-split}
use k_deskflight.Base.Format.{Fmt}
use k_deskflight.Domain.Specs.{
  KubernetesVersionSpec, is_digit, all_digits, check_segments, validate_kubernetes_version,
}

-- A text of digits, at least one.
abbrev pub IsNumber : String → Type 0
IsNumber w = (w ≢ "") × (all is_digit (codes w) ≡ true)

-- Two or three numbers with dots between them.
abbrev pub IsVersion : String → Type 0
IsVersion value =
    (ws : List String) × (value ≡ join "." ws) × (2 ≤ length ws) × (length ws ≤ 3) × All IsNumber ws

all_digits_lem : (w : String) → all_digits w ≡ all is_digit (codes w)
unfolding all_digits
all_digits_lem String.[] = refl
all_digits_lem (String.◌∷◌ c s) = ap (λ b. is_digit (code c) && b) (all_digits_lem s)

digits-Lack : (w : String) → all is_digit (codes w) ≡ true → Lacks b'.' w
digits-Lack String.[] _ = refl
digits-Lack (String.◌∷◌ c s) h = ground (arith, digits-Lack s)

split-version :
    (w : String) (ws : List String)
    → All IsNumber (w ∷ ws)
    → split b'.' (join "." (w ∷ ws)) ≡ w ∷ ws
split-version w [] ((_, d), _) = split-Lacks b'.' w (digits-Lack w d)
split-version w (x ∷ ws) ((_, d), rest) =
    split-join_two "." w (join "." (x ∷ ws)) (digits-Lack w d)
    ∙ ap (λ l. w ∷ l) (split-version x ws rest)

-- the tests of the validation, of a text and its parts
abbrev judge_parts : Fmt → String → String → List String → Option String
judge_parts fmt min value parts =
    if value == ""
    then some "kubernetesVersion.min: empty"
    else if ltb (length parts) 2 || ltb 3 (length parts)
    then some ("kubernetesVersion.min: " & fmt.quote min & " is not in form major.minor[.patch]")
    else check_segments fmt min parts

check_segments_iff :
    (fmt : Fmt) (min : String) (ws : List String)
    → (check_segments fmt min ws ≡ none) ↔ All IsNumber ws
unfolding check_segments
check_segments_iff fmt min [] = ((λ _. tt), (λ _. refl))
check_segments_iff fmt min (w ∷ ws) =
    let (there, back) = check_segments_iff fmt min ws in
    elim (Bool-cases (w == "")) [
      | inl empty ↦
          rw empty ((λ e. cc), (λ ((filled, _), _). absurd (filled ((eq_iff w "").0 empty))))
      | inr filled ↦
          let ne : w ≢ "" = λ same. cc ((eq_iff w "").1 same) in
          elim (Bool-cases (all is_digit (codes w))) [
            | inl digits ↦
                rw (filled, all_digits_lem w, digits)
                  ((λ e. ((ne, refl), there e)), (λ (_, rest). back rest))
            | inr others ↦ rw (filled, all_digits_lem w, others) ((λ e. cc), (λ ((_, d), _). cc))
          ]
    ]

-- The parts of a version.
split-IsVersion :
    (ws : List String) → 2 ≤ length ws → All IsNumber ws → split b'.' (join "." ws) ≡ ws
split-IsVersion [] two _ = absurd (omega (arith, two))
split-IsVersion (w ∷ ws) _ nums = split-version w ws nums

judge_iff :
    (fmt : Fmt) (min value : String) (parts : List String)
    → (judge_parts fmt min value parts ≡ none)
      ↔ ((value ≢ "") × (2 ≤ length parts) × (length parts ≤ 3) × All IsNumber parts)
judge_iff fmt min value parts =
    let (there, back) = check_segments_iff fmt min parts in
    elim (Bool-cases (value == "")) [
      | inl empty ↦
          rw empty ((λ e. cc), (λ (filled, _, _, _). absurd (filled ((eq_iff value "").0 empty))))
      | inr filled ↦
          let ne : value ≢ "" = λ same. cc ((eq_iff value "").1 same) in
          elim (Bool-cases (ltb (length parts) 2 || ltb 3 (length parts))) [
            | inl bad ↦
                rw (filled, bad) ((λ e. cc), (λ (_, two, three, _). absurd (ground (arith, bad))))
            | inr good ↦
                rw (filled, good)
                  (
                    (λ e. (ne, ground (arith, good), ground (arith, good), there e)),
                    (λ (_, _, _, nums). back nums),
                  )
          ]
    ]

-- A version spec is valid exactly if its text, less a leading `v`, is two or three numbers with dots
-- between them.
pub validate_kubernetes_version_iff :
    (fmt : Fmt) (s : KubernetesVersionSpec)
    → (validate_kubernetes_version fmt s ≡ none) ↔ IsVersion (trim_prefix s.min "v")
unfolding validate_kubernetes_version split
validate_kubernetes_version_iff fmt s =
    let value = trim_prefix s.min "v" in
    let (there, back) = judge_iff fmt s.min value (split b'.' value) in
    (
      (λ e.
          let (_, two, three, nums) = there e in
          (split b'.' value, sym (join-split "." value), two, three, nums)),
      (λ (ws, joined, two, three, nums).
          let parts : split b'.' value ≡ ws =
            ap (split b'.') joined ∙ split-IsVersion ws two nums in
          back (
            (λ empty. absurd (omega (arith, two, ap length (sym parts ∙ ap (split b'.') empty)))),
            subst (λ l. 2 ≤ length l) (sym parts) two,
            subst (λ l. length l ≤ 3) (sym parts) three,
            subst (All IsNumber) (sym parts) nums,
          )),
    )
