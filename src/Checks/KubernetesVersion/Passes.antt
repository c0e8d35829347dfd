-- ===== src/Checks/KubernetesVersion/Passes.antt =====
-- When the check of the version passes, in terms of how the versions are written.
use Prim.Native.Char.{Char, code}
use Prim.Native.String.append
use text.Mathlib.TextEquality.{Char-path}
use k_deskflight.Base.{
  String, false, ◌≡◌, ◌≢◌, ◌↔◌, ◌⊎◌, ◌∙◌, refl, sym, ap, subst, ◌&◌, Bool-cases, inl, inr, arith,
  nat_eq,
}
use k_deskflight.Base.Exec.{returned, Exec, Fallible, ok, Fallible-cases}
use k_deskflight.Base.Strings.{trim_space, trim_prefix}
use k_deskflight.Base.Strings.Trimming.{
  IsBlank, StartsWell, EndsWell, trim_space-append, trim_space_split,
}
use k_deskflight.Domain.{ConditionStatus}
use k_deskflight.Domain.Specs.{CheckSpec, KubernetesVersionSpec}
use k_deskflight.Checks.{CheckEnv, HasStatus}
use k_deskflight.Checks.KubernetesVersion.{
  Semver, strip_version_prefix, compare_versions, judge_min, judge_server, judge,
  run_kubernetes_version,
}

-- The text is `v` and the number, or the number alone, which then does not begin with `v`.
abbrev pub IsMarked : String → String → Type 0
IsMarked text number =
    (text ≡ "v" & number) ⊎ ((text ≡ number) × ((rest : String) → number ≢ "v" & rest))

-- The text is the number of a version, with or without a `v` before it, between blanks.
abbrev pub IsWritten : String → String → Type 0
IsWritten raw number =
    (left : String) × (marked : String) × (right : String) × (raw ≡ left & marked & right)
    × IsBlank left
    × IsBlank right
    × StartsWell marked
    × EndsWell marked
    × IsMarked marked number

module _ (d : Char) where
  trim_prefix_one : (s : String) → trim_prefix (String.◌∷◌ d s) (String.◌∷◌ d "") ≡ s
  unfolding trim_prefix
  trim_prefix_one s = ground arith

  one_append : (t : String) → String.◌∷◌ d "" & t ≡ String.◌∷◌ d t
  one_append t = append.cons d "" t ∙ ap (λ s. String.◌∷◌ d s) (append.nil t)

  trim_prefix_other :
      (s : String)
      → ((rest : String) → s ≢ String.◌∷◌ d "" & rest)
      → trim_prefix s (String.◌∷◌ d "") ≡ s
  unfolding trim_prefix
  trim_prefix_other String.[] _ = refl
  trim_prefix_other (String.◌∷◌ c s) h = elim (Bool-cases (nat_eq (code d) (code c))) [
    | inl same ↦
        let e : c ≡ d = Char-path c d (ground (arith, same)) in
        absurd (h s (ap (λ x. String.◌∷◌ x s) e ∙ sym (one_append s)))
    | inr other ↦ rw other refl
  ]

  -- What is left of a text either is the text, or stands in it after the character.
  trim_prefix-cases :
      (s : String)
      → (s ≡ String.◌∷◌ d "" & trim_prefix s (String.◌∷◌ d ""))
        ⊎ ((s ≡ trim_prefix s (String.◌∷◌ d ""))
            × ((rest : String) → trim_prefix s (String.◌∷◌ d "") ≢ String.◌∷◌ d "" & rest))
  unfolding trim_prefix
  trim_prefix-cases String.[] =
      inr (refl, λ rest e. let f : "" ≡ String.◌∷◌ d rest = e ∙ one_append rest in cc)
  trim_prefix-cases (String.◌∷◌ c s) = elim (Bool-cases (nat_eq (code d) (code c))) [
    | inl same ↦
        let e : c ≡ d = Char-path c d (ground (arith, same)) in
        rw same (inl (ap (λ x. String.◌∷◌ x s) e ∙ sym (one_append s)))
    | inr other ↦ rw other (
        inr (
          refl,
          λ rest e.
              let f : String.◌∷◌ c s ≡ String.◌∷◌ d rest = e ∙ one_append rest in
              let same : c ≡ d = cc in ground (arith, other, ap code same),
        ))
  ]

strip_marked : (text number : String) → IsMarked text number → trim_prefix text "v" ≡ number
strip_marked text number (inl e) = rw (e, one_append "v" number) (trim_prefix_one "v" number)
strip_marked text number (inr (e, unmarked)) = rw e (trim_prefix_other "v" number unmarked)

-- The program finds the number in the text of a version, however it is written.
strip_version_prefix_iff :
    (raw number : String) → (strip_version_prefix raw ≡ number) ↔ IsWritten raw number
unfolding strip_version_prefix
strip_version_prefix_iff raw number = (
  (λ e.
      let (l, r, left, right, f, starts, ends) = trim_space_split raw in
      (
        l,
        trim_space raw,
        r,
        f,
        left,
        right,
        starts,
        ends,
        subst (IsMarked (trim_space raw)) e (trim_prefix-cases "v" (trim_space raw)),
      )),
  (λ (l, marked, r, f, left, right, starts, ends, m).
      rw (f, trim_space-append l marked r left right starts ends) (strip_marked marked number m)),
)

module _ {W : Type 0} (env : CheckEnv W) (semver : Semver)
    (server_version : Exec W (Fallible String)) where
  -- Both texts are versions, and the first is not below the second.
  abbrev pub Satisfies : String → String → Type 0
  Satisfies raw min =
      (number : String) × (least : String) × (server_semver : semver.Version)
      × (min_semver : semver.Version) × IsWritten raw number
      × IsWritten min least
      × (semver.new_version number ≡ ok server_semver)
      × (semver.new_version least ≡ ok min_semver)
      × (semver.less_than server_semver min_semver ≡ false)

  abbrev Parsed : String → String → Type 0
  Parsed raw min =
      (server : semver.Version) × (least : semver.Version) × (semver.new_version raw ≡ ok server)
      × (semver.new_version min ≡ ok least)
      × (semver.less_than server least ≡ false)

  run_kubernetes_version-Parsed :
      (s : KubernetesVersionSpec) (raw : String) (w w' : W)
      → server_version w ≡ (returned (ok raw), w')
      → HasStatus ConditionStatus.is_true
          (run_kubernetes_version env semver server_version (CheckSpec.kubernetes_version s) w).0
        ↔ Parsed (strip_version_prefix raw) (strip_version_prefix s.min)
  unfolding run_kubernetes_version judge judge_server judge_min compare_versions
  run_kubernetes_version-Parsed s raw w w' e =
      elim (Fallible-cases (semver.new_version (strip_version_prefix raw))) [
        | inr (text, bad) ↦ rw (e, bad) ((λ h. cc), (λ (v, m, p, q, l). cc))
        | inl (server, parsed) ↦
            elim (Fallible-cases (semver.new_version (strip_version_prefix s.min))) [
              | inr (text, bad) ↦ rw (e, parsed, bad) ((λ h. cc), (λ (v, m, p, q, l). cc))
              | inl (least, min_parsed) ↦ elim (Bool-cases (semver.less_than server least)) [
                | inl below ↦ rw (e, parsed, min_parsed, below) ((λ h. cc), (λ (v, m, p, q, l). cc))
                | inr enough ↦
                    rw (e, parsed, min_parsed, enough)
                      ((λ h. (server, least, refl, refl, enough)), (λ _. refl))
              ]
            ]
      ]

  -- When the server told its version, the check passes exactly if the numbers written in that text
  -- and in the configured minimum, between blanks and after a `v` if there is one, can both be
  -- parsed, and the version of the server is not below the minimum.
  pub run_kubernetes_version_passes_iff :
      (s : KubernetesVersionSpec) (raw : String) (w w' : W)
      → server_version w ≡ (returned (ok raw), w')
      → HasStatus ConditionStatus.is_true
          (run_kubernetes_version env semver server_version (CheckSpec.kubernetes_version s) w).0
        ↔ Satisfies raw s.min
  run_kubernetes_version_passes_iff s raw w w' e = (
    (λ h.
        let (v, m, p, q, l) = (run_kubernetes_version-Parsed s raw w w' e).0 h in
        (
          strip_version_prefix raw,
          strip_version_prefix s.min,
          v,
          m,
          (strip_version_prefix_iff raw _).0 refl,
          (strip_version_prefix_iff s.min _).0 refl,
          p,
          q,
          l,
        )),
    (λ (number, least, v, m, a, b, p, q, l).
        let same = (strip_version_prefix_iff raw number).1 a in
        let same' = (strip_version_prefix_iff s.min least).1 b in
        (run_kubernetes_version-Parsed s raw w w' e).1
          (v, m, ap semver.new_version same ∙ p, ap semver.new_version same' ∙ q, l)),
  )
