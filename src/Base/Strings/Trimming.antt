-- ===== src/Base/Strings/Trimming.antt =====
-- What trimming leaves of a text, described by the blanks round it.
use Prim.Native.Char.{code}
use Prim.Native.String.append
use k_deskflight.Base.{
  String, Bool, true, false, ◌&&◌, ◌==◌, eq_iff, ◌≡◌, refl, sym, ap, ◌∙◌, ◌&◌, codes, all, arith,
  Bool-cases, inl, inr,
}
use k_deskflight.Base.Strings.{is_space, trim_left, trim_right, trim_space}

abbrev pub IsBlank : String → Type 0
IsBlank s = all is_space (codes s) ≡ true

-- No blank at the beginning, or at the end.
abbrev pub StartsWell : String → Type 0
StartsWell String.[] = Unit
StartsWell (String.◌∷◌ c s) = is_space (code c) ≡ false

abbrev pub EndsWell : String → Type 0
EndsWell String.[] = Unit
EndsWell (String.◌∷◌ c s) = (s ≡ "" → is_space (code c) ≡ false) × EndsWell s

both : {a b : Bool} → (a && b) ≡ true → (a ≡ true) × (b ≡ true)
both h = ground (arith, h)

trim_left-append : (l t : String) → IsBlank l → trim_left (l & t) ≡ trim_left t
unfolding trim_left
trim_left-append String.[] t _ = rw (append.nil t) refl
trim_left-append (String.◌∷◌ c l) t h =
    let (a, b) = both {a = is_space (code c)} h in
    rw (append.cons c l t, a) (trim_left-append l t b)

trim_left_blank : (s : String) → IsBlank s → trim_left s ≡ ""
unfolding trim_left
trim_left_blank String.[] _ = refl
trim_left_blank (String.◌∷◌ c s) h =
    let (a, b) = both {a = is_space (code c)} h in rw a (trim_left_blank s b)

trim_right_blank : (s : String) → IsBlank s → trim_right s ≡ ""
unfolding trim_right
trim_right_blank String.[] _ = refl
trim_right_blank (String.◌∷◌ c s) h =
    let (a, b) = both {a = is_space (code c)} h in rw (trim_right_blank s b, a) refl

trim_right-append : (b r : String) → EndsWell b → IsBlank r → trim_right (b & r) ≡ b
unfolding trim_right
trim_right-append String.[] r _ h = rw (append.nil r) (trim_right_blank r h)
trim_right-append (String.◌∷◌ c b) r (last, ends) h = elim (Bool-cases (b == "")) [
  | inl empty ↦
      rw (append.cons c b r, trim_right-append b r ends h, last ((eq_iff b "").0 empty))
        (ground arith)
  | inr more ↦ rw (append.cons c b r, trim_right-append b r ends h, more) refl
]

trim_left_core :
    (b r : String) → StartsWell b → IsBlank r → trim_right (trim_left (b & r)) ≡ trim_right (b & r)
unfolding trim_left
trim_left_core String.[] r _ h =
    rw (append.nil r, trim_left_blank r h, trim_right_blank r h) (unfold trim_right in refl)
trim_left_core (String.◌∷◌ c b) r h _ = rw (append.cons c b r, h) refl

-- A text without blanks at its ends is what is left of it between blanks.
pub trim_space-append :
    (l b r : String)
    → IsBlank l
    → IsBlank r
    → StartsWell b
    → EndsWell b
    → trim_space (l & b & r) ≡ b
unfolding trim_space
trim_space-append l b r left right starts ends =
    rw (trim_left-append l (b & r) left)
      (trim_left_core b r starts right ∙ trim_right-append b r ends right)

trim_left_split :
    (s : String) → (l : String) × IsBlank l × (s ≡ l & trim_left s) × StartsWell (trim_left s)
unfolding trim_left
trim_left_split String.[] = ("", refl, sym (append.nil ""), tt)
trim_left_split (String.◌∷◌ c s) = elim (Bool-cases (is_space (code c))) [
  | inl blank ↦
      let (l, blanks, e, starts) = trim_left_split s in
      rw blank (
        String.◌∷◌ c l,
        rw blank blanks,
        ap (λ t. String.◌∷◌ c t) e ∙ sym (append.cons c l (trim_left s)),
        starts,
      )
  | inr solid ↦ rw solid ("", refl, sym (append.nil (String.◌∷◌ c s)), solid)
]

trim_right_split :
    (s : String) → (r : String) × IsBlank r × (s ≡ trim_right s & r) × EndsWell (trim_right s)
unfolding trim_right
trim_right_split String.[] = ("", refl, sym (append.nil ""), tt)
trim_right_split (String.◌∷◌ c s) =
    let (r, blanks, e, ends) = trim_right_split s in
    elim (Bool-cases (trim_right s == "" && is_space (code c))) [
      | inl drops ↦
          let (none_left, blank) = both {a = trim_right s == ""} drops in
          let rest : s ≡ r =
            e ∙ ap (λ t. t & r) ((eq_iff (trim_right s) "").0 none_left) ∙ append.nil r in
          rw drops (
            String.◌∷◌ c r,
            rw blank blanks,
            ap (λ t. String.◌∷◌ c t) rest ∙ sym (append.nil (String.◌∷◌ c r)),
            tt,
          )
      | inr stays ↦ rw stays (
        r,
        blanks,
        ap (λ t. String.◌∷◌ c t) e ∙ sym (append.cons c (trim_right s) r),
        ((λ empty. ground (arith, stays, (eq_iff (trim_right s) "").1 empty)), ends),
      )
    ]

trim_right-StartsWell : (s : String) → StartsWell s → StartsWell (trim_right s)
unfolding trim_right
trim_right-StartsWell String.[] _ = tt
trim_right-StartsWell (String.◌∷◌ c s) h = elim (Bool-cases (trim_right s == "")) [
  | inl empty ↦ rw (empty, h) h
  | inr more ↦ rw more h
]

-- Every text is one without blanks at its ends, between blanks.
pub trim_space_split :
    (s : String)
    → (l : String) × (r : String) × IsBlank l
      × IsBlank r
      × (s ≡ l & trim_space s & r)
      × StartsWell (trim_space s)
      × EndsWell (trim_space s)
unfolding trim_space
trim_space_split s =
    let (l, left, e, starts) = trim_left_split s in
    let (r, right, f, ends) = trim_right_split (trim_left s) in
    (l, r, left, right, e ∙ ap (λ t. l & t) f, trim_right-StartsWell (trim_left s) starts, ends)
