-- ===== src/Base/Strings/Splitting.antt =====
-- Texts that are joined at a character and split, cut or trimmed again.
use Prim.Native.Char.{Char, code}
use Prim.Native.String.append
use text.Mathlib.TextEquality.{Char-path}
use k_deskflight.Base.{
  ℕ, String, List, [], ◌∷◌, Bool, true, false, not, some, ◌&&◌, ◌≡◌, refl, ◌&◌, join, codes, All,
  all, arith, nat_eq, ◌∙◌, ap, ap₂, Bool-cases, inl, inr,
}
use k_deskflight.Base.Strings.{
  split, grow, cut, trim, skip_left, skip_right, trim_space, trim_left, trim_right, is_space,
}

-- A text without a character.
abbrev pub Lacks : ℕ → String → Type 0
Lacks q s = all (λ c. not (nat_eq c q)) (codes s) ≡ true

abbrev pub IsSpaceless : String → Type 0
IsSpaceless s = all (λ c. not (is_space c)) (codes s) ≡ true

both : {a b : Bool} → (a && b) ≡ true → (a ≡ true) × (b ≡ true)
both h = ground (arith, h)

of_not : {a : Bool} → not a ≡ true → a ≡ false
of_not h = ground (arith, h)

pub all-append :
    (p : ℕ → Bool) (s t : String)
    → all p (codes s) ≡ true
    → all p (codes t) ≡ true
    → all p (codes (s & t)) ≡ true
all-append p String.[] t h k = rw (append.nil t) k
all-append p (String.◌∷◌ c s) t h k =
    let (a, b) = both {a = p (code c)} h in rw (append.cons c s t, a, all-append p s t b k) refl

pub all-join :
    (p : ℕ → Bool) (sep : String) (ws : List String)
    → all p (codes sep) ≡ true
    → All (λ w. all p (codes w) ≡ true) ws
    → all p (codes (join sep ws)) ≡ true
all-join p sep [] h k = refl
all-join p sep (w ∷ []) h (k, _) = k
all-join p sep (w ∷ x ∷ ws) h (k, l) =
    all-append p w (sep & join sep (x ∷ ws)) k
      (all-append p sep (join sep (x ∷ ws)) h (all-join p sep (x ∷ ws) h l))

split_here : (d : Char) (t : String) → split (code d) (String.◌∷◌ d t) ≡ "" ∷ split (code d) t
unfolding split
split_here d t = ground arith

split_other :
    (q : ℕ) (c : Char) (s : String)
    → not (nat_eq (code c) q) ≡ true
    → split q (String.◌∷◌ c s) ≡ grow c (split q s)
unfolding split
split_other q c s h = ground arith

pub split-Lacks : (q : ℕ) (s : String) → Lacks q s → split q s ≡ s ∷ []
unfolding split
split-Lacks q String.[] _ = refl
split-Lacks q (String.◌∷◌ c s) h =
    let (a, b) = both h in rw (split_other q c s a, split-Lacks q s b) refl

split-append :
    (d : Char) (s t : String)
    → Lacks (code d) s
    → split (code d) (s & String.◌∷◌ d t) ≡ s ∷ split (code d) t
split-append d String.[] t _ = rw (append.nil (String.◌∷◌ d t)) (split_here d t)
split-append d (String.◌∷◌ c s) t h =
    let (a, b) = both h in
    rw
      (
        append.cons c s (String.◌∷◌ d t),
        split_other (code d) c (s & String.◌∷◌ d t) a,
        split-append d s t b,
      )
      refl

cut-append :
    (d : Char) (s t : String) → Lacks (code d) s → cut (code d) (s & String.◌∷◌ d t) ≡ some (s, t)
unfolding cut
cut-append d String.[] t _ = rw (append.nil (String.◌∷◌ d t)) (ground arith)
cut-append d (String.◌∷◌ c s) t h =
    let (a, b) = both h in
    rw
      (
        append.cons c s (String.◌∷◌ d t),
        of_not {a = nat_eq (code c) (code d)} a,
        cut-append d s t b,
      )
      refl

one_append : (d : Char) (t : String) → String.◌∷◌ d "" & t ≡ String.◌∷◌ d t
one_append d t = append.cons d "" t ∙ ap (λ s. String.◌∷◌ d s) (append.nil t)

-- Texts joined by one character are split at it.
pub split-join_two :
    (d : Char) (s t : String)
    → Lacks (code d) s
    → split (code d) (s & String.◌∷◌ d "" & t) ≡ s ∷ split (code d) t
split-join_two d s t h = rw (one_append d t) (split-append d s t h)

pub cut-join_two :
    (d : Char) (s t : String)
    → Lacks (code d) s
    → cut (code d) (s & String.◌∷◌ d "" & t) ≡ some (s, t)
cut-join_two d s t h = rw (one_append d t) (cut-append d s t h)

skip_left-Lacks : (q : ℕ) (s : String) → Lacks q s → skip_left q s ≡ s
unfolding skip_left
skip_left-Lacks q String.[] _ = refl
skip_left-Lacks q (String.◌∷◌ c s) h = ground arith

skip_right-Lacks : (q : ℕ) (s : String) → Lacks q s → skip_right q s ≡ s
unfolding skip_right
skip_right-Lacks q String.[] _ = refl
skip_right-Lacks q (String.◌∷◌ c s) h =
    ground (arith, skip_right-Lacks q s (both {a = not (nat_eq (code c) q)} h).1)

pub trim-Lacks : (q : ℕ) (s : String) → Lacks q s → trim q s ≡ s
unfolding trim
trim-Lacks q s h = rw (skip_left-Lacks q s h) (skip_right-Lacks q s h)

trim_left_same : (s : String) → IsSpaceless s → trim_left s ≡ s
unfolding trim_left
trim_left_same String.[] _ = refl
trim_left_same (String.◌∷◌ c s) h =
    let (a, b) = both h in rw (of_not {a = is_space (code c)} a) refl

trim_right_same : (s : String) → IsSpaceless s → trim_right s ≡ s
unfolding trim_right
trim_right_same String.[] _ = refl
trim_right_same (String.◌∷◌ c s) h =
    let (a, b) = both {a = not (is_space (code c))} h in
    rw (trim_right_same s b, of_not {a = is_space (code c)} a) (ground arith)

pub trim_space_same : (s : String) → IsSpaceless s → trim_space s ≡ s
unfolding trim_space
trim_space_same s h = rw (trim_left_same s h) (trim_right_same s h)

join-grow :
    (c : Char) (w : String) (ws : List String) (d : Char)
    → join (String.◌∷◌ d "") (grow c (w ∷ ws)) ≡ String.◌∷◌ c (join (String.◌∷◌ d "") (w ∷ ws))
join-grow c w [] d = refl
join-grow c w (x ∷ ws) d = append.cons c w _

-- A split text has a first part.
split-first : (q : ℕ) (s : String) → (w : String) × (ws : List String) × (split q s ≡ w ∷ ws)
unfolding split
split-first q String.[] = ("", [], refl)
split-first q (String.◌∷◌ c s) =
    let (w, ws, e) = split-first q s in
    elim (Bool-cases (nat_eq (code c) q)) [
      | inl same ↦ rw same ("", split q s, refl)
      | inr other ↦ rw (other, e) (String.◌∷◌ c w, ws, refl)
    ]

-- The parts of a split text, joined again, are the text.
pub join-split : (d : Char) (s : String) → join (String.◌∷◌ d "") (split (code d) s) ≡ s
unfolding split
join-split d String.[] = refl
join-split d (String.◌∷◌ c s) =
    let (w, ws, e) = split-first (code d) s in
    let ih : join (String.◌∷◌ d "") (w ∷ ws) ≡ s = rw e at (join-split d s) in
    elim (Bool-cases (nat_eq (code c) (code d))) [
      | inl same ↦
          let same' : d ≡ c = Char-path d c (ground (arith, same)) in
          rw (same, e)
            (append.nil _
              ∙ one_append d (join (String.◌∷◌ d "") (w ∷ ws))
              ∙ ap₂ (λ x y. String.◌∷◌ x y) same' ih)
      | inr other ↦ rw (other, e) (join-grow c w ws d ∙ ap (λ y. String.◌∷◌ c y) ih)
    ]
