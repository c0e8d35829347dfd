-- ===== src/Markers/RoundTrip.antt =====
-- Markers that are printed and parsed again.
use k_deskflight.Base.{
  String, List, [], ◌∷◌, ◌≡◌, refl, ◌&◌, join, All, ◌==◌, eq_iff, ◌∙◌, sym, ap, Bool-cases, inl,
  inr, All-mono,
}
use k_deskflight.Base.Strings.{is_space, split, cut}
use k_deskflight.Markers.{
  Marker, zero_marker, split_semicolon, set_field, parse_pair, parse_rbac_line,
}
use k_deskflight.Base.Strings.Splitting.{
  Lacks, IsSpaceless, all-append, all-join, split-Lacks, split-join_two, cut-join_two, trim-Lacks,
  trim_space_same,
}

-- A word that a marker can hold: without spaces and without the characters `;`, `,` and `"`.
abbrev pub IsWord : String → Type 0
IsWord s = Lacks b';' s × Lacks b',' s × Lacks b'"' s × IsSpaceless s

-- Words, at least one.
abbrev pub AreWords : List String → Type 0
AreWords [] = ⊥
AreWords (w ∷ ws) = All IsWord (w ∷ ws)

abbrev pub IsPrintable : Marker → Type 0
IsPrintable m = AreWords m.groups × AreWords m.resources × AreWords m.verbs

abbrev print_field : String → List String → String
print_field key ws = key & "=" & join ";" ws

-- The marker as it is written in the source.
abbrev pub print_marker : Marker → String
print_marker m =
    print_field "groups" m.groups
    & ","
    & print_field "resources" m.resources
    & ","
    & print_field "verbs" m.verbs

split-join :
    (w : String) (ws : List String) → All IsWord (w ∷ ws) → split b';' (join ";" (w ∷ ws)) ≡ w ∷ ws
split-join w [] ((h, _, _, _), _) = split-Lacks b';' w h
split-join w (x ∷ ws) ((h, _, _, _), k) =
    rw (split-join_two ";" w (join ";" (x ∷ ws)) h, split-join x ws k) refl

split_semicolon-join : (ws : List String) → AreWords ws → split_semicolon (join ";" ws) ≡ ws
unfolding split_semicolon split
split_semicolon-join [] h = absurd h
split_semicolon-join (w ∷ ws) h = elim (Bool-cases (join ";" (w ∷ ws) == "")) [
  | inl empty ↦
      let e = (eq_iff (join ";" (w ∷ ws)) "").0 empty in
      rw empty (sym (ap (split b';') e) ∙ split-join w ws h)
  | inr filled ↦ rw filled (split-join w ws h)
]

words_lack :
    (ws : List String)
    → AreWords ws
    → Lacks b',' (join ";" ws) × Lacks b'"' (join ";" ws) × IsSpaceless (join ";" ws)
unfolding is_space
words_lack [] h = absurd h
words_lack (w ∷ ws) h = (
  all-join _ ";" (w ∷ ws) refl (All-mono _ _ (w ∷ ws) (λ a i. i.1) h),
  all-join _ ";" (w ∷ ws) refl (All-mono _ _ (w ∷ ws) (λ a i. i.2) h),
  all-join _ ";" (w ∷ ws) refl (All-mono _ _ (w ∷ ws) (λ a i. i.3) h),
)

field_lem :
    (key : String) (ws : List String) (m : Marker)
    → Lacks b'=' key
    → IsSpaceless key
    → AreWords ws
    → parse_pair (cut b'=' (print_field key ws)) m ≡ set_field key ws m
field_lem key ws m h k a =
    let (_, quotes, spaces) = words_lack ws a in
    rw
      (
        cut-join_two "=" key (join ";" ws) h,
        trim_space_same key k,
        trim_space_same (join ";" ws) spaces,
        trim-Lacks b'"' (join ";" ws) quotes,
        split_semicolon-join ws a,
      )
      refl

field-Lacks :
    (key : String) (ws : List String)
    → Lacks b',' key
    → AreWords ws
    → Lacks b',' (print_field key ws)
field-Lacks key ws h a =
    all-append _ key ("=" & join ";" ws) h (all-append _ "=" (join ";" ws) refl (words_lack ws a).0)

split-print_marker :
    (m : Marker)
    → IsPrintable m
    → split b',' (print_marker m)
      ≡ print_field "groups" m.groups
        ∷ print_field "resources" m.resources
        ∷ print_field "verbs" m.verbs
        ∷ []
split-print_marker m (g, r, v) =
    rw
      (
        split-join_two "," (print_field "groups" m.groups)
            (print_field "resources" m.resources & "," & print_field "verbs" m.verbs)
            (field-Lacks "groups" m.groups refl g),
        split-join_two "," (print_field "resources" m.resources) (print_field "verbs" m.verbs)
            (field-Lacks "resources" m.resources refl r),
        split-Lacks b',' (print_field "verbs" m.verbs) (field-Lacks "verbs" m.verbs refl v),
      )
      refl

-- A marker that is printed in the source's form, `groups=…,resources=…,verbs=…` with `;` between
-- the values, is parsed to the same groups, resources and verbs, where each list has a value and no
-- value has a space, a `;`, a `,` or a `"`.
pub parse_rbac_line-print_marker :
    (m : Marker) → IsPrintable m → parse_rbac_line (print_marker m) ≡ record m { position = "" }
unfolding parse_rbac_line is_space
parse_rbac_line-print_marker m (g, r, v) =
    rw
      (
        split-print_marker m (g, r, v),
        field_lem "groups" m.groups zero_marker refl refl g,
        field_lem "resources" m.resources (set_field "groups" m.groups zero_marker) refl refl r,
        field_lem "verbs" m.verbs
            (set_field "resources" m.resources (set_field "groups" m.groups zero_marker)) refl refl
            v,
      )
      refl
