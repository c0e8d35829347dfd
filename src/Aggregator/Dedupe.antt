-- ===== src/Aggregator/Dedupe.antt =====
-- The conditions of a run: one for each name, the most severe and then the newest result.
use k_deskflight.Base.{
  ◌≤◌, ◌<◌, String, List, [], ◌∷◌, Option, none, some, true, ◌≡◌, ◌≢◌, ◌⊎◌, inl, inr, refl, sym, ap,
  ◌∙◌, arith, map, All, All-mem, All-of_mem, mem-perm, Memᴰ, ◌==◌, eq_iff, Bool-cases, Option-cases,
  if◌then◌else◌,
}
use mathlib.Core.List.Memᴰ
use mathlib.Core.List.Permᴰ
use k_deskflight.Base.Maps.{lookup, insert, lookup-insert, string_eq}
use k_deskflight.Base.Maps.Entries.{entry_key, insert-All, insert-HasDistinctKeys, mem_of_lookup}
use k_deskflight.Base.Sort.Unique.{HasDistinctKeys-perm}
use k_deskflight.Base.Sort.{sort_by, IsStrictlySorted, HasDistinctKeys}
use k_deskflight.Base.Sort.Laws.{sort_by-perm, sort_by-IsSorted, IsStrictlySorted-of_distinct}
use k_deskflight.Domain.{Result}
use k_deskflight.Api.{Condition}
use k_deskflight.Aggregator.{
  severity_rank, replaces, better, by_name_from, by_name, to_condition, entry_condition,
  dedupe_and_sort_conditions,
}

-- `a` is at least as severe as `b`, and as new where they are equally severe.
abbrev pub Outranks : Result → Result → Type 0
Outranks a b =
    (severity_rank b.severity < severity_rank a.severity)
    ⊎ ((severity_rank b.severity ≡ severity_rank a.severity)
        × (b.last_transition ≤ a.last_transition))

Outranks-trans : (a b c : Result) → Outranks a b → Outranks b c → Outranks a c
Outranks-trans a b c h k = ground arith

better-Outranks : (o : Option Result) (r : Result) → Outranks (better o r) r
unfolding better replaces
better-Outranks o r = ground arith

better-Outranks_old : (e r : Result) → Outranks (better (some e) r) e
unfolding better replaces
better-Outranks_old e r = ground arith

-- What the deduplication keeps under the name `n`.
kept : String → Option Result → List Result → Option Result
kept n o [] = o
kept n o (r ∷ rs) = kept n (if r.name == n then some (better o r) else o) rs

lookup-by_name_from :
    (n : String) (m : List (String × Result)) (rs : List Result)
    → lookup n (by_name_from m rs) ≡ kept n (lookup n m) rs
unfolding by_name_from kept
lookup-by_name_from n m [] = refl
lookup-by_name_from n m (r ∷ rs) =
    let v = better (lookup r.name m) r in
    lookup-by_name_from n (insert r.name v m) rs
    ∙ ap (λ o. kept n o rs) (ground (arith, lookup-insert r.name n v m, eq_iff r.name n))

lookup-by_name : (n : String) (rs : List Result) → lookup n (by_name rs) ≡ kept n none rs
unfolding by_name
lookup-by_name n rs = lookup-by_name_from n [] rs

kept-Outranks_old :
    (n : String) (e : Result) (rs : List Result)
    → (b : Result) × (kept n (some e) rs ≡ some b) × Outranks b e
unfolding kept
kept-Outranks_old n e [] = (e, refl, ground arith)
kept-Outranks_old n e (r ∷ rs) = elim (Bool-cases (r.name == n)) [
  | inl same ↦
      let (b, found, above) = kept-Outranks_old n (better (some e) r) rs in
      rw same (b, found, Outranks-trans b (better (some e) r) e above (better-Outranks_old e r))
  | inr another ↦ rw another (kept-Outranks_old n e rs)
]

kept-Outranks :
    (n : String) (r : Result) (rs : List Result) (o : Option Result)
    → Memᴰ r rs
    → r.name ≡ n
    → (b : Result) × (kept n o rs ≡ some b) × Outranks b r
unfolding kept
kept-Outranks n r [] o m e = elim m [ ]
kept-Outranks n r (s ∷ rs) o (Memᴰ.head same) e =
    let here : (s.name == n) ≡ true = (eq_iff s.name n).1 (ap (λ x. x.name) (sym same) ∙ e) in
    let (b, found, above) = kept-Outranks_old n (better o s) rs in
    rw (here, same) (b, found, Outranks-trans b (better o s) s above (better-Outranks o s))
kept-Outranks n r (s ∷ rs) o (Memᴰ.tail m) e =
    kept-Outranks n r rs (if s.name == n then some (better o s) else o) m e

-- What holds of the entries of `byName` over the results `all`.
abbrev IsEntryOf : List Result → String × Result → Type 0
IsEntryOf all e = (e.1.name ≡ e.0) × Memᴰ e.1 all

better-IsEntryOf :
    (all : List Result) (m : List (String × Result)) (r : Result)
    → All (IsEntryOf all) m
    → Memᴰ r all
    → IsEntryOf all (r.name, better (lookup r.name m) r)
unfolding better
better-IsEntryOf all m r h i = elim (Option-cases (lookup r.name m)) [
  | inl absent ↦ rw absent (refl, i)
  | inr (e, found) ↦
      let old = All-mem (IsEntryOf all) m h (mem_of_lookup r.name e m found) in
      rw found (elim (Bool-cases (replaces r e)) [
        | inl newer ↦ rw newer (refl, i)
        | inr older ↦ rw older old
      ])
]

by_name_from-IsEntryOf :
    (all : List Result) (m : List (String × Result)) (rs : List Result)
    → All (IsEntryOf all) m
    → All (λ r. Memᴰ r all) rs
    → All (IsEntryOf all) (by_name_from m rs)
unfolding by_name_from
by_name_from-IsEntryOf all m [] h _ = h
by_name_from-IsEntryOf all m (r ∷ rs) h (i, is) =
    let v = better (lookup r.name m) r in
    by_name_from-IsEntryOf all (insert r.name v m) rs
      (insert-All (IsEntryOf all) r.name v m (better-IsEntryOf all m r h i) h) is

by_name_from-HasDistinctKeys :
    (m : List (String × Result)) (rs : List Result)
    → HasDistinctKeys entry_key m
    → HasDistinctKeys entry_key (by_name_from m rs)
unfolding by_name_from
by_name_from-HasDistinctKeys m [] h = h
by_name_from-HasDistinctKeys m (r ∷ rs) h =
    let v = better (lookup r.name m) r in
    by_name_from-HasDistinctKeys (insert r.name v m) rs (insert-HasDistinctKeys r.name v m h)

by_name-IsEntryOf : (rs : List Result) → All (IsEntryOf rs) (by_name rs)
unfolding by_name
by_name-IsEntryOf rs = by_name_from-IsEntryOf rs [] rs tt (All-of_mem _ rs (λ a m. m))

by_name-HasDistinctKeys : (rs : List Result) → HasDistinctKeys entry_key (by_name rs)
unfolding by_name
by_name-HasDistinctKeys rs = by_name_from-HasDistinctKeys [] rs tt

-- The conditions of entries have the entries' keys.
map-HasDistinctKeys :
    (all : List Result) (m : List (String × Result))
    → All (IsEntryOf all) m
    → HasDistinctKeys entry_key m
    → HasDistinctKeys (λ (c : Condition). c.kind) (map entry_condition m)
map-HasDistinctKeys all [] _ _ = tt
map-HasDistinctKeys all (e ∷ m) ((named, _), h) (new, d) =
    (apart m h new, map-HasDistinctKeys all m h d)
  where
    apart :
        (l : List (String × Result))
        → All (IsEntryOf all) l
        → All (λ y. e.0 ≢ y.0) l
        → All (λ c. e.1.name ≢ c.kind) (map entry_condition l)
    apart [] _ _ = tt
    apart (y ∷ l) ((named', _), k) (ne, nes) = (λ p. ne (sym named ∙ p ∙ named'), apart l k nes)

pub conditions-HasDistinctKeys :
    (rs : List Result)
    → HasDistinctKeys (λ (c : Condition). c.kind) (map entry_condition (by_name rs))
conditions-HasDistinctKeys rs =
    map-HasDistinctKeys rs (by_name rs) (by_name-IsEntryOf rs) (by_name-HasDistinctKeys rs)

abbrev pub kind_of : Condition → String
kind_of c = c.kind

-- The conditions stand in strict alphabetical order of their types, so that no type stands twice.
pub conditions-IsStrictlySorted :
    (rs : List Result) → IsStrictlySorted kind_of (dedupe_and_sort_conditions rs)
unfolding dedupe_and_sort_conditions
conditions-IsStrictlySorted rs =
    let cs = map entry_condition (by_name rs) in
    IsStrictlySorted-of_distinct kind_of (sort_by kind_of cs) (sort_by-IsSorted kind_of cs) (
      HasDistinctKeys-perm kind_of (Permᴰ.symm (sort_by-perm kind_of cs))
        (conditions-HasDistinctKeys rs))

-- Every condition is that of a result of the run.
pub conditions_sound :
    (rs : List Result) (c : Condition)
    → Memᴰ c (dedupe_and_sort_conditions rs)
    → (r : Result) × Memᴰ r rs × (to_condition r ≡ c)
unfolding dedupe_and_sort_conditions
conditions_sound rs c i =
    let cs = map entry_condition (by_name rs) in
    let (e, j, same) =
      Memᴰ.of_map entry_condition (by_name rs) (mem-perm (sort_by-perm kind_of cs) i) in
    (e.1, (All-mem (IsEntryOf rs) (by_name rs) (by_name-IsEntryOf rs) j).1, same)

-- Every result has a condition under its name, of a result that is at least as severe, and at least
-- as new where the two are equally severe.
pub conditions_best :
    (rs : List Result) (r : Result)
    → Memᴰ r rs
    → (b : Result) × Memᴰ (to_condition b) (dedupe_and_sort_conditions rs)
      × (b.name ≡ r.name)
      × Outranks b r
unfolding dedupe_and_sort_conditions
conditions_best rs r i =
    let cs = map entry_condition (by_name rs) in
    let (b, found, above) = kept-Outranks r.name r rs none i refl in
    let j = mem_of_lookup r.name b (by_name rs) (lookup-by_name r.name rs ∙ found) in
    (
      b,
      mem-perm (Permᴰ.symm (sort_by-perm kind_of cs)) (Memᴰ.map entry_condition j),
      (All-mem (IsEntryOf rs) (by_name rs) (by_name-IsEntryOf rs) j).0,
      above,
    )
