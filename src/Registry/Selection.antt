-- ===== src/Registry/Selection.antt =====
-- Which checks a run selects, and which names it reports.
use k_deskflight.Base.{
  String, List, [], ◌∷◌, none, some, ◌≡◌, ◌≢◌, ◌↔◌, inl, inr, refl, sym, ap, subst, ◌∙◌, arith, All,
  All-mem, mem-perm, Memᴰ, map, ◌==◌, eq_iff, if◌then◌else◌, Option-cases, Bool-cases,
}
use mathlib.Core.List.Memᴰ
use mathlib.Core.List.Permᴰ
use k_deskflight.Base.Maps.{lookup, lookup-insert, string_eq}
use k_deskflight.Base.Maps.Entries.{entry_key, insert-All, insert-HasDistinctKeys, mem_of_lookup}
use k_deskflight.Base.Sort.{sort_by, IsSorted, IsStrictlySorted, HasDistinctKeys}
use k_deskflight.Base.Sort.Laws.{sort_by-perm, sort_by-IsSorted, IsStrictlySorted-of_distinct}
use k_deskflight.Base.Sort.Unique.{HasDistinctKeys-perm}
use k_deskflight.Domain.{Check}
use k_deskflight.Domain.Specs.{CheckSpec}
use k_deskflight.Registry.{
  CheckSelectionIssue, Registry, register, resolve, select, select_found, unknown_check, check_name,
  issue_name, issue_of, list_by_profile,
}

module _ {W : Type 0} where
  -- After a registration the name of the check resolves to it, and every other name to what it
  -- resolved to before.
  pub resolve-register :
      (c : Check W) (r : Registry W) (name : String)
      → resolve name (register c r) ≡ (if c.name == name then some c else resolve name r)
  unfolding resolve register
  resolve-register c r name = lookup-insert c.name name c r

  -- `active`: a check is selected if it is registered under the name of a spec.
  select_active_sound :
      (r : Registry W) (specs : List (String × CheckSpec)) (c : Check W)
      → Memᴰ c (select r specs).0
      → (e : String × CheckSpec) × Memᴰ e specs × (resolve e.0 r ≡ some c)
  unfolding select resolve
  select_active_sound r [] c i = elim i [ ]
  select_active_sound r ((name, spec) ∷ specs) c i = elim (Option-cases (lookup name r)) [
    | inl missing ↦
        let (e, j, found) = select_active_sound r specs c (rw missing at i) in
        (e, Memᴰ.tail j, found)
    | inr (k, found) ↦
        elim (Memᴰ.cases_cons
          (subst (λ o. Memᴰ c (select_found name o (select r specs)).0) found i)) [
            | inl same ↦ ((name, spec), Memᴰ.head refl, found ∙ ap some (sym same))
            | inr j ↦
                let (e, j', found') = select_active_sound r specs c j in (e, Memᴰ.tail j', found')
          ]
  ]

  select_active_complete :
      (r : Registry W) (specs : List (String × CheckSpec)) (e : String × CheckSpec) (c : Check W)
      → Memᴰ e specs
      → resolve e.0 r ≡ some c
      → Memᴰ c (select r specs).0
  unfolding select resolve
  select_active_complete r [] e c i found = elim i [ ]
  select_active_complete r ((name, spec) ∷ specs) e c (Memᴰ.head same) found =
      rw (ap (λ n. lookup n r) (ap entry_key (sym same)) ∙ found) (Memᴰ.head refl)
  select_active_complete r ((name, spec) ∷ specs) e c (Memᴰ.tail i) found =
      elim (Option-cases (lookup name r)) [
        | inl missing ↦ rw missing (select_active_complete r specs e c i found)
        | inr (k, other) ↦ rw other (Memᴰ.tail (select_active_complete r specs e c i found))
      ]

  -- `issues`: a name is reported if it has no check.
  abbrev IsIssueOf : Registry W → List (String × CheckSpec) → String × CheckSelectionIssue → Type 0
  IsIssueOf r specs e =
      (e.1 ≡ unknown_check e.0) × (resolve e.0 r ≡ none) × ((s : CheckSpec) × Memᴰ (e.0, s) specs)

  IsIssueOf-cons :
      (r : Registry W) (specs : List (String × CheckSpec)) (x : String × CheckSpec)
      (es : List (String × CheckSelectionIssue))
      → All (IsIssueOf r specs) es
      → All (IsIssueOf r (x ∷ specs)) es
  IsIssueOf-cons r specs x [] _ = tt
  IsIssueOf-cons r specs x (e ∷ es) ((known, missing, (s, i)), h) =
      ((known, missing, (s, Memᴰ.tail i)), IsIssueOf-cons r specs x es h)

  select_issues_sound :
      (r : Registry W) (specs : List (String × CheckSpec))
      → All (IsIssueOf r specs) (select r specs).1
  unfolding select resolve
  select_issues_sound r [] = tt
  select_issues_sound r ((name, spec) ∷ specs) = elim (Option-cases (lookup name r)) [
    | inl missing ↦ rw missing (
        insert-All (IsIssueOf r ((name, spec) ∷ specs)) name (unknown_check name) _
          (refl, missing, (spec, Memᴰ.head refl))
          (IsIssueOf-cons r specs (name, spec) _ (select_issues_sound r specs)))
    | inr (c, found) ↦
        rw found (IsIssueOf-cons r specs (name, spec) _ (select_issues_sound r specs))
  ]

  select_issues_complete :
      (r : Registry W) (specs : List (String × CheckSpec)) (name : String) (s : CheckSpec)
      → Memᴰ (name, s) specs
      → resolve name r ≡ none
      → (i : CheckSelectionIssue) × (lookup name (select r specs).1 ≡ some i)
  unfolding select resolve
  select_issues_complete r [] name s i missing = elim i [ ]
  select_issues_complete r ((k, spec) ∷ specs) name s (Memᴰ.head same) missing =
      let e : name ≡ k = ap entry_key same in
      (
        unknown_check k,
        rw (← e) (
            rw missing (
              ground (
                arith,
                eq_iff name name,
                lookup-insert name name (unknown_check name) (select r specs).1,
              ))),
      )
  select_issues_complete r ((k, spec) ∷ specs) name s (Memᴰ.tail i) missing =
      let (j, there) = select_issues_complete r specs name s i missing in
      elim (Option-cases (lookup k r)) [
        | inr (c, found) ↦ rw found (j, there)
        | inl absent ↦ elim (Bool-cases (k == name)) [
          | inl same ↦ (unknown_check k, rw (absent, lookup-insert k name) (rw same))
          | inr another ↦ (j, rw (absent, lookup-insert k name) (rw another there))
        ]
      ]

  select_issues-HasDistinctKeys :
      (r : Registry W) (specs : List (String × CheckSpec))
      → HasDistinctKeys entry_key (select r specs).1
  unfolding select
  select_issues-HasDistinctKeys r [] = tt
  select_issues-HasDistinctKeys r ((name, spec) ∷ specs) = elim (Option-cases (lookup name r)) [
    | inl missing ↦
        rw missing (
          insert-HasDistinctKeys name (unknown_check name) _
            (select_issues-HasDistinctKeys r specs))
    | inr (c, found) ↦ rw found (select_issues-HasDistinctKeys r specs)
  ]

  issues_named :
      (r : Registry W) (specs : List (String × CheckSpec))
      (es : List (String × CheckSelectionIssue))
      → All (IsIssueOf r specs) es
      → HasDistinctKeys entry_key es
      → HasDistinctKeys issue_name (map issue_of es)
  issues_named r specs [] _ _ = tt
  issues_named r specs (e ∷ es) ((known, _, _), h) (new, d) =
      (apart es h new, issues_named r specs es h d)
    where
      apart :
          (l : List (String × CheckSelectionIssue))
          → All (IsIssueOf r specs) l
          → All (λ y. e.0 ≢ y.0) l
          → All (λ i. e.1.name ≢ i.name) (map issue_of l)
      apart [] _ _ = tt
      apart (y ∷ l) ((known', _, _), k) (ne, nes) =
          (λ p. ne (ap issue_name (sym known) ∙ p ∙ ap issue_name known'), apart l k nes)

  -- The selected checks are exactly those that are registered under the name of a spec.
  pub list_by_profile_active_iff :
      (r : Registry W) (profile : String) (specs : List (String × CheckSpec)) (c : Check W)
      → Memᴰ c (list_by_profile r profile specs).0
        ↔ ((e : String × CheckSpec) × Memᴰ e specs × (resolve e.0 r ≡ some c))
  unfolding list_by_profile
  list_by_profile_active_iff r profile specs c = (
    λ i. select_active_sound r specs c (mem-perm (sort_by-perm check_name _) i),
    λ (e, i, found).
        mem-perm (Permᴰ.symm (sort_by-perm check_name _))
          (select_active_complete r specs e c i found),
  )

  -- The reported issues are exactly those of the spec names that have no check, each with the reason
  -- UnknownCheck.
  pub list_by_profile_issues_iff :
      (r : Registry W) (profile : String) (specs : List (String × CheckSpec))
      (i : CheckSelectionIssue)
      → Memᴰ i (list_by_profile r profile specs).1 ↔ (
          (e : String × CheckSpec) × Memᴰ e specs
          × (resolve e.0 r ≡ none)
          × (i ≡ unknown_check e.0))
  unfolding list_by_profile
  list_by_profile_issues_iff r profile specs i =
      let es = (select r specs).1 in
      let sound = select_issues_sound r specs in
      (
        λ m.
            let (x, j, same) = Memᴰ.of_map issue_of es (mem-perm (sort_by-perm issue_name _) m) in
            let (known, missing, (s, k)) = All-mem (IsIssueOf r specs) es sound j in
            ((x.0, s), k, missing, sym same ∙ known),
        λ (e, j, missing, same).
            let (i', found) = select_issues_complete r specs e.0 e.1 j missing in
            let m = mem_of_lookup e.0 i' es found in
            let known = (All-mem (IsIssueOf r specs) es sound m).0 in
            mem-perm (Permᴰ.symm (sort_by-perm issue_name _))
              (subst (λ x. Memᴰ x (map issue_of es)) (known ∙ sym same) (Memᴰ.map issue_of m)),
      )

  -- The selected checks stand in the order of their names, and the issues in strict order of theirs,
  -- so that no name is reported twice.
  pub list_by_profile-IsSorted :
      (r : Registry W) (profile : String) (specs : List (String × CheckSpec))
      → IsSorted check_name (list_by_profile r profile specs).0
        × IsStrictlySorted issue_name (list_by_profile r profile specs).1
  unfolding list_by_profile
  list_by_profile-IsSorted r profile specs =
      let es = (select r specs).1 in
      let is = map issue_of es in
      (
        sort_by-IsSorted check_name (select r specs).0,
        IsStrictlySorted-of_distinct issue_name (sort_by issue_name is)
            (sort_by-IsSorted issue_name is)
            (HasDistinctKeys-perm issue_name (Permᴰ.symm (sort_by-perm issue_name is)) (
              issues_named r specs es (select_issues_sound r specs)
                (select_issues-HasDistinctKeys r specs))),
      )
