-- ===== src/Runner/Permissions.antt =====
-- The review of permissions: what the cache remembers, and what the two lists hold.
use k_deskflight.Base.{
  String, List, [], ◌∷◌, Option, none, some, Bool, true, false, not, if◌then◌else◌, ◌≡◌, ◌≢◌, inl,
  inr, refl, ap, arith, Permᴰ, join, length-perm, Option-cases,
}
use mathlib.Core.List.Permᴰ
use k_deskflight.Base.Exec.{Outcome, returned, panicked, continue, ◌>>=◌}
use k_deskflight.Base.Maps.{lookup, insert, lookup-insert}
use k_deskflight.Base.Sort.Unique.{sort_by-eq_of_perm_injective}
use k_deskflight.Domain.{Check}
use k_deskflight.Domain.Permission.{
  PermissionRequest, canonical_string, request_eq_iff, permission_eq,
}
use k_deskflight.Runner.Results.{join_permissions, join_parts, text_key}
use k_deskflight.Runner.{
  RunnerEnv, RunState, PermOutcome, PermissionCache, Buckets, add_to_bucket, review,
  review_if_absent, remember, call_reviewer, classify_permissions,
}

-- What an answer says of a permission: that it is not granted, or that its review failed.
abbrev is_denial : Bool → Option String → Bool
is_denial allowed none = not allowed
is_denial allowed (some error) = false

abbrev is_failure : Option String → Bool
is_failure none = false
is_failure (some error) = true

-- Which of the permissions the cache says to be denied, and which ones had a failed review.
abbrev denied_if :
    PermissionRequest → Option PermOutcome → List PermissionRequest → List PermissionRequest
denied_if p none ps = ps
denied_if p (some o) ps = if is_denial o.allowed o.error then p ∷ ps else ps

abbrev failed_if :
    PermissionRequest → Option PermOutcome → List PermissionRequest → List PermissionRequest
failed_if p none ps = ps
failed_if p (some o) ps = if is_failure o.error then p ∷ ps else ps

unfoldable pub denied_in : PermissionCache → List PermissionRequest → List PermissionRequest
denied_in cache [] = []
denied_in cache (p ∷ ps) = denied_if p (lookup p cache) (denied_in cache ps)

unfoldable pub failed_in : PermissionCache → List PermissionRequest → List PermissionRequest
failed_in cache [] = []
failed_in cache (p ∷ ps) = failed_if p (lookup p cache) (failed_in cache ps)

-- All the permissions have an answer in the cache.
abbrev pub AllKnown : PermissionCache → List PermissionRequest → Type 0
AllKnown cache [] = Unit
AllKnown cache (p ∷ ps) = (lookup p cache ≢ none) × AllKnown cache ps

-- The cache `d` has the answers of `c`.
abbrev pub Extends : PermissionCache → PermissionCache → Type 0
Extends c d = (q : PermissionRequest) (o : PermOutcome) → lookup q c ≡ some o → lookup q d ≡ some o

insert-Extends :
    (p : PermissionRequest) (o : PermOutcome) (c : PermissionCache)
    → lookup p c ≡ none
    → Extends c (insert p o c)
insert-Extends p o c absent q o' found = ground (arith, lookup-insert p q o c, request_eq_iff p q)

-- What a review leaves: the old answers stay, and the answer given is that of the cache.
abbrev Answers :
    {W : Type 0} → PermissionRequest → PermissionCache → Outcome PermOutcome × RunState W → Type 0
Answers p c (returned o, (d, w)) = Extends c d × (lookup p d ≡ some o)
Answers p c (panicked v, (d, w)) = Extends c d

-- The same for the review of a list: the first list is of the denied ones, the second of the failed.
abbrev pub Reviewed :
    {W : Type 0} → List PermissionRequest → PermissionCache → Outcome Buckets × RunState W → Type 0
Reviewed ps c (returned b, (d, w)) =
    Extends c d × AllKnown d ps × (b ≡ (denied_in d ps, failed_in d ps))
Reviewed ps c (panicked v, (d, w)) = Extends c d

AllKnown-Extends :
    (c d : PermissionCache) (ps : List PermissionRequest)
    → Extends c d
    → AllKnown c ps
    → AllKnown d ps
AllKnown-Extends c d [] h _ = tt
AllKnown-Extends c d (p ∷ ps) h (known, rest) = (
  elim (Option-cases (lookup p c)) [
    | inl absent ↦ absurd (known absent)
    | inr (o, found) ↦ let found' : lookup p d ≡ some o = h p o found in λ none'. cc
  ],
  AllKnown-Extends c d ps h rest,
)

bucket_cases :
    (p : PermissionRequest) (allowed : Bool) (error : Option String)
    (denied failed : List PermissionRequest)
    → add_to_bucket p allowed error (denied, failed) ≡ (
      (if is_denial allowed error then p ∷ denied else denied),
      (if is_failure error then p ∷ failed else failed),
    )
bucket_cases p allowed (some error) denied failed = refl
bucket_cases p false none denied failed = refl
bucket_cases p true none denied failed = refl

bucket_lem :
    (p : PermissionRequest) (o : PermOutcome) (found : Option PermOutcome)
    (denied failed : List PermissionRequest)
    → found ≡ some o
    → add_to_bucket p o.allowed o.error (denied, failed)
      ≡ (denied_if p found denied, failed_if p found failed)
bucket_lem p o found denied failed e = rw e (bucket_cases p o.allowed o.error denied failed)

module _ {W : Type 0} (env : RunnerEnv W) where
  remember_lem :
      (check : Check W) (p : PermissionRequest) (r : Outcome (Bool × Option String))
      (s : RunState W)
      → lookup p s.0 ≡ none
      → Answers p s.0 (remember env check p r s)
  unfolding remember
  remember_lem check p (panicked v) s absent = λ q o e. e
  remember_lem check p (returned (allowed, error)) (c, w) absent =
      let answer : PermOutcome = record { allowed = allowed; error = error } in
      (
        insert-Extends p answer c absent,
        ground (arith, lookup-insert p p answer c, request_eq_iff p p),
      )

  review_lem :
      (check : Check W) (p : PermissionRequest) (s : RunState W)
      → Answers p s.0 (review env check p s)
  unfolding review review_if_absent
  review_lem check p s = elim (Option-cases (lookup p s.0)) [
    | inr (k, found) ↦ rw found ((λ q o e. e), found)
    | inl absent ↦ rw absent (
        let (r, w) = call_reviewer env env.reviewer p s.1 in remember_lem check p r (s.0, w) absent)
  ]

  finish_lem :
      (c : PermissionCache) (p : PermissionRequest) (ps : List PermissionRequest) (o : PermOutcome)
      (d : PermissionCache) (r : Outcome Buckets × RunState W)
      → Extends c d
      → lookup p d ≡ some o
      → Reviewed ps d r
      → Reviewed
          (p ∷ ps)
          c
          (continue r.0 (λ b s. (returned (add_to_bucket p o.allowed o.error b), s)) r.1)
  unfolding denied_in failed_in
  finish_lem c p ps o d (panicked v, (e, w)) h found k = λ q a i. k q a (h q a i)
  finish_lem c p ps o d (returned b, (e, w)) h found (k, known, eq) =
      let found' : lookup p e ≡ some o = k p o found in
      (
        (λ q a i. k q a (h q a i)),
        ((λ none'. cc), known),
        rw eq (bucket_lem p o (lookup p e) (denied_in e ps) (failed_in e ps) found'),
      )

  continue_lem :
      (check : Check W) (c : PermissionCache) (p : PermissionRequest) (ps : List PermissionRequest)
      (r : Outcome PermOutcome × RunState W)
      → ((s : RunState W) → Reviewed ps s.0 (classify_permissions env check ps s))
      → Answers p c r
      → Reviewed (p ∷ ps) c (
          continue r.0
            (λ o. classify_permissions env check ps >>= λ b s.
              (returned (add_to_bucket p o.allowed o.error b), s))
            r.1)
  continue_lem check c p ps (panicked v, (d, w)) ih h = h
  continue_lem check c p ps (returned o, (d, w)) ih (h, found) =
      finish_lem c p ps o d (classify_permissions env check ps (d, w)) h found (ih (d, w))

  -- Classifying permissions keeps every answer that the cache had. If it does not panic, the cache
  -- then has an answer for each of the permissions; the first list that is returned holds, in the
  -- order asked, the permissions whose answer has no error and is not granted, and the second one
  -- those whose answer has an error.
  pub classify_permissions-Reviewed :
      (check : Check W) (ps : List PermissionRequest) (s : RunState W)
      → Reviewed ps s.0 (classify_permissions env check ps s)
  unfolding classify_permissions denied_in failed_in
  classify_permissions-Reviewed check [] s = ((λ q o e. e), tt, refl)
  classify_permissions-Reviewed check (p ∷ ps) s =
      continue_lem check s.0 p ps (review env check p s) (classify_permissions-Reviewed check ps)
        (review_lem check p s)

join_parts-perm : (xs ys : List String) → Permᴰ xs ys → join_parts xs ≡ join_parts ys
join_parts-perm [] [] d = refl
join_parts-perm [] (y ∷ ys) d = ground (arith, length-perm d)
join_parts-perm (x ∷ xs) [] d = ground (arith, length-perm d)
join_parts-perm (x ∷ xs) (y ∷ ys) d =
    ap (join ", ") (sort_by-eq_of_perm_injective text_key (λ a b e. e) d)

-- The message names the permissions whatever their order in the list.
join_permissions-perm :
    {ps qs : List PermissionRequest} → Permᴰ ps qs → join_permissions ps ≡ join_permissions qs
unfolding join_permissions
join_permissions-perm d = join_parts-perm _ _ (Permᴰ.map canonical_string d)
