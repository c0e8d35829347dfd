-- ===== src/Aggregator/Order.antt =====
-- Neither the order in which Go iterates over the map of results nor the order in which the checks
-- ran shows in the status.
use k_deskflight.Base.{
  String, List, [], ◌∷◌, ◌++◌, ◌≡◌, ◌≢◌, refl, sym, ap, ap₂, ◌∙◌, arith, map, All, All-append,
  All-of_mem, Permᴰ, length-perm, eq_iff, length, none,
}
use mathlib.Core.List.Permᴰ
use mathlib.Core.List.{append_assoc, append-nil}
use k_deskflight.Base.Maps.{lookup, insert, string_eq}
use k_deskflight.Base.Sort.{sort_by, HasDistinctKeys}
use k_deskflight.Base.Sort.Unique.{sort_by-eq_of_perm, HasDistinctKeys-perm}
use k_deskflight.Domain.{Severity, ConditionStatus, Time, Result}
use k_deskflight.Aggregator.{
  Tally, count_result, count_results, better, by_name_from, by_name, entry_condition,
  dedupe_and_sort_conditions, aggregate, no_tally,
}
use k_deskflight.Aggregator.Dedupe.{kind_of, conditions-HasDistinctKeys}

-- Whatever order Go iterates over the map of results in, the conditions are the same.
pub conditions_of_iteration :
    (rs : List Result) (es : List (String × Result))
    → Permᴰ (by_name rs) es
    → sort_by kind_of (map entry_condition es) ≡ dedupe_and_sort_conditions rs
unfolding dedupe_and_sort_conditions
conditions_of_iteration rs es d =
    sym (sort_by-eq_of_perm kind_of (Permᴰ.map entry_condition d) (conditions-HasDistinctKeys rs))

count_result_comm :
    (st st' : ConditionStatus) (sev sev' : Severity) (t : Tally)
    → count_result st sev (count_result st' sev' t) ≡ count_result st' sev' (count_result st sev t)
unfolding count_result
count_result_comm st st' sev sev' t = ground arith

count_results-perm :
    {xs ys : List Result} (t : Tally) → Permᴰ xs ys → count_results xs t ≡ count_results ys t
unfolding count_results
count_results-perm t Permᴰ.nil = refl
count_results-perm t (Permᴰ.cons {a} {b} {l₂ = l} e d) =
    count_results-perm (count_result a.status a.severity t) d
    ∙ ap (λ (r : Result). count_results l (count_result r.status r.severity t)) e
count_results-perm t (Permᴰ.swap {a} {b} {l} e f) =
    ap (count_results l) (count_result_comm b.status a.status b.severity a.severity t)
    ∙ ap₂
        (λ (r s : Result).
          count_results l (count_result r.status r.severity (count_result s.status s.severity t)))
        e f
count_results-perm t (Permᴰ.trans d d') = count_results-perm t d ∙ count_results-perm t d'

abbrev pub name_of : Result → String
name_of r = r.name

abbrev named : Result → String × Result
named r = (r.name, r)

insert_new :
    (k : String) (r : Result) (m : List (String × Result))
    → All (λ e. e.0 ≢ k) m
    → insert k r m ≡ m ++ (k, r) ∷ []
unfolding insert
insert_new k r [] _ = refl
insert_new k r (e ∷ m) (ne, h) = ground (arith, eq_iff e.0 k, insert_new k r m h)

lookup_new : (k : String) (m : List (String × Result)) → All (λ e. e.0 ≢ k) m → lookup k m ≡ none
unfolding lookup
lookup_new k [] _ = refl
lookup_new k (e ∷ m) (ne, h) = ground (arith, eq_iff e.0 k, lookup_new k m h)

abbrev IsFreshIn : List (String × Result) → Result → Type 0
IsFreshIn m r = All (λ e. e.0 ≢ r.name) m

fresh_after :
    (m : List (String × Result)) (r : Result) (rs : List Result)
    → All (IsFreshIn m) rs
    → All (λ s. name_of r ≢ name_of s) rs
    → All (IsFreshIn (m ++ (r.name, r) ∷ [])) rs
fresh_after m r [] _ _ = tt
fresh_after m r (s ∷ rs) (h, hs) (ne, nes) =
    (All-append (λ e. e.0 ≢ s.name) m ((r.name, r) ∷ []) h (ne, tt), fresh_after m r rs hs nes)

-- With distinct names the map holds each result under its name.
by_name_from_distinct :
    (m : List (String × Result)) (rs : List Result)
    → All (IsFreshIn m) rs
    → HasDistinctKeys name_of rs
    → by_name_from m rs ≡ m ++ map named rs
unfolding by_name_from
by_name_from_distinct m [] _ _ = sym (append-nil m)
by_name_from_distinct m (r ∷ rs) (h, hs) (new, d) =
    ap (λ n. by_name_from n rs) (step ∙ insert_new r.name r m h)
    ∙ by_name_from_distinct (m ++ (r.name, r) ∷ []) rs (fresh_after m r rs hs new) d
    ∙ append_assoc m ((r.name, r) ∷ []) (map named rs)
  where
    step : insert r.name (better (lookup r.name m) r) m ≡ insert r.name r m
    step = rw (lookup_new r.name m h) (unfold better in refl)

by_name_distinct : (rs : List Result) → HasDistinctKeys name_of rs → by_name rs ≡ map named rs
unfolding by_name
by_name_distinct rs d = by_name_from_distinct [] rs (All-of_mem _ rs (λ a m. tt)) d

conditions-perm :
    {xs ys : List Result}
    → Permᴰ xs ys
    → HasDistinctKeys name_of xs
    → dedupe_and_sort_conditions xs ≡ dedupe_and_sort_conditions ys
conditions-perm {xs} {ys} d h =
    sym (
      conditions_of_iteration xs (by_name ys) (
        rw (by_name_distinct xs h, by_name_distinct ys (HasDistinctKeys-perm name_of d h))
          (Permᴰ.map named d)))
    ∙ conditions_of_iteration ys (by_name ys) (Permᴰ.refl (by_name ys))

-- Two runs with the same results in another order write the same phase, counters and conditions, if
-- the names of the results are distinct.
pub aggregate-perm :
    {xs ys : List Result} (now : Time)
    → Permᴰ xs ys
    → HasDistinctKeys name_of xs
    → aggregate xs now ≡ aggregate ys now
unfolding aggregate
aggregate-perm {xs} {ys} now d h =
    rw (length-perm d, count_results-perm (no_tally (length ys) now) d, conditions-perm d h)
