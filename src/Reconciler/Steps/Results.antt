-- ===== src/Reconciler/Steps/Results.antt =====
-- The results of a run, for the checks that were selected.
use k_deskflight.Base.{
  String, List, [], ◌∷◌, some, ◌≡◌, refl, ap₂, subst, All, All-mem, All-of_mem, Memᴰ, map,
}
use k_deskflight.Base.Exec.{Outcome, returned, panicked, pure, ◌>>=◌}
use k_deskflight.Base.Exec.Laws.{Achieves, continue-Achieves}
use k_deskflight.Base.Maps.{lookup, string_eq}
use k_deskflight.Base.Maps.Entries.{mem_of_lookup, found_of_mem}
use k_deskflight.Domain.{Check, Result}
use k_deskflight.Aggregator.Kinds.{result_name}
use k_deskflight.Domain.Specs.{CheckSpec}
use k_deskflight.Registry.{Registry, resolve, all_checks, list_by_profile}
use k_deskflight.Registry.Keys.{IsKeyed, all_checks_of_mem}
use k_deskflight.Registry.Selection.{list_by_profile_active_iff}
use k_deskflight.Runner.{RunState, run_check_safely}
use k_deskflight.Runner.Outcomes.{MayName, Names, run_check_safely-Names}
use k_deskflight.Reconciler.{Reconciler}
use k_deskflight.Reconciler.Steps.{run_found, run_all, run_checks, runner_env}

module _ {W : Type 0} where
  -- Unless it panics, the check names its results by its condition type.
  abbrev pub NamesResults : Check W → Type 0
  NamesResults c = (spec : CheckSpec) (w : W) → MayName c.condition_type (c.run spec w).0

  abbrev pub condition_type_of : Check W → String
  condition_type_of c = c.condition_type

  abbrev HasSpec : List (String × CheckSpec) → Check W → Type 0
  HasSpec specs c = (spec : CheckSpec) × (lookup c.name specs ≡ some spec)

  -- What a selected check has.
  abbrev IsRunnable : List (String × CheckSpec) → Check W → Type 0
  IsRunnable specs c = HasSpec specs c × NamesResults c

  selected-IsRunnable :
      (registry : Registry W) (profile : String) (specs : List (String × CheckSpec))
      → IsKeyed registry
      → All NamesResults (all_checks registry)
      → All (IsRunnable specs) (list_by_profile registry profile specs).0
  unfolding resolve
  selected-IsRunnable registry profile specs keyed named =
      All-of_mem (IsRunnable specs) (list_by_profile registry profile specs).0 (λ c i.
        let (e, j, found) = (list_by_profile_active_iff registry profile specs c).0 i in
        let entry = mem_of_lookup e.0 c registry found in
        let key : e.0 ≡ c.name =
          All-mem (λ (x : String × Check W). x.0 ≡ x.1.name) registry keyed entry in
        (
          found_of_mem c.name e.1 specs (subst (λ n. Memᴰ (n, e.1) specs) key j),
          All-mem NamesResults (all_checks registry) named (all_checks_of_mem e.0 c registry entry),
        ))

module _ {W : Type 0} (r : Reconciler W) where
  -- The results have these names.
  abbrev pub AreNamed : {S : Type 0} → List String → List Result → S → Type 0
  AreNamed names results s = map result_name results ≡ names

  Named_result :
      (name : String) (o : Outcome Result × RunState W)
      → Names name o.0
      → Achieves (λ (res : Result) (s : RunState W). res.name ≡ name) o
  Named_result name (returned res, s) h = h
  Named_result name (panicked v, s) h = h

  run_all-AreNamed :
      (active : List (Check W)) (specs : List (String × CheckSpec)) (s : RunState W)
      → All (IsRunnable specs) active
      → Achieves (AreNamed (map condition_type_of active)) (run_all r active specs s)
  unfolding run_all run_found
  run_all-AreNamed [] specs s _ = refl
  run_all-AreNamed (c ∷ cs) specs s (((spec, found), named), rest) = rw found (
      continue-Achieves (λ (res : Result) (t : RunState W). res.name ≡ c.condition_type)
        (AreNamed (c.condition_type ∷ map condition_type_of cs))
        (run_check_safely (runner_env r) c spec s)
        (λ res. run_all r cs specs >>= λ results. pure (res ∷ results))
        (Named_result c.condition_type (run_check_safely (runner_env r) c spec s)
          (run_check_safely-Names (runner_env r) c named spec s))
        (λ res t same.
          continue-Achieves (AreNamed (map condition_type_of cs))
            (AreNamed (c.condition_type ∷ map condition_type_of cs)) (run_all r cs specs t)
            (λ results. pure (res ∷ results)) (run_all-AreNamed cs specs t rest)
            (λ results u all. ap₂ (λ x xs. x ∷ xs) same all)))

  -- If each check of the registry stands under its own name, and names its results by its condition
  -- type unless it panics, then a run gives one result for each selected check, in the order of
  -- the selection and named by the check's condition type, whatever panics or times out in it.
  pub run_checks_selected :
      (registry : Registry W) (profile : String) (specs : List (String × CheckSpec)) (w : W)
      → IsKeyed registry
      → All NamesResults (all_checks registry)
      → Achieves
          (AreNamed (map condition_type_of (list_by_profile registry profile specs).0))
          (run_checks r (list_by_profile registry profile specs).0 specs w)
  unfolding run_checks
  run_checks_selected registry profile specs w keyed named =
      forget_cache (map condition_type_of (list_by_profile registry profile specs).0)
        (run_all r (list_by_profile registry profile specs).0 specs ([], w))
        (run_all-AreNamed (list_by_profile registry profile specs).0 specs ([], w)
          (selected-IsRunnable registry profile specs keyed named))
    where
      forget_cache :
          (names : List String) (o : Outcome (List Result) × RunState W)
          → Achieves (AreNamed names) o
          → Achieves (AreNamed names) (o.0, o.1.1)
      forget_cache names (returned results, (cache, w')) h = h
      forget_cache names (panicked v, (cache, w')) h = h
