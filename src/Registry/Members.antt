-- ===== src/Registry/Members.antt =====
-- The checks that a selection takes are those of the registry.
use k_deskflight.Base.{String, List, All, All-of_mem, Memᴰ}
use k_deskflight.Base.Maps.{string_eq}
use k_deskflight.Base.Maps.Entries.{mem_of_lookup}
use k_deskflight.Domain.Specs.{CheckSpec}
use k_deskflight.Registry.{Registry, resolve, all_checks, list_by_profile}
use k_deskflight.Registry.Keys.{all_checks_of_mem}
use k_deskflight.Registry.Selection.{list_by_profile_active_iff}

pub list_by_profile-registered :
    {W : Type 0} (registry : Registry W) (profile : String) (specs : List (String × CheckSpec))
    → All (λ c. Memᴰ c (all_checks registry)) (list_by_profile registry profile specs).0
unfolding resolve
list_by_profile-registered registry profile specs =
    All-of_mem _ (list_by_profile registry profile specs).0 (λ c i.
      let (e, j, found) = (list_by_profile_active_iff registry profile specs c).0 i in
      all_checks_of_mem e.0 c registry (mem_of_lookup e.0 c registry found))
