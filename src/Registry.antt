-- ===== src/Registry.antt =====
-- internal/adapter/check/registry.go and internal/hexagon/port/checkregistry.go: the checks that the
-- operator knows, by name. The lock makes each method one step, and the calls do not overlap.
pub mod Selection
pub mod Keys
pub mod Members
use k_deskflight.Base.{String, List, [], ◌∷◌, Option, none, some, map}
use k_deskflight.Base.Maps.{lookup, insert, string_eq}
use k_deskflight.Base.Sort.{sort_by}
use k_deskflight.Domain.{Check}
use k_deskflight.Domain.Specs.{CheckSpec}

pub record CheckSelectionIssue : Type 0 where
  pub name : String
  pub reason : String

-- the map `checks`
abbrev pub Registry : Type 0 → Type 0
Registry W = List (String × Check W)

abbrev pub Selected : Type 0 → Type 0
Selected W = List (Check W) × List (String × CheckSelectionIssue)

abbrev pub unknown_check : String → CheckSelectionIssue
unknown_check name = record { name = name; reason = "UnknownCheck" }

abbrev pub issue_name : CheckSelectionIssue → String
issue_name i = i.name

abbrev issue_of : String × CheckSelectionIssue → CheckSelectionIssue
issue_of (name, i) = i

module _ {W : Type 0} where
  abbrev pub new_registry : Registry W
  new_registry = []

  unfoldable pub register : Check W → Registry W → Registry W
  register c r = insert c.name c r

  unfoldable pub resolve : String → Registry W → Option (Check W)
  resolve name r = lookup name r

  -- in the order of the iteration over the map
  unfoldable pub all_checks : Registry W → List (Check W)
  all_checks [] = []
  all_checks ((name, c) ∷ r) = c ∷ all_checks r

  abbrev select_found : String → Option (Check W) → Selected W → Selected W
  select_found name none (active, issues) = (active, insert name (unknown_check name) issues)
  select_found name (some c) (active, issues) = (c ∷ active, issues)

  -- the loop over the names of the specs; `active` grows at its end
  unfoldable pub select : Registry W → List (String × CheckSpec) → Selected W
  select r [] = ([], [])
  select r ((name, spec) ∷ specs) = select_found name (lookup name r) (select r specs)

  abbrev pub check_name : Check W → String
  check_name c = c.name

  -- The profile is not looked at.
  unfoldable pub list_by_profile :
      Registry W → String → List (String × CheckSpec) → List (Check W) × List CheckSelectionIssue
  unfolding select lookup insert sort_by
  list_by_profile r profile specs =
      let (active, issues) = select r specs in
      (sort_by check_name active, sort_by issue_name (map issue_of issues))
