-- ===== src/Checks/ClusterResources.antt =====
-- internal/adapter/check/clusterresources.go; the parsing of quantities (k8s.io/apimachinery) is a
-- parameter. An int64 is its bit pattern.
pub mod Totals
pub mod Reads
use k_deskflight.Base.{
  Option, ℕ, String, List, [], ◌∷◌, ◌++◌, ◌+◌, ◌<◌, ◌≤◌, Bool, not, ◌&&◌, ◌||◌, length, ltb, ◌≡◌,
  ◌↔◌, refl, arith, if◌then◌else◌, ◌&◌, join, Bool-cases, inl, inr,
}
use k_deskflight.Base.Exec.{returned, Exec, Fallible, ok, err, ◌>>=◌}
use k_deskflight.Base.Format.{show_nat, show_64}
use k_deskflight.Base.Integers.{add_64, lt_64, lt_64-nonneg}
use k_deskflight.Domain.{ConditionStatus, Result, Check, Time}
use k_deskflight.Domain.Permission.{PermissionRequest}
use k_deskflight.Domain.Specs.{CheckSpec, ClusterResourcesSpec}
use k_deskflight.Runner.Outcomes.{MayName, continue-MayName}
use k_deskflight.Checks.{CheckEnv, with_clock, passed, failed, unknown, invalid_spec, HasStatus}

-- internal/hexagon/port/nodes.go
pub record NodeInfo : Type 0 where
  pub name : String
  pub allocatable_cpu_milli : ℕ
  pub allocatable_memory_bytes : ℕ

-- What is used of resource.Quantity.
pub record Quantity : Type 0 where
  pub milli_value : ℕ
  pub value : ℕ

abbrev pub node_permissions : List PermissionRequest
node_permissions =
    record { group = ""; resource = "nodes"; subresource = ""; verb = "list"; namespace = "" } ∷ []

-- the loop over the nodes, from the totals so far
unfoldable pub sum_nodes : ℕ → ℕ → List NodeInfo → ℕ × ℕ
unfolding add_64
sum_nodes cpu mem [] = (cpu, mem)
sum_nodes cpu mem (n ∷ nodes) =
    sum_nodes (add_64 cpu n.allocatable_cpu_milli) (add_64 mem n.allocatable_memory_bytes) nodes

diagnostics : Bool → Bool → ℕ × ℕ → ℕ × ℕ → List String
diagnostics cpu_short mem_short (cpu, mem) (min_cpu, min_mem) =
    (if cpu_short
      then ("cpu: " & show_64 cpu & "m allocatable, need " & show_64 min_cpu & "m") ∷ []
      else [])
    ++ (if mem_short
        then ("memory: " & show_64 mem & " bytes allocatable, need " & show_64 min_mem & " bytes")
          ∷ []
        else [])

module _ {W : Type 0} (env : CheckEnv W) (parse_quantity : String → Fallible Quantity)
    (list_ready_nodes : Exec W (Fallible (List NodeInfo))) where
  -- the method `passed`
  abbrev resources_passed : String → String → Exec W Result
  resources_passed reason message = passed env "ClusterResourcesReady" reason message

  -- the method `unknown`
  abbrev resources_unknown : String → String → Exec W Result
  resources_unknown reason message = unknown env "ClusterResourcesReady" reason message

  compare_totals : ℕ → ℕ × ℕ → ℕ × ℕ → Exec W Result
  unfolding lt_64 diagnostics
  compare_totals count (cpu, mem) (min_cpu, min_mem) =
      let cpu_short = lt_64 cpu min_cpu in
      let mem_short = lt_64 mem min_mem in
      if cpu_short || mem_short
      then failed env "ClusterResourcesReady"
          (if cpu_short && not mem_short
            then "InsufficientCPU"
            else if mem_short && not cpu_short
            then "InsufficientMemory"
            else "InsufficientResources")
          (join "; " (diagnostics cpu_short mem_short (cpu, mem) (min_cpu, min_mem)))
      else resources_passed "ResourcesSufficient" (
          "allocatable "
          & show_64 cpu
          & "m CPU / "
          & show_64 mem
          & " bytes memory across "
          & show_nat count
          & " Ready node(s) satisfies "
          & show_64 min_cpu
          & "m / "
          & show_64 min_mem
          & " minimum")

  judge_nodes : Quantity → Quantity → Fallible (List NodeInfo) → Exec W Result
  unfolding sum_nodes compare_totals
  judge_nodes min_cpu min_mem (err text) =
      resources_unknown "ClusterResourcesLookupFailed" ("node lookup failed: " & text)
  judge_nodes min_cpu min_mem (ok nodes) =
      compare_totals (length nodes) (sum_nodes 0 0 nodes) (min_cpu.milli_value, min_mem.value)

  judge_memory : ClusterResourcesSpec → Quantity → Fallible Quantity → Exec W Result
  unfolding judge_nodes
  judge_memory s min_cpu (ok min_mem) = list_ready_nodes >>= judge_nodes min_cpu min_mem
  judge_memory s min_cpu (err text) =
      resources_unknown "InvalidSpec"
        ("clusterResources.minMemory " & env.fmt.quote s.min_memory & ": " & text)

  judge_cpu : ClusterResourcesSpec → Fallible Quantity → Exec W Result
  unfolding judge_memory
  judge_cpu s (ok min_cpu) = judge_memory s min_cpu (parse_quantity s.min_memory)
  judge_cpu s (err text) =
      resources_unknown "InvalidSpec"
        ("clusterResources.minCPU " & env.fmt.quote s.min_cpu & ": " & text)

  unfoldable pub run_cluster_resources : CheckSpec → Exec W Result
  unfolding judge_cpu
  run_cluster_resources (CheckSpec.cluster_resources s) = judge_cpu s (parse_quantity s.min_cpu)
  run_cluster_resources spec = invalid_spec env "ClusterResourcesReady" "clusterResources" spec

  abbrev pub cluster_resources_check : Check W
  cluster_resources_check = record {
    name = "clusterResources";
    spec_kind = "clusterResources";
    condition_type = "ClusterResourcesReady";
    required_permissions = node_permissions;
    run = run_cluster_resources;
  }

-- NewClusterResources
abbrev pub new_cluster_resources :
    {W : Type 0}
    → CheckEnv W
    → (String → Fallible Quantity)
    → Exec W (Fallible (List NodeInfo))
    → Option (W → Time × W)
    → Check W
new_cluster_resources env parse_quantity list_ready_nodes now =
    cluster_resources_check (with_clock env now) parse_quantity list_ready_nodes
