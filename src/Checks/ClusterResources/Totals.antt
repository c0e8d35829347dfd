-- ===== src/Checks/ClusterResources/Totals.antt =====
-- When the nodes have enough resources, and how the check names its results.
use k_deskflight.Base.{
  ℕ, String, List, [], ◌∷◌, ◌+◌, ◌<◌, ◌≤◌, ◌||◌, ◌&&◌, not, length, ltb, ◌≡◌, ◌↔◌, refl, arith,
  Bool-cases, inl, inr,
}
use k_deskflight.Base.Exec.{returned, Exec, Fallible, ok, err}
use k_deskflight.Base.Integers.{add_64, lt_64, lt_64-nonneg}
use k_deskflight.Domain.{Severity, ConditionStatus}
use k_deskflight.Domain.Specs.{CheckSpec, ClusterResourcesSpec}
use k_deskflight.Api.Schema.{are_valid_fields, are_valid_fields_if}
use k_deskflight.Runner.Validity.{MayShow, IsResultOf, continue-MayGive}
use k_deskflight.Checks.{CheckEnv, HasStatus}
use k_deskflight.Checks.ClusterResources.{
  NodeInfo, Quantity, sum_nodes, compare_totals, judge_nodes, judge_memory, judge_cpu,
  run_cluster_resources,
}

-- The sums without a bound.
unfoldable pub total_cpu : List NodeInfo → ℕ
total_cpu [] = 0
total_cpu (n ∷ nodes) = n.allocatable_cpu_milli + total_cpu nodes

unfoldable pub total_memory : List NodeInfo → ℕ
total_memory [] = 0
total_memory (n ∷ nodes) = n.allocatable_memory_bytes + total_memory nodes

abbrev two_63 : ℕ
two_63 = 9223372036854775808

sum_nodes_lem :
    (cpu mem : ℕ) (nodes : List NodeInfo)
    → cpu + total_cpu nodes < two_63
    → mem + total_memory nodes < two_63
    → sum_nodes cpu mem nodes ≡ (cpu + total_cpu nodes, mem + total_memory nodes)
unfolding sum_nodes total_cpu total_memory add_64
sum_nodes_lem cpu mem [] h k = ground arith
sum_nodes_lem cpu mem (n ∷ nodes) h k = grind (
  arith,
  sum_nodes_lem (add_64 cpu n.allocatable_cpu_milli) (add_64 mem n.allocatable_memory_bytes) nodes,
)

sum_nodes-total :
    (nodes : List NodeInfo)
    → total_cpu nodes < two_63
    → total_memory nodes < two_63
    → sum_nodes 0 0 nodes ≡ (total_cpu nodes, total_memory nodes)
sum_nodes-total nodes h k = grind (arith, sum_nodes_lem 0 0 nodes)

module _ {W : Type 0} (env : CheckEnv W) (parse_quantity : String → Fallible Quantity)
    (list_ready_nodes : Exec W (Fallible (List NodeInfo))) where
  compare_totals_iff :
      (count cpu mem min_cpu min_mem : ℕ) (w : W)
      → cpu < two_63
      → mem < two_63
      → min_cpu < two_63
      → min_mem < two_63
      → HasStatus ConditionStatus.is_true
          (compare_totals env parse_quantity list_ready_nodes count
            (cpu, mem)
            (min_cpu, min_mem)
            w).0
        ↔ (min_cpu ≤ cpu) × (min_mem ≤ mem)
  unfolding compare_totals
  compare_totals_iff count cpu mem min_cpu min_mem w h k l m =
      let cpu_short = lt_64-nonneg cpu min_cpu h l in
      let mem_short = lt_64-nonneg mem min_mem k m in
      elim (Bool-cases (ltb cpu min_cpu)) [
        | inl short ↦ rw (cpu_short, mem_short, short) ((λ e. cc), (λ p. ground arith))
        | inr enough ↦ elim (Bool-cases (ltb mem min_mem)) [
          | inl short ↦ rw (cpu_short, mem_short, enough, short) ((λ e. cc), (λ p. ground arith))
          | inr enough' ↦
              rw (cpu_short, mem_short, enough, enough')
                ((λ _. (ground arith, ground arith)), (λ _. refl))
        ]
      ]

  -- When the quantities can be parsed and the nodes could be listed, and neither the sums nor the
  -- minimums reach 2^63, the check passes exactly if the sum of the processors over all ready nodes
  -- and the sum of their memory both reach the minimum.
  pub run_cluster_resources_passes_iff :
      (s : ClusterResourcesSpec) (min_cpu min_mem : Quantity) (nodes : List NodeInfo) (w w' : W)
      → parse_quantity s.min_cpu ≡ ok min_cpu
      → parse_quantity s.min_memory ≡ ok min_mem
      → list_ready_nodes w ≡ (returned (ok nodes), w')
      → total_cpu nodes < two_63
      → total_memory nodes < two_63
      → min_cpu.milli_value < two_63
      → min_mem.value < two_63
      → HasStatus ConditionStatus.is_true
          (run_cluster_resources env parse_quantity list_ready_nodes
            (CheckSpec.cluster_resources s)
            w).0
        ↔ (min_cpu.milli_value ≤ total_cpu nodes) × (min_mem.value ≤ total_memory nodes)
  unfolding run_cluster_resources judge_cpu judge_memory judge_nodes
  run_cluster_resources_passes_iff s min_cpu min_mem nodes w w' p q e h k l m =
      rw (p, q, e, sum_nodes-total nodes h k)
        (compare_totals_iff (length nodes) (total_cpu nodes) (total_memory nodes)
          min_cpu.milli_value min_mem.value w' h k l m)

module _ {W : Type 0} (env : CheckEnv W) (parse_quantity : String → Fallible Quantity)
    (list_ready_nodes : Exec W (Fallible (List NodeInfo))) where
  compare_totals-MayShow :
      (count : ℕ) (totals minimums : ℕ × ℕ) (w : W)
      → MayShow "ClusterResourcesReady"
          (compare_totals env parse_quantity list_ready_nodes count totals minimums w).0
  unfolding compare_totals are_valid_fields
  compare_totals-MayShow count (cpu, mem) (min_cpu, min_mem) w =
      elim (Bool-cases (lt_64 cpu min_cpu || lt_64 mem min_mem)) [
        | inl short ↦
            let valid = are_valid_fields_if in
            rw short (
              refl,
              valid (lt_64 cpu min_cpu && not (lt_64 mem min_mem)) "ClusterResourcesReady" _ _
                  Severity.critical refl
                  (valid (lt_64 mem min_mem && not (lt_64 cpu min_cpu)) "ClusterResourcesReady" _ _
                    Severity.critical refl refl),
            )
        | inr enough ↦ rw enough (refl, refl)
      ]

  judge_nodes-MayShow :
      (min_cpu min_mem : Quantity) (nodes : Fallible (List NodeInfo)) (w : W)
      → MayShow "ClusterResourcesReady"
          (judge_nodes env parse_quantity list_ready_nodes min_cpu min_mem nodes w).0
  unfolding judge_nodes are_valid_fields
  judge_nodes-MayShow min_cpu min_mem (err text) w = (refl, refl)
  judge_nodes-MayShow min_cpu min_mem (ok nodes) w =
      compare_totals-MayShow (length nodes) (sum_nodes 0 0 nodes)
        (min_cpu.milli_value, min_mem.value) w

  judge_memory-MayShow :
      (s : ClusterResourcesSpec) (min_cpu : Quantity) (min_mem : Fallible Quantity) (w : W)
      → MayShow "ClusterResourcesReady"
          (judge_memory env parse_quantity list_ready_nodes s min_cpu min_mem w).0
  unfolding judge_memory are_valid_fields
  judge_memory-MayShow s min_cpu (err text) w = (refl, refl)
  judge_memory-MayShow s min_cpu (ok min_mem) w =
      continue-MayGive (IsResultOf "ClusterResourcesReady") (list_ready_nodes w).0 _ _
        (judge_nodes-MayShow min_cpu min_mem)

  judge_cpu-MayShow :
      (s : ClusterResourcesSpec) (min_cpu : Fallible Quantity) (w : W)
      → MayShow "ClusterResourcesReady"
          (judge_cpu env parse_quantity list_ready_nodes s min_cpu w).0
  unfolding judge_cpu are_valid_fields
  judge_cpu-MayShow s (err text) w = (refl, refl)
  judge_cpu-MayShow s (ok min_cpu) w = judge_memory-MayShow s min_cpu _ w

  pub run_cluster_resources-MayShow :
      (spec : CheckSpec) (w : W)
      → MayShow "ClusterResourcesReady"
          (run_cluster_resources env parse_quantity list_ready_nodes spec w).0
  unfolding run_cluster_resources are_valid_fields
  run_cluster_resources-MayShow (CheckSpec.cluster_resources s) w = judge_cpu-MayShow s _ w
  run_cluster_resources-MayShow (CheckSpec.kubernetes_version s) w = (refl, refl)
  run_cluster_resources-MayShow (CheckSpec.storage_class s) w = (refl, refl)
  run_cluster_resources-MayShow (CheckSpec.ingress_class s) w = (refl, refl)
  run_cluster_resources-MayShow CheckSpec.cert_manager w = (refl, refl)
