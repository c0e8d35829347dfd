-- ===== src/Checks/ClusterResources/Reads.antt =====
-- The check of the resources changes nothing but what its lookup and its clock change.
use k_deskflight.Base.{ℕ, String, List, ◌||◌, Bool-cases, inl, inr}
use k_deskflight.Base.Exec.{Exec, Fallible, ok, err}
use k_deskflight.Base.Exec.Laws.{Preserves, bind-Preserves}
use k_deskflight.Base.Integers.{lt_64}
use k_deskflight.Domain.Specs.{CheckSpec, ClusterResourcesSpec}
use k_deskflight.Checks.{CheckEnv}
use k_deskflight.Checks.ClusterResources.{
  NodeInfo, Quantity, compare_totals, judge_nodes, judge_memory, judge_cpu, run_cluster_resources,
}

module _ {W : Type 0} (env : CheckEnv W) (parse_quantity : String → Fallible Quantity)
    (list_ready_nodes : Exec W (Fallible (List NodeInfo))) (i : W → Type 0)
    (clock : (w : W) → i w → i (env.now w).1) (reads : Preserves i list_ready_nodes) where
  compare_totals-Keeps :
      (count : ℕ) (totals minimums : ℕ × ℕ)
      → Preserves i (compare_totals env parse_quantity list_ready_nodes count totals minimums)
  unfolding compare_totals
  compare_totals-Keeps count (cpu, mem) (min_cpu, min_mem) w h =
      elim (Bool-cases (lt_64 cpu min_cpu || lt_64 mem min_mem)) [
        | inl short ↦ rw short (clock w h)
        | inr enough ↦ rw enough (clock w h)
      ]

  judge_nodes-Keeps :
      (min_cpu min_mem : Quantity) (nodes : Fallible (List NodeInfo))
      → Preserves i (judge_nodes env parse_quantity list_ready_nodes min_cpu min_mem nodes)
  unfolding judge_nodes
  judge_nodes-Keeps min_cpu min_mem (err text) = clock
  judge_nodes-Keeps min_cpu min_mem (ok nodes) =
      λ w. compare_totals-Keeps _ _ (min_cpu.milli_value, min_mem.value) w

  judge_memory-Keeps :
      (s : ClusterResourcesSpec) (min_cpu : Quantity) (min_mem : Fallible Quantity)
      → Preserves i (judge_memory env parse_quantity list_ready_nodes s min_cpu min_mem)
  unfolding judge_memory
  judge_memory-Keeps s min_cpu (err text) = clock
  judge_memory-Keeps s min_cpu (ok min_mem) =
      bind-Preserves i list_ready_nodes
        (judge_nodes env parse_quantity list_ready_nodes min_cpu min_mem) reads
        (judge_nodes-Keeps min_cpu min_mem)

  judge_cpu-Keeps :
      (s : ClusterResourcesSpec) (min_cpu : Fallible Quantity)
      → Preserves i (judge_cpu env parse_quantity list_ready_nodes s min_cpu)
  unfolding judge_cpu
  judge_cpu-Keeps s (err text) = clock
  judge_cpu-Keeps s (ok min_cpu) = λ w. judge_memory-Keeps s min_cpu _ w

  pub run_cluster_resources-Keeps :
      (spec : CheckSpec)
      → Preserves i (run_cluster_resources env parse_quantity list_ready_nodes spec)
  unfolding run_cluster_resources
  run_cluster_resources-Keeps (CheckSpec.cluster_resources s) = λ w. judge_cpu-Keeps s _ w
  run_cluster_resources-Keeps (CheckSpec.kubernetes_version s) = clock
  run_cluster_resources-Keeps (CheckSpec.storage_class s) = clock
  run_cluster_resources-Keeps (CheckSpec.ingress_class s) = clock
  run_cluster_resources-Keeps CheckSpec.cert_manager = clock
