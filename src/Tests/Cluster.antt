-- ===== src/Tests/Cluster.antt =====
-- The start of the operator, and its clients.
use k_deskflight.Base.{ℕ, String, List, [], ◌∷◌, none, true, false, ◌≡◌, ◌⊎◌, ◌↔◌, refl, Memᴰ}
use k_deskflight.Base.Exec.{returned, Exec, Fallible, ok, err}
use k_deskflight.Base.Integers.{pos}
use k_deskflight.Domain.{ConditionStatus}
use k_deskflight.Domain.Specs.{CheckSpec}
use k_deskflight.Checks.{CheckEnv, HasStatus}
use k_deskflight.Checks.CertManager.{cert_manager_api_group, run_cert_manager}
use k_deskflight.Checks.ClusterResources.{NodeInfo, Quantity}
use k_deskflight.Topology.{
  enforce_single_pod_topology, IsSinglePod, enforce_single_pod_topology_iff,
}
use k_deskflight.Adapters.{Node, Clients, ready_nodes, has_api_group}
use k_deskflight.Adapters.Laws.{IsReady, run_cert_manager_passes_iff, ready_nodes_iff}
use k_deskflight.Tests.Fixtures.{plain_fmt, tick, answers}

abbrev pods : String → String → Exec ℕ (Fallible (List String))
pods namespace selector = answers (ok ("Running" ∷ "Succeeded" ∷ []))

enforce_single_pod_topology_iff_example :
    ((enforce_single_pod_topology plain_fmt pods "desk" "app=desk" (pos 0) false 3).0
      ≡ returned none)
    ↔ ((false ≡ true)
        ⊎ IsSinglePod plain_fmt pods "app=desk" (pos 0) (ok ("Running" ∷ "Succeeded" ∷ [])))
enforce_single_pod_topology_iff_example =
    enforce_single_pod_topology_iff plain_fmt pods "desk" "app=desk" (pos 0) false 3 3
      (ok ("Running" ∷ "Succeeded" ∷ [])) refl

abbrev two : Quantity
two = record { milli_value = 2000; value = 2 }

abbrev nodes : List Node
nodes =
    record {
      name = "a";
      conditions =
          record { kind = "DiskPressure"; status = "False" }
          ∷ record { kind = "Ready"; status = "True" }
          ∷ [];
      cpu = two;
      memory = two;
    }
    ∷ record { name = "b"; conditions = []; cpu = two; memory = two }
    ∷ []

abbrev node_b : NodeInfo
node_b = record { name = "b"; allocatable_cpu_milli = 2000; allocatable_memory_bytes = 2 }

ready_nodes_iff_example : Memᴰ node_b (ready_nodes nodes) ↔ (
    (n : Node) × Memᴰ n nodes
    × IsReady n.conditions
    × ("b" ≡ n.name)
    × (2000 ≡ n.cpu.milli_value)
    × (2 ≡ n.memory.value))
ready_nodes_iff_example = ready_nodes_iff nodes node_b

abbrev clients : Clients ℕ
clients = record {
  nodes = answers (ok nodes);
  storage_classes = answers (ok []);
  ingress_classes = answers (ok []);
  server_groups = answers (ok ("apps" ∷ "cert-manager.io" ∷ []));
  server_version = answers (ok "v1.34.2");
  self_subject_access_review = λ a. answers (err "webhook");
}

abbrev env : CheckEnv ℕ
env = record { now = tick; fmt = plain_fmt }

run_cert_manager_passes_iff_example :
    HasStatus ConditionStatus.is_true
      (run_cert_manager env (has_api_group clients) CheckSpec.cert_manager 3).0
    ↔ Memᴰ cert_manager_api_group ("apps" ∷ "cert-manager.io" ∷ [])
run_cert_manager_passes_iff_example =
    run_cert_manager_passes_iff clients env ("apps" ∷ "cert-manager.io" ∷ []) 3 3 refl
