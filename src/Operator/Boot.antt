-- ===== src/Operator/Boot.antt =====
-- cmd/operator/main.go: `run`, with the guard against several pods, and `main`.
pub mod Starts
use k_deskflight.Operator.{
  RunConfig, Platform, must, obtain, ClusterClients, new_cluster_clients, add_to_scheme,
  manager_options, clients_of, new_reconciler, setup_with_manager, operator_pod_label_selector,
}
use k_deskflight.Base.{
  String, List, [], ◌∷◌, Option, none, some, Bool, true, false, if◌then◌else◌, ◌&◌,
}
use k_deskflight.Base.Exec.{
  Outcome, returned, Exec, Fallible, ok, err, pure, modify, effect, continue, ◌>>=◌,
}
use k_deskflight.Base.Format.{Fmt, show_ℤ}
use k_deskflight.Base.Integers.{ℤ, pos}
use k_deskflight.Domain.{Time}
use k_deskflight.Api.{PreflightCheck}
use k_deskflight.Logging.{Level, Logger, log_entry}
use k_deskflight.Runner.{Race}
use k_deskflight.Checks.KubernetesVersion.{Semver}
use k_deskflight.Checks.ClusterResources.{Quantity}
use k_deskflight.Checks.Naming.{Discoveries, operator_registry}
use k_deskflight.Adapters.{
  Clients, server_version, list_storage_classes, list_ingress_classes, has_api_group,
  list_ready_nodes, can_i,
}
use k_deskflight.Reconciler.{Answer, Request, Reconciler}
use k_deskflight.Reconciler.Steps.{validate_reconciler}
use k_deskflight.Topology.{enforce_single_pod_topology}
use k_deskflight.Topology.Namespace.{resolve_leader_election_namespace}

abbrev product_name : String
product_name = "k-deskflight"

module _ {W : Type 0} (p : Platform W) where
  -- `run` from its last log call on
  start_manager : p.Manager → String → String → Exec W (Option String)
  start_manager mgr namespace source =
      modify (
        p.logger (
          log_entry Level.info "manager starting — blocking on signal handler" (
            ("leader_election_namespace", namespace)
            ∷ ("leader_election_namespace_source", source)
            ∷ [])))
      >>= λ _. must "manager start" (p.start mgr) (pure none)

  -- `run` after the guard
  wire : p.Manager → String → String → ClusterClients p → Exec W (Option String)
  unfolding start_manager setup_with_manager new_reconciler
  wire mgr namespace source cc =
      must "setup reconciler" (setup_with_manager p mgr (new_reconciler p mgr (clients_of p cc)))
        (start_manager mgr namespace source)

  abbrev pub guard : RunConfig → String → ClusterClients p → Exec W (Option String)
  guard cfg namespace cc =
      enforce_single_pod_topology p.fmt (p.list_pods cc.clientset) namespace
        operator_pod_label_selector cfg.expected_replica_count cfg.leader_elect

  -- `run` from the clients of the cluster on
  connect : RunConfig → p.Config → p.Manager → String → String → Exec W (Option String)
  unfolding new_cluster_clients wire enforce_single_pod_topology
  connect cfg rest mgr namespace source =
      obtain "create cluster clients" (new_cluster_clients p rest) (λ cc.
        must "single-pod topology guard" (guard cfg namespace cc) (wire mgr namespace source cc))

  -- `run` from the manager on
  manage : RunConfig → p.Config → String → String → Exec W (Option String)
  unfolding connect
  manage cfg rest namespace source =
      obtain "create manager" (p.new_manager rest (manager_options p cfg namespace)) (λ mgr.
        must "register healthz check" (p.add_healthz_check mgr "ping") (
          must "register readyz check" (p.add_readyz_check mgr "ping")
            (connect cfg rest mgr namespace source)))

  abbrev warn_fallback : W → W
  warn_fallback = p.logger (
      log_entry Level.warn
        "leader-election namespace fell back to 'default' — production deployments MUST inject POD_NAMESPACE via Downward-API"
        (("hint", "see deploy/manifests/deployment.yaml env block") ∷ []))

  -- the namespace of the lease, and where it is from
  abbrev pub lease_namespace : RunConfig → W → (String × String) × W
  lease_namespace cfg w =
      resolve_leader_election_namespace cfg.leader_election_namespace (p.getenv "POD_NAMESPACE" w)
        warn_fallback w

  configure : RunConfig → p.Config → Exec W (Option String)
  unfolding manage resolve_leader_election_namespace
  configure cfg rest =
      effect (lease_namespace cfg) >>= λ (namespace, source). manage cfg rest namespace source

  unfoldable pub run : RunConfig → Exec W (Option String)
  unfolding configure
  run cfg = modify p.set_logger >>= λ _. must "register client-go scheme" p.add_client_go_scheme (
      must "register v1alpha1 scheme" (add_to_scheme p)
        (obtain "load kubeconfig" p.get_config (configure cfg)))

  abbrev exit_status : Option String → Exec W ℤ
  exit_status none = pure (pos 0)
  exit_status (some text) =
      modify (p.logger (log_entry Level.error "operator exited with error" (("err", text) ∷ [])))
      >>= λ _. pure (pos 1)

  abbrev bool_text : Bool → String
  bool_text b = if b then "true" else "false"

  -- `main`, with its exit status
  unfoldable pub main : RunConfig → Exec W ℤ
  unfolding run
  main cfg =
      modify (
        p.logger (
          log_entry Level.info "operator starting" (
            ("product", product_name)
            ∷ ("leader_elect", bool_text cfg.leader_elect)
            ∷ ("expected_replica_count", show_ℤ cfg.expected_replica_count)
            ∷ ("leader_election_id", cfg.leader_election_id)
            ∷ [])))
      >>= λ _. run cfg >>= exit_status
