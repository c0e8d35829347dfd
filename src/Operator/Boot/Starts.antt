-- ===== src/Operator/Boot/Starts.antt =====
-- When the manager of the operator is started.
pub mod Run
use k_deskflight.Base.{
  String, List, [], ◌∷◌, Option, none, some, Bool, true, false, ◌≡◌, ◌⊎◌, inl, inr, refl, sym, ap,
  ◌∙◌, ◌==◌, Bool-cases,
}
use k_deskflight.Base.Exec.{
  Outcome, returned, panicked, Exec, Fallible, ok, err, pure, continue, ◌>>=◌,
}
use k_deskflight.Base.Integers.{ℤ}
use k_deskflight.Logging.{LogEntry}
use k_deskflight.Topology.{IsSinglePod}
use k_deskflight.Topology.Namespace.{resolve_leader_election_namespace}
use k_deskflight.Topology.Passes.{
  enforce_single_pod_topology-inv, enforce_single_pod_topology-Preserves,
}
use k_deskflight.Reconciler.{Reconciler}
use k_deskflight.Reconciler.Steps.{validate_reconciler}
use k_deskflight.Operator.Chains.{must-Ends, obtain-Ends}
use k_deskflight.Operator.{
  RunConfig, GroupVersion, ManagerOptions, Platform, go_on, must, use_value, obtain, ClusterClients,
  new_cluster_clients, pair_with, add_discovery, add_known_types, add_to_scheme, manager_options,
  clients_of, new_reconciler, complete_unless, setup_with_manager, operator_pod_label_selector,
}
use k_deskflight.Operator.Boot.{
  start_manager, wire, guard, connect, manage, lease_namespace, configure, run,
}

module _ {W : Type 0} (p : Platform W) where
  -- The observation is the list of the managers that were started, the last one first: starting a
  -- manager adds it, and no other call changes the list.
  pub record Watches (started : W → List p.Manager) : Type 0 where
    pub start : (m : p.Manager) (w : W) → started (p.start m w).1 ≡ m ∷ started w
    pub set_logger : (w : W) → started (p.set_logger w) ≡ started w
    pub logger : (e : LogEntry) (w : W) → started (p.logger e w) ≡ started w
    pub add_client_go_scheme : (w : W) → started (p.add_client_go_scheme w).1 ≡ started w
    pub add_to_scheme : (w : W) → started (add_to_scheme p w).1 ≡ started w
    pub get_config : (w : W) → started (p.get_config w).1 ≡ started w
    pub new_manager :
        (c : p.Config) (o : ManagerOptions) (w : W) → started (p.new_manager c o w).1 ≡ started w
    pub add_healthz_check :
        (m : p.Manager) (n : String) (w : W) → started (p.add_healthz_check m n w).1 ≡ started w
    pub add_readyz_check :
        (m : p.Manager) (n : String) (w : W) → started (p.add_readyz_check m n w).1 ≡ started w
    pub new_for_config : (c : p.Config) (w : W) → started (p.new_for_config c w).1 ≡ started w
    pub new_discovery_client_for_config :
        (c : p.Config) (w : W) → started (p.new_discovery_client_for_config c w).1 ≡ started w
    pub list_pods :
        (c : p.Clientset) (n s : String) (w : W) → started (p.list_pods c n s w).1 ≡ started w
    pub complete :
        (m : p.Manager) (r : Reconciler W) (w : W) → started (p.complete m r w).1 ≡ started w

  -- The manager was made with the options of the configuration, and the guard against several pods let
  -- it pass: with leader election, or with at most one active pod by the operator's labels in the
  -- namespace of the lease. The controller of the reconciler was registered with it.
  pub record IsCleared (cfg : RunConfig) (mgr : p.Manager) : Type 0 where
    pub namespace : String
    pub rest : p.Config
    pub before : W
    pub made : (p.new_manager rest (manager_options p cfg namespace) before).0 ≡ returned (ok mgr)
    pub cc : ClusterClients p
    pub pods : W
    pub guarded :
        (cfg.leader_elect ≡ true)
        ⊎ ((answer : Fallible (List String)) × ((p.list_pods cc.clientset namespace
                operator_pod_label_selector pods).0
              ≡ returned answer)
            × IsSinglePod p.fmt
                (p.list_pods cc.clientset)
                operator_pod_label_selector
                cfg.expected_replica_count
                answer)
    pub wired : W
    pub completed :
        (p.complete mgr (new_reconciler p mgr (clients_of p cc)) wired).0 ≡ returned none

  module _ (started : W → List p.Manager) (watches : Watches started) (cfg : RunConfig)
      (base : List p.Manager) where
    -- Nothing was started, or one manager that was cleared.
    abbrev pub IsSafe : W → Type 0
    IsSafe w =
        (started w ≡ base) ⊎ ((mgr : p.Manager) × (started w ≡ mgr ∷ base) × IsCleared cfg mgr)

    idle : (w : W) → started w ≡ base → IsSafe w
    idle w same = inl same

    -- The manager is made, by this configuration and in this namespace.
    abbrev IsMade : String → p.Manager → Type 0
    IsMade namespace mgr =
        (rest : p.Config) × (before : W) × ((p.new_manager rest (manager_options p cfg namespace)
            before).0
          ≡ returned (ok mgr))

    go_on-none :
        (doing : String) (o : Outcome (Option String)) (w : W)
        → (continue o (λ e. go_on doing e (pure none)) w).1 ≡ w
    go_on-none doing (returned none) w = refl
    go_on-none doing (returned (some text)) w = refl
    go_on-none doing (panicked v) w = refl

    start-IsSafe :
        (mgr : p.Manager) (namespace source : String) (w : W)
        → started w ≡ base
        → IsCleared cfg mgr
        → IsSafe (start_manager p mgr namespace source w).1
    unfolding start_manager
    start-IsSafe mgr namespace source w same cleared =
        let w' : W = p.logger _ w in
        inr (
          mgr,
          ap started (go_on-none "manager start" (p.start mgr w').0 (p.start mgr w').1)
              ∙ watches.start mgr w'
              ∙ ap (λ ms. mgr ∷ ms) (watches.logger _ w ∙ same),
          cleared,
        )

    wire-IsSafe :
        (mgr : p.Manager) (namespace source : String) (cc : ClusterClients p) (w : W)
        → started w ≡ base
        → ((wired : W)
            → (p.complete mgr (new_reconciler p mgr (clients_of p cc)) wired).0 ≡ returned none
            → IsCleared cfg mgr)
        → IsSafe (wire p mgr namespace source cc w).1
    unfolding wire setup_with_manager validate_reconciler new_reconciler
    wire-IsSafe mgr namespace source cc w same cleared =
        let same' = watches.complete mgr (new_reconciler p mgr (clients_of p cc)) w ∙ same in
        must-Ends started base IsSafe idle "setup reconciler"
          (p.complete mgr (new_reconciler p mgr (clients_of p cc)))
          (start_manager p mgr namespace source) w same'
          (λ done. start-IsSafe mgr namespace source _ same' (cleared w done))

    add_discovery-IsSame :
        (rest : p.Config) (o : Outcome (Fallible p.Clientset)) (w : W)
        → started w ≡ base
        → started (continue o (add_discovery p rest) w).1 ≡ base
    add_discovery-IsSame rest (returned (ok cs)) w same =
        ap started (paired (p.new_discovery_client_for_config rest w).0 _)
        ∙ watches.new_discovery_client_for_config rest w
        ∙ same
      where
        paired :
            (o : Outcome (Fallible p.Discovery)) (v : W)
            → (continue o (λ d. pure (pair_with p cs d)) v).1 ≡ v
        paired (returned d) v = refl
        paired (panicked x) v = refl
    add_discovery-IsSame rest (returned (err text)) w same = same
    add_discovery-IsSame rest (panicked v) w same = same

    clients-IsSame :
        (rest : p.Config) (w : W)
        → started w ≡ base
        → started (new_cluster_clients p rest w).1 ≡ base
    unfolding new_cluster_clients
    clients-IsSame rest w same =
        add_discovery-IsSame rest (p.new_for_config rest w).0 (p.new_for_config rest w).1
          (watches.new_for_config rest w ∙ same)

    guard-IsSame :
        (namespace : String) (cc : ClusterClients p) (w : W)
        → started w ≡ base
        → started (guard p cfg namespace cc w).1 ≡ base
    guard-IsSame namespace cc =
        enforce_single_pod_topology-Preserves p.fmt (p.list_pods cc.clientset)
          (λ v. started v ≡ base) (λ n s v h. watches.list_pods cc.clientset n s v ∙ h) namespace
          operator_pod_label_selector cfg.expected_replica_count cfg.leader_elect

    connect-IsSafe :
        (rest : p.Config) (mgr : p.Manager) (namespace source : String) (w : W)
        → started w ≡ base
        → IsMade namespace mgr
        → IsSafe (connect p cfg rest mgr namespace source w).1
    unfolding connect
    connect-IsSafe rest mgr namespace source w same (c, before, made) =
        obtain-Ends started base IsSafe idle "create cluster clients" (new_cluster_clients p rest) _
          w (clients-IsSame rest w same)
          (λ cc _.
            must-Ends started base IsSafe idle "single-pod topology guard"
              (guard p cfg namespace cc) (wire p mgr namespace source cc) _
              (guard-IsSame namespace cc _ (clients-IsSame rest w same))
              (λ passed.
                wire-IsSafe mgr namespace source cc _
                  (guard-IsSame namespace cc _ (clients-IsSame rest w same))
                  (λ wired completed. record {
                    namespace = namespace;
                    rest = c;
                    before = before;
                    made = made;
                    cc = cc;
                    pods = _;
                    guarded =
                        enforce_single_pod_topology-inv p.fmt (p.list_pods cc.clientset) namespace
                          operator_pod_label_selector cfg.expected_replica_count cfg.leader_elect _
                          passed;
                    wired = wired;
                    completed = completed;
                  })))
