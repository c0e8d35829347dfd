-- ===== src/Operator.antt =====
-- cmd/operator/main.go: the operator's start; with it NewClusterClients (internal/adapter/k8s/clients.go),
-- the registration of the API types (api/v1alpha1/groupversion_info.go) and SetupWithManager. The
-- libraries and the process are parameters.
pub mod Chains
pub mod Selection
pub mod Lookups
pub mod Reports
pub mod Reviews
pub mod Sent
pub mod Boot
use k_deskflight.Base.{
  String, List, [], ◌∷◌, Option, none, some, Bool, true, false, if◌then◌else◌, ◌&◌,
}
use k_deskflight.Base.Exec.{
  Outcome, returned, Exec, Fallible, ok, err, pure, modify, effect, continue, ◌>>=◌,
}
use k_deskflight.Base.Format.{Fmt, show_ℤ}
use k_deskflight.Base.Integers.{ℤ, pos}
use k_deskflight.Domain.{Time}
use k_deskflight.Api.{PreflightCheck}
use k_deskflight.Logging.{Level, Logger, log_entry}
use k_deskflight.Runner.{Race}
use k_deskflight.Checks.KubernetesVersion.{Semver}
use k_deskflight.Checks.ClusterResources.{Quantity}
use k_deskflight.Checks.Naming.{Discoveries, operator_registry}
use k_deskflight.Adapters.{
  Clients, server_version, list_storage_classes, list_ingress_classes, has_api_group,
  list_ready_nodes, can_i,
}
use k_deskflight.Reconciler.{Answer, Request, Reconciler}
use k_deskflight.Reconciler.Steps.{validate_reconciler}
use k_deskflight.Topology.{enforce_single_pod_topology}
use k_deskflight.Topology.Namespace.{resolve_leader_election_namespace}

abbrev healthz_addr : String
healthz_addr = ":8081"

abbrev metrics_addr : String
metrics_addr = ":8080"

abbrev default_leader_election_id : String
default_leader_election_id = "k-deskflight-operator"

abbrev pub operator_pod_label_selector : String
operator_pod_label_selector =
    "app.kubernetes.io/name=k-deskflight,app.kubernetes.io/component=operator"

pub record RunConfig : Type 0 where
  pub leader_elect : Bool
  pub expected_replica_count : ℤ
  pub leader_election_id : String
  pub leader_election_namespace : String

-- The flags that are not given.
abbrev pub default_config : RunConfig
default_config = record {
  leader_elect = true;
  expected_replica_count = pos 1;
  leader_election_id = default_leader_election_id;
  leader_election_namespace = "";
}

-- schema.GroupVersion
pub record GroupVersion : Type 0 where
  pub group : String
  pub version : String

abbrev pub group_version : GroupVersion
group_version = record { group = "k-deskflight.geo-terrain.net"; version = "v1alpha1" }

-- manager.Options
pub record ManagerOptions : Type 0 where
  pub health_probe_bind_address : String
  pub metrics_bind_address : String
  pub leader_election : Bool
  pub leader_election_id : String
  pub leader_election_namespace : String
  pub leader_election_resource_lock : String
  pub leader_election_release_on_cancel : Bool

-- What the libraries and the process give. An error is its text. `get_object` and `update_object` are the
-- client of a manager, `clients` the requests that are made with the two clients of the cluster.
pub record Platform (W : Type 0) : Type 1 where
  pub Config : Type 0
  pub Manager : Type 0
  pub Clientset : Type 0
  pub Discovery : Type 0
  pub set_logger : W → W
  pub add_client_go_scheme : Exec W (Option String)
  pub add_known_types : GroupVersion → List String → W → W
  pub add_to_group_version : GroupVersion → W → W
  pub build_scheme : Exec W (Option String) → Exec W (Option String)
  pub get_config : Exec W (Fallible Config)
  pub getenv : String → W → String
  pub new_manager : Config → ManagerOptions → Exec W (Fallible Manager)
  pub add_healthz_check : Manager → String → Exec W (Option String)
  pub add_readyz_check : Manager → String → Exec W (Option String)
  pub new_for_config : Config → Exec W (Fallible Clientset)
  pub new_discovery_client_for_config : Config → Exec W (Fallible Discovery)
  pub list_pods : Clientset → String → String → Exec W (Fallible (List String))
  pub clients : Clientset → Discovery → Clients W
  pub get_object : Manager → Request → Exec W Answer
  pub update_object : Manager → PreflightCheck → Exec W Answer
  pub complete : Manager → Reconciler W → Exec W (Option String)
  pub start : Manager → Exec W (Option String)
  pub logger : Logger W
  pub default_logger : Logger W
  pub now : W → Time × W
  pub race : W → Race × W
  pub stack : String
  pub fmt : Fmt
  pub semver : Semver
  pub parse_quantity : String → Fallible Quantity
  pub parse_duration : String → Fallible ℤ

module _ {W : Type 0} where
  -- `if err := …; err != nil { return fmt.Errorf("…: %w", err) }`
  abbrev pub go_on : String → Option String → Exec W (Option String) → Exec W (Option String)
  go_on doing none next = next
  go_on doing (some text) next = pure (some (doing & ": " & text))

  abbrev pub must :
      String → Exec W (Option String) → Exec W (Option String) → Exec W (Option String)
  must doing m next = m >>= λ e. go_on doing e next

  -- the same of a call with a value
  abbrev pub use_value :
      {A : Type 0} → String → Fallible A → (A → Exec W (Option String)) → Exec W (Option String)
  use_value doing (ok a) next = next a
  use_value doing (err text) next = pure (some (doing & ": " & text))

  abbrev pub obtain :
      {A : Type 0}
      → String
      → Exec W (Fallible A)
      → (A → Exec W (Option String))
      → Exec W (Option String)
  obtain doing m next = m >>= λ a. use_value doing a next

module _ {W : Type 0} (p : Platform W) where
  -- ClusterClients
  pub record ClusterClients : Type 0 where
    pub clientset : p.Clientset
    pub discovery : p.Discovery

  abbrev pub pair_with : p.Clientset → Fallible p.Discovery → Fallible ClusterClients
  pair_with cs (ok d) = ok (record { clientset = cs; discovery = d })
  pair_with cs (err text) = err ("create discovery client: " & text)

  abbrev pub add_discovery : p.Config → Fallible p.Clientset → Exec W (Fallible ClusterClients)
  add_discovery cfg (ok cs) = p.new_discovery_client_for_config cfg >>= λ d. pure (pair_with cs d)
  add_discovery cfg (err text) = pure (err ("create kubernetes clientset: " & text))

  unfoldable pub new_cluster_clients : p.Config → Exec W (Fallible ClusterClients)
  new_cluster_clients cfg = p.new_for_config cfg >>= add_discovery cfg

  -- addKnownTypes
  abbrev pub add_known_types : Exec W (Option String)
  add_known_types w = (
    returned none,
    p.add_to_group_version group_version (
        p.add_known_types group_version
          ("OpenDeskPreflightCheck" ∷ "OpenDeskPreflightCheckList" ∷ []) w),
  )

  -- AddToScheme
  abbrev pub add_to_scheme : Exec W (Option String)
  add_to_scheme = p.build_scheme add_known_types

  abbrev pub manager_options : RunConfig → String → ManagerOptions
  manager_options cfg namespace = record {
    health_probe_bind_address = healthz_addr;
    metrics_bind_address = metrics_addr;
    leader_election = cfg.leader_elect;
    leader_election_id = cfg.leader_election_id;
    leader_election_namespace = namespace;
    leader_election_resource_lock = "leases";
    leader_election_release_on_cancel = true;
  }

  -- the adapters of the clients; a nil clock is the wall clock
  abbrev pub discoveries : Clients W → Discoveries W
  discoveries c = record {
    env = record { now = p.now; fmt = p.fmt };
    semver = p.semver;
    parse_quantity = p.parse_quantity;
    server_version = server_version c;
    list_storage_classes = list_storage_classes c;
    list_ingress_classes = list_ingress_classes c;
    has_api_group = has_api_group c;
    list_ready_nodes = list_ready_nodes c;
  }

  abbrev pub clients_of : ClusterClients → Clients W
  clients_of cc = p.clients cc.clientset cc.discovery

  -- the reconciler that `run` builds
  unfoldable pub new_reconciler : p.Manager → Clients W → Reconciler W
  unfolding operator_registry
  new_reconciler mgr c = record {
    get = p.get_object mgr;
    update_status = p.update_object mgr;
    registry = some (operator_registry (discoveries c));
    access_reviewer = some (can_i c);
    logger = some p.logger;
    default_logger = p.default_logger;
    check_timeout = pos 0;
    now = none;
    wall_clock = p.now;
    race = p.race;
    stack = p.stack;
    fmt = p.fmt;
    parse_duration = p.parse_duration;
  }

  abbrev complete_unless : Option String → p.Manager → Reconciler W → Exec W (Option String)
  complete_unless none mgr r = p.complete mgr r
  complete_unless (some text) mgr r = pure (some ("reconciler config invalid: " & text))

  -- SetupWithManager
  unfoldable pub setup_with_manager : p.Manager → Reconciler W → Exec W (Option String)
  unfolding validate_reconciler
  setup_with_manager mgr r = complete_unless (validate_reconciler r) mgr r
