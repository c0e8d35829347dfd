-- ===== src/Tests/Schema.antt =====
-- A reconcile of the operator, seen through the statuses that it sends.
use k_deskflight.Base.{All, List, [], ◌∷◌, none, true, ◌≡◌, refl, map}
use k_deskflight.Base.Exec.{returned, Exec, ok, err}
use k_deskflight.Base.Strings.{trim_space, trim_prefix, split}
use k_deskflight.Base.Text.{str_ltb}
use k_deskflight.Api.{Phase, PreflightStatus, PreflightCheck, no_check}
use k_deskflight.Api.Schema.{IsValidStatus}
use k_deskflight.Adapters.{Clients, has_api_group, can_i, server_version}
use k_deskflight.Checks.CertManager.{run_cert_manager}
use k_deskflight.Checks.ClusterResources.{run_cluster_resources}
use k_deskflight.Checks.KubernetesVersion.{run_kubernetes_version}
use k_deskflight.Checks.Naming.{operator_registry, operator_registry-GivesValid}
use k_deskflight.Registry.{all_checks}
use k_deskflight.Runner.{Race}
use k_deskflight.Runner.Validity.{GivesValid}
use k_deskflight.Reconciler.{Answer, Request}
use k_deskflight.Reconciler.Writes.{Settled}
use k_deskflight.Reconciler.Loop.{reconcile}
use k_deskflight.Operator.{Platform, new_reconciler}
use k_deskflight.Operator.Sent.{WatchesStatus, new_reconciler_valid, new_reconciler-Settled}
use k_deskflight.Tests.Fixtures.{plain_fmt, parse_minutes}
use k_deskflight.Tests.Checks.{texts, discoveries}

-- The statuses that were sent.
abbrev World : Type 0
World = List PreflightStatus

abbrev gives : {A : Type 0} → A → Exec World A
gives a w = (returned a, w)

abbrev clients : Clients World
clients = record {
  nodes = gives (err "no nodes");
  storage_classes = gives (ok []);
  ingress_classes = gives (ok []);
  server_groups = gives (ok []);
  server_version = gives (ok "v1.34.2");
  self_subject_access_review = λ a. gives (ok true);
}

-- A resource with an interval of a minute.
abbrev frequent : PreflightCheck
frequent = record no_check { generation = 2; spec = record no_check.spec { interval = "1m" } }

abbrev request : Request
request = record { name = "desk"; namespace = "default" }

abbrev platform : Platform World
platform = record {
  Config = Unit;
  Manager = Unit;
  Clientset = Unit;
  Discovery = Unit;
  set_logger = λ w. w;
  add_client_go_scheme = gives none;
  add_known_types = λ gv types w. w;
  add_to_group_version = λ gv w. w;
  build_scheme = λ m. m;
  get_config = gives (ok tt);
  getenv = λ name w. "preflight";
  new_manager = λ c o. gives (ok tt);
  add_healthz_check = λ m n. gives none;
  add_readyz_check = λ m n. gives none;
  new_for_config = λ c. gives (ok tt);
  new_discovery_client_for_config = λ c. gives (ok tt);
  list_pods = λ c n s. gives (ok []);
  clients = λ c d. clients;
  get_object = λ m req. gives (Answer.object frequent);
  update_object = λ m cr w. (returned (Answer.object cr), cr.status ∷ w);
  complete = λ m r. gives none;
  start = λ m. gives none;
  logger = λ e w. w;
  default_logger = λ e w. w;
  now = λ w. (3, w);
  race = λ w. (Race.result_first none, w);
  stack = "";
  fmt = plain_fmt;
  semver = texts;
  parse_quantity = λ s. err "no quantity";
  parse_duration = parse_minutes;
}

platform-WatchesStatus : WatchesStatus platform tt clients (λ w. w)
platform-WatchesStatus = record {
  lookups = record {
    nodes = λ w. refl;
    storage_classes = λ w. refl;
    ingress_classes = λ w. refl;
    server_groups = λ w. refl;
    server_version = λ w. refl;
    clock = λ w. refl;
  };
  reviews = λ a w. refl;
  races = λ w. refl;
  logs = λ e w. refl;
  gets = λ req w. refl;
  updates = λ cr w. refl;
}

new_reconciler_valid_example :
    All IsValidStatus (reconcile (new_reconciler platform tt clients) request []).1.world
new_reconciler_valid_example =
    new_reconciler_valid platform tt clients (λ w. w) platform-WatchesStatus (λ req w. (tt, tt))
      (λ cr w valid. valid.1) request [] tt

new_reconciler-Settled_example : Settled [] (
    map
      (λ (st : PreflightStatus). st.phase)
      (reconcile (new_reconciler platform tt clients) request []).1.world)
new_reconciler-Settled_example =
    new_reconciler-Settled platform tt clients (λ w. w) platform-WatchesStatus request []

sent_phases :
    map
      (λ (st : PreflightStatus). st.phase)
      (reconcile (new_reconciler platform tt clients) request []).1.world
    ≡ Phase.warning ∷ Phase.running ∷ Phase.pending ∷ []
unfolding reconcile new_reconciler trim_space trim_prefix split str_ltb run_cert_manager
    run_cluster_resources run_kubernetes_version has_api_group can_i server_version
sent_phases = refl

operator_registry-GivesValid_example : All GivesValid (all_checks (operator_registry discoveries))
operator_registry-GivesValid_example = operator_registry-GivesValid discoveries
