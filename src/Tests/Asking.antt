-- ===== src/Tests/Asking.antt =====
-- A run of the operator, seen through the permissions that it asks for.
use k_deskflight.Base.{All, String, List, [], ◌∷◌, none, true, refl, AreDistinct}
use k_deskflight.Base.Exec.{returned, Exec, ok, err}
use k_deskflight.Domain.Permission.{PermissionRequest}
use k_deskflight.Domain.Specs.{CheckSpec}
use k_deskflight.Api.{no_check}
use k_deskflight.Adapters.{Clients}
use k_deskflight.Markers.Grants.{IsGranted}
use k_deskflight.Runner.{Race}
use k_deskflight.Reconciler.{Answer}
use k_deskflight.Reconciler.Steps.{run_checks}
use k_deskflight.Operator.{Platform, new_reconciler}
use k_deskflight.Operator.Reviews.{WatchesReviews, selected_checks, new_reconciler_reviews}
use k_deskflight.Tests.Fixtures.{plain_fmt, parse_minutes}
use k_deskflight.Tests.Checks.{texts}

-- The permissions that were asked for.
abbrev World : Type 0
World = List PermissionRequest

abbrev gives : {A : Type 0} → A → Exec World A
gives a w = (returned a, w)

abbrev clients : Clients World
clients = record {
  nodes = gives (err "no nodes");
  storage_classes = gives (ok []);
  ingress_classes = gives (ok []);
  server_groups = gives (ok []);
  server_version = gives (ok "v1.34.2");
  self_subject_access_review = λ a w. (
    returned (ok true),
    record {
      group = a.group;
      resource = a.resource;
      subresource = a.subresource;
      verb = a.verb;
      namespace = a.namespace;
    }
        ∷ w,
  );
}

abbrev platform : Platform World
platform = record {
  Config = Unit;
  Manager = Unit;
  Clientset = Unit;
  Discovery = Unit;
  set_logger = λ w. w;
  add_client_go_scheme = gives none;
  add_known_types = λ gv types w. w;
  add_to_group_version = λ gv w. w;
  build_scheme = λ m. m;
  get_config = gives (ok tt);
  getenv = λ name w. "preflight";
  new_manager = λ c o. gives (ok tt);
  add_healthz_check = λ m n. gives none;
  add_readyz_check = λ m n. gives none;
  new_for_config = λ c. gives (ok tt);
  new_discovery_client_for_config = λ c. gives (ok tt);
  list_pods = λ c n s. gives (ok []);
  clients = λ c d. clients;
  get_object = λ m req. gives (Answer.object no_check);
  update_object = λ m cr. gives (Answer.object cr);
  complete = λ m r. gives none;
  start = λ m. gives none;
  logger = λ e w. w;
  default_logger = λ e w. w;
  now = λ w. (3, w);
  race = λ w. (Race.result_first none, w);
  stack = "";
  fmt = plain_fmt;
  semver = texts;
  parse_quantity = λ s. err "no quantity";
  parse_duration = parse_minutes;
}

platform-WatchesReviews : WatchesReviews platform clients (λ w. w)
platform-WatchesReviews = record {
  lookups = record {
    nodes = λ w. refl;
    storage_classes = λ w. refl;
    ingress_classes = λ w. refl;
    server_groups = λ w. refl;
    server_version = λ w. refl;
    clock = λ w. refl;
  };
  seen = λ q w. (tt, refl);
  races = λ w. refl;
  logs = λ e w. refl;
}

-- Two checks that need a permission.
abbrev specs : List (String × CheckSpec)
specs =
    ("storageClass", CheckSpec.storage_class (record { names = []; require_default = true }))
    ∷ ("clusterResources", CheckSpec.cluster_resources (record { min_cpu = "1"; min_memory = "1" }))
    ∷ []

abbrev was_asked : World
was_asked =
    (run_checks (new_reconciler platform tt clients)
      (selected_checks platform tt clients (λ w. w) platform-WatchesReviews "production" specs)
      specs []).1

new_reconciler_reviews_example : AreDistinct was_asked × All IsGranted was_asked
new_reconciler_reviews_example =
    new_reconciler_reviews platform tt clients (λ w. w) platform-WatchesReviews "production" specs
      [] refl
