-- ===== src/Tests/Operators.antt =====
-- A start of the operator.
use k_deskflight.Base.{ℕ, String, List, [], ◌∷◌, none, some, true, false, ◌≡◌, refl, All}
use k_deskflight.Base.Exec.{returned, Exec, ok, err}
use k_deskflight.Base.Integers.{pos}
use k_deskflight.Domain.{Check}
use k_deskflight.Base.Exec.Laws.{Achieves}
use k_deskflight.Base.Strings.{is_space, trim_space, trim_prefix, split}
use k_deskflight.Domain.Specs.{CheckSpec, validate}
use k_deskflight.Interval.{normalize_interval}
use k_deskflight.Specs.{build_spec_map, profile_with_default, defaults_for_profile}
use k_deskflight.Reconciler.Steps.{is_already_reconciled}
use k_deskflight.Reconciler.Loop.{reconcile}
use k_deskflight.Reconciler.Loop.Reports.{Reports}
use k_deskflight.Operator.Selection.{asked_types}
use k_deskflight.Operator.Reports.{new_reconciler-Reports}
use k_deskflight.Api.{PreflightCheck, no_check}
use k_deskflight.Runner.{Race}
use k_deskflight.Registry.{all_checks}
use k_deskflight.Checks.Naming.{operator_registry}
use k_deskflight.Adapters.{Clients}
use k_deskflight.Reconciler.{Answer}
use k_deskflight.Operator.{RunConfig, default_config, Platform, new_reconciler}
use k_deskflight.Operator.Boot.{run, main}
use k_deskflight.Operator.Boot.Starts.{IsSafe, Watches}
use k_deskflight.Operator.Boot.Starts.Run.{run-IsSafe}
use k_deskflight.Markers.Grants.{IsGranted, required_permissions-IsGranted}
use k_deskflight.Tests.Fixtures.{plain_fmt, parse_minutes}
use k_deskflight.Tests.Checks.{texts, discoveries}

-- The state of the platform is the list of the started managers; every manager is 7.
abbrev World : Type 0
World = List ℕ

abbrev gives : {A : Type 0} → A → Exec World A
gives a w = (returned a, w)

abbrev no_clients : Clients World
no_clients = record {
  nodes = gives (err "no nodes");
  storage_classes = gives (ok []);
  ingress_classes = gives (ok []);
  server_groups = gives (ok []);
  server_version = gives (ok "v1.34.2");
  self_subject_access_review = λ a. gives (ok true);
}

-- The platform of a cluster with these phases of the operator's pods.
abbrev platform : List String → Platform World
platform phases = record {
  Config = Unit;
  Manager = ℕ;
  Clientset = Unit;
  Discovery = Unit;
  set_logger = λ w. w;
  add_client_go_scheme = gives none;
  add_known_types = λ gv types w. w;
  add_to_group_version = λ gv w. w;
  build_scheme = λ m. m;
  get_config = gives (ok tt);
  getenv = λ name w. "preflight";
  new_manager = λ c o. gives (ok 7);
  add_healthz_check = λ m n. gives none;
  add_readyz_check = λ m n. gives none;
  new_for_config = λ c. gives (ok tt);
  new_discovery_client_for_config = λ c. gives (ok tt);
  list_pods = λ c n s. gives (ok phases);
  clients = λ c d. no_clients;
  get_object = λ m req. gives (Answer.object no_check);
  update_object = λ m cr. gives (Answer.object cr);
  complete = λ m r. gives none;
  start = λ m w. (returned none, m ∷ w);
  logger = λ e w. w;
  default_logger = λ e w. w;
  now = λ w. (3, w);
  race = λ w. (Race.result_first none, w);
  stack = "";
  fmt = plain_fmt;
  semver = texts;
  parse_quantity = λ s. err "no quantity";
  parse_duration = parse_minutes;
}

-- Leader election is off.
abbrev alone : RunConfig
alone = record default_config { leader_elect = false }

one_pod : run (platform ("Running" ∷ "Succeeded" ∷ [])) alone [] ≡ (returned none, 7 ∷ [])
unfolding run
one_pod = refl

two_pods : (run (platform ("Running" ∷ "Pending" ∷ [])) alone []).1 ≡ []
unfolding run
two_pods = refl

exits_with_one : main (platform ("Running" ∷ "Pending" ∷ [])) alone [] ≡ (returned (pos 1), [])
unfolding main
exits_with_one = refl

platform-Watches : (phases : List String) → Watches (platform phases) (λ (w : World). w)
platform-Watches phases = record {
  start = λ m w. refl;
  set_logger = λ w. refl;
  logger = λ e w. refl;
  add_client_go_scheme = λ w. refl;
  add_to_scheme = λ w. refl;
  get_config = λ w. refl;
  new_manager = λ c o w. refl;
  add_healthz_check = λ m n w. refl;
  add_readyz_check = λ m n w. refl;
  new_for_config = λ c w. refl;
  new_discovery_client_for_config = λ c w. refl;
  list_pods = λ c n s w. refl;
  complete = λ m r w. refl;
}

run-IsSafe_example :
    IsSafe
      (platform ("Running" ∷ []))
      (λ (w : World). w)
      (platform-Watches ("Running" ∷ []))
      alone
      []
      (run (platform ("Running" ∷ [])) alone []).1
run-IsSafe_example =
    run-IsSafe (platform ("Running" ∷ [])) (λ (w : World). w) (platform-Watches ("Running" ∷ []))
      alone [] [] refl

required_permissions-IsGranted_example :
    All
      (λ (c : Check ℕ). All IsGranted c.required_permissions)
      (all_checks (operator_registry discoveries))
required_permissions-IsGranted_example = required_permissions-IsGranted discoveries

-- A resource with the spec of ingress classes.
abbrev asking : PreflightCheck
asking = record no_check {
  spec = record no_check.spec {
    checks = record no_check.spec.checks { ingress_class = some ("nginx" ∷ []) };
  };
}

abbrev serving : Platform World
serving = record (platform ("Running" ∷ [])) { get_object = λ m req. gives (Answer.object asking) }

abbrev asked_specs : List (String × CheckSpec)
asked_specs = (build_spec_map plain_fmt asking.spec.checks (defaults_for_profile "production")).0

asked_built :
    build_spec_map plain_fmt asking.spec.checks (defaults_for_profile "production")
    ≡ (asked_specs, [])
unfolding build_spec_map defaults_for_profile validate trim_space trim_prefix split is_space
asked_built = refl

asking_undone : is_already_reconciled asking ≡ false
unfolding is_already_reconciled
asking_undone = refl

new_reconciler-Reports_example :
    Achieves
      (Reports (asked_types asking.spec.checks) (normalize_interval plain_fmt parse_minutes "").1)
      (reconcile
        (new_reconciler serving 7 no_clients)
        (record { name = "desk"; namespace = "default" })
        [])
unfolding profile_with_default
new_reconciler-Reports_example =
    new_reconciler-Reports serving 7 no_clients (λ cr w. (refl, refl))
      (record { name = "desk"; namespace = "default" }) asking [] [] refl asking_undone asked_specs
      asked_built
