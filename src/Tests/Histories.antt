-- ===== src/Tests/Histories.antt =====
-- Reconciles seen through what they write and what they ask for.
use k_deskflight.Base.{
  subst, Bool, Option, ℕ, suc, String, List, [], ◌∷◌, none, some, true, false, ◌≡◌, refl, All, map,
}
use k_deskflight.Base.Exec.{returned, Exec, IsReturned}
use k_deskflight.Base.Exec.Laws.{Achieves}
use k_deskflight.Base.Integers.{pos}
use k_deskflight.Base.Maps.{lookup, insert}
use k_deskflight.Base.Strings.{is_space, trim_space, trim_prefix, split}
use k_deskflight.Base.Text.{str_ltb}
use k_deskflight.Base.Sort.{sort_by}
use k_deskflight.Domain.{Check}
use k_deskflight.Domain.Permission.{PermissionRequest}
use k_deskflight.Domain.Specs.{CheckSpec, validate}
use k_deskflight.Api.{Phase, PreflightCheck, no_check, no_checks}
use k_deskflight.Interval.{normalize_interval}
use k_deskflight.Registry.{Registry, all_checks, list_by_profile}
use k_deskflight.Runner.{Race, RunState, classify_permissions}
use k_deskflight.Specs.{build_spec_map, profile_with_default, defaults_for_profile}
use k_deskflight.Reconciler.{Answer, Request, Reconciler}
use k_deskflight.Reconciler.Steps.{is_already_reconciled, runner_env, validate_reconciler}
use k_deskflight.Reconciler.Steps.Wiring.{validate_reconciler_safe}
use k_deskflight.Reconciler.Steps.Results.{NamesResults, condition_type_of}
use mathlib.Core.Option.{some-injective}
use k_deskflight.Reconciler.Loop.{reconcile}
use k_deskflight.Reconciler.Loop.Reports.{Reports}
use k_deskflight.Reconciler.Loop.Reports.Selected.{reconcile-Reports}
use k_deskflight.Tests.Fixtures.{plain_fmt, parse_minutes, storage_passed, list_classes}

-- The phases that were written, the questions that were asked, and the clock.
abbrev World : Type 0
World = List Phase × List PermissionRequest × ℕ

abbrev tick : World → ℕ × World
tick (phases, asked, t) = (t, (phases, asked, suc t))

-- A check that needs to list storage classes, and passes.
abbrev check_for : String → String → Check World
check_for name condition = record {
  name = name;
  spec_kind = name;
  condition_type = condition;
  required_permissions = list_classes ∷ [];
  run = λ spec w. (returned (record storage_passed { name = condition }), w);
}

abbrev version : Check World
version = check_for "kubernetesVersion" "KubernetesVersionReady"

abbrev manager : Check World
manager = check_for "certManager" "CertManagerInstalled"

abbrev resources : Check World
resources = check_for "clusterResources" "ClusterResourcesReady"

abbrev registry : Registry World
registry =
    ("kubernetesVersion", version) ∷ ("certManager", manager) ∷ ("clusterResources", resources) ∷ []

-- The selection, in the order of the names.
abbrev active : List (Check World)
active = manager ∷ resources ∷ version ∷ []

abbrev fresh : PreflightCheck
fresh = record no_check { generation = 2; spec = record no_check.spec { interval = "10m" } }

abbrev request : Request
request = record { name = "desk"; namespace = "default" }

abbrev operator : Reconciler World
operator = record {
  get = λ req w. (returned (Answer.object fresh), w);
  update_status = λ cr w. (returned (Answer.object cr), (cr.status.phase ∷ w.0, w.1, w.2));
  registry = some registry;
  access_reviewer = some (λ p w. (returned (true, none), (w.0, p ∷ w.1, w.2)));
  logger = none;
  default_logger = λ e w. w;
  check_timeout = pos 0;
  now = some tick;
  wall_clock = tick;
  race = λ w. (Race.result_first none, w);
  stack = "";
  fmt = plain_fmt;
  parse_duration = parse_minutes;
}

abbrev begun : World
begun = ([], [], 3)

written :
    (reconcile operator request begun).1.world.0 ≡ Phase.passed ∷ Phase.running ∷ Phase.pending ∷ []
unfolding reconcile trim_space trim_prefix split str_ltb
written = refl

abbrev specs : List (String × CheckSpec)
specs = (build_spec_map plain_fmt no_checks (defaults_for_profile "production")).0

built : build_spec_map plain_fmt no_checks (defaults_for_profile "production") ≡ (specs, [])
unfolding build_spec_map defaults_for_profile validate trim_space trim_prefix split is_space
built = refl

selected : list_by_profile registry "production" specs ≡ (active, [])
unfolding build_spec_map list_by_profile sort_by lookup insert str_ltb defaults_for_profile validate
    trim_space trim_prefix split is_space
selected = refl

names_results : All NamesResults (all_checks registry)
unfolding all_checks
names_results = ((λ spec w. refl), ((λ spec w. refl), ((λ spec w. refl), tt)))

undone : is_already_reconciled fresh ≡ false
unfolding is_already_reconciled
undone = refl

reconcile-Reports_example :
    Achieves
      (Reports (map condition_type_of active) (normalize_interval plain_fmt parse_minutes "10m").1)
      (reconcile operator request begun)
unfolding profile_with_default
reconcile-Reports_example =
    reconcile-Reports operator (λ cr w. (refl, refl)) registry refl (refl, (refl, (refl, tt)))
      names_results request fresh begun begun refl undone specs active built selected

operator_validated : validate_reconciler operator ≡ none
unfolding validate_reconciler
operator_validated = refl

validate_reconciler_safe_example :
    (reg : Registry World) × (some registry ≡ some reg)
    × All
        (λ (c : Check World).
          (s : RunState World)
          → IsReturned (classify_permissions (runner_env operator) c c.required_permissions s).0)
        (all_checks reg)
validate_reconciler_safe_example =
    validate_reconciler_safe operator operator_validated (λ can_i e p w.
      subst (λ (f : PermissionRequest → Exec World (Bool × Option String)). IsReturned (f p w).0)
        (some-injective _ _ e) tt)
