-- ===== src/Tests/Reconciles.antt =====
-- Whole reconciles.
use k_deskflight.Base.{String, List, ℕ, suc, [], none, some, ◌≡◌, refl}
use k_deskflight.Base.Exec.{returned}
use k_deskflight.Base.Exec.Laws.{Achieves}
use k_deskflight.Base.Strings.{trim_space, trim_prefix, split}
use k_deskflight.Base.Text.{str_ltb}
use k_deskflight.Base.Integers.{pos}
use k_deskflight.Api.{Phase, PreflightCheck, no_check, no_status}
use k_deskflight.Interval.{normalize_interval}
use k_deskflight.Runner.{Race}
use k_deskflight.Reconciler.{Answer, Request, after_interval, Reconciler, Session}
use k_deskflight.Reconciler.Steps.{now_of}
use k_deskflight.Domain.Specs.{CheckSpec}
use k_deskflight.Specs.{build_spec_map, defaults_for_profile}
use k_deskflight.Api.{no_checks}
use k_deskflight.Reconciler.Steps.Moves.{IsOnTheWay}
use k_deskflight.Reconciler.Loop.Traces.{reconcile-IsOnTheWay}
use k_deskflight.Reconciler.Loop.{reconcile}
use k_deskflight.Reconciler.Loop.Replies.{IsGone, Ends}
use k_deskflight.Reconciler.Loop.Ends.{reconcile-Ends}
use k_deskflight.Reconciler.Loop.Skips.{reconcile_once}
use k_deskflight.Reconciler.Loop.Completes.{Completes, reconcile-Completes}
use k_deskflight.Tests.Fixtures.{plain_fmt, parse_minutes, tick, answers}

-- A resource of its second generation, and the same when it is done.
abbrev fresh : PreflightCheck
fresh = record no_check { generation = 2; spec = record no_check.spec { interval = "10m" } }

abbrev done : PreflightCheck
done = record fresh { status = record no_status { phase = Phase.passed; observed_generation = 2 } }

abbrev request : Request
request = record { name = "desk"; namespace = "default" }

-- A cluster that stores what it is given, with no check registered.
abbrev operator_for : PreflightCheck → Reconciler ℕ
operator_for cr = record {
  get = λ req. answers (Answer.object cr);
  update_status = λ sent. answers (Answer.object (record sent { resource_version = "new" }));
  registry = some [];
  access_reviewer = none;
  logger = none;
  default_logger = λ e w. w;
  check_timeout = pos 0;
  now = some tick;
  wall_clock = tick;
  race = λ w. (Race.result_first none, w);
  stack = "";
  fmt = plain_fmt;
  parse_duration = parse_minutes;
}

reconcile-Ends_example :
    Achieves
      (Ends (IsGone ((operator_for fresh).get request 3).0))
      (reconcile (operator_for fresh) request 3)
reconcile-Ends_example = reconcile-Ends (operator_for fresh) (λ cr w. (refl, refl)) request 3

-- A cluster that keeps the resource beside the clock.
abbrev Cluster : Type 0
Cluster = PreflightCheck × ℕ

abbrev cluster_tick : Cluster → ℕ × Cluster
cluster_tick (cr, t) = (t, (cr, suc t))

abbrev operator : Reconciler Cluster
operator = record {
  get = λ req w. (returned (Answer.object w.0), w);
  update_status = λ sent w. (returned (Answer.object sent), (sent, w.1));
  registry = some [];
  access_reviewer = none;
  logger = none;
  default_logger = λ e w. w;
  check_timeout = pos 0;
  now = some cluster_tick;
  wall_clock = cluster_tick;
  race = λ w. (Race.result_first none, w);
  stack = "";
  fmt = plain_fmt;
  parse_duration = parse_minutes;
}

abbrev first_session : Session Cluster
first_session = (reconcile operator request (fresh, 3)).1

first_run :
    reconcile operator request (fresh, 3)
    ≡ (returned (after_interval (pos 600000000000), none), first_session)
unfolding reconcile trim_space trim_prefix split str_ltb
first_run = refl

taken :
    operator.get request first_session.world
    ≡ (returned (Answer.object first_session.cr), first_session.world)
unfolding reconcile trim_space trim_prefix split str_ltb
taken = refl

reconcile_once_example :
    ((reconcile operator request first_session.world).0
      ≡ returned (
        after_interval
            (normalize_interval plain_fmt parse_minutes first_session.cr.spec.interval).0,
        none,
      ))
    × ((reconcile operator request first_session.world).1.world
        ≡ (now_of operator first_session.world).1)
reconcile_once_example =
    reconcile_once operator (λ cr w. (refl, refl)) request (fresh, 3)
      (after_interval (pos 600000000000)) first_session first_run (λ e. cc) (λ e. cc)
      first_session.world first_session.world taken

reconcile-Completes_example :
    Achieves
      (Completes (normalize_interval plain_fmt parse_minutes "10m").0)
      (reconcile (operator_for fresh) request 3)
reconcile-Completes_example =
    reconcile-Completes (operator_for fresh) (λ cr w. (refl, refl)) [] refl request fresh 3 3 refl

-- The three checks that run whatever the resource says.
abbrev specs : List (String × CheckSpec)
specs = (build_spec_map plain_fmt no_checks (defaults_for_profile "production")).0

reconcile-IsOnTheWay_example : IsOnTheWay fresh (reconcile operator request (fresh, 3)).1
reconcile-IsOnTheWay_example =
    reconcile-IsOnTheWay operator (λ cr w. (refl, refl)) fresh request (fresh, 3) (fresh, 3) refl
