-- ===== src/Lib.antt =====
-- k-deskflight: a Kubernetes operator that runs preflight checks for an OpenDeskPreflightCheck
-- resource and writes what it found into the resource's status.
--
-- The parts and how they interact. The operator (cmd/operator/main.go) guards against a second pod,
-- registers the five checks and starts the reconciler. A reconcile (Reconcile in
-- internal/hexagon/application/reconciler.go) reads the resource, normalizes its interval, skips a
-- generation that is done, marks the resource as pending, builds the specs of the checks, selects
-- the checks in the registry, marks the resource as running, runs each check, aggregates the results,
-- merges the warning about the interval, and writes the status. A panic is recovered into a status.
--
-- The files:
--   Domain: internal/hexagon/domain, the results, the interface Check, and its children:
--     Domain.Permission (permission.go) and Domain.Specs (the specs and their Validate).
--   Api: api/v1alpha1/opendeskpreflightcheck_types.go, the resource; Api.Schema has the validation
--     markers, which the API server enforces.
--   Logging: internal/hexagon/application/secret_filter.go.
--   Aggregator: aggregator.go (Aggregate, derivePhase, dedupeAndSortConditions); its children hold
--     the laws on the counters, the phase, the conditions, and the order of the results.
--   Interval: interval.go (NormalizeInterval), with Interval.Bounds.
--   Merge: mergeIntervalWarning and what it calls, of reconciler.go.
--   Registry: internal/adapter/check/registry.go (Register, Resolve, All, ListByProfile).
--   Runner: runner.go (RunCheckSafely, classifyPermissions, runWithTimeout, classifyContextEnd), with
--     Runner.Results (the results that stand in for a check); Runner.Permissions describes the
--     review of the permissions by the answers in the cache.
--   Checks: internal/adapter/check, one child for each check; Checks.Naming also has the registry
--     that cmd/operator/main.go fills, and the children named Reads what each check leaves alone.
--     Checks.KubernetesVersion.Passes says how a version may be written.
--   Specs: buildSpecMap and the defaults of the profiles, of reconciler.go.
--   Reconciler: reconciler.go. Reconciler.Outputs are the statuses of runs that were rejected,
--     Reconciler.Steps the methods (markPhase, writeStatus, runChecks, Validate), and
--     Reconciler.Loop Reconcile with handleReconcilePanic.
--   Topology: internal/hexagon/application/leader_topology.go; Topology.Namespace has
--     resolveLeaderElectionNamespace of cmd/operator/main.go.
--   Operator: cmd/operator/main.go with clients.go of internal/adapter/k8s, groupversion_info.go of
--     api/v1alpha1 and SetupWithManager; Operator.Boot has run and main. Its other children put
--     the five checks, the adapters and the reconciler together.
--   Adapters: internal/adapter/k8s, what is made of the answers of the API.
--   Markers: internal/audit/markers/parser.go, which audits of the operator's RBAC markers use; its
--     children hold the triples of a marker, the parsing of printed markers, and the markers that
--     stand above Reconcile.
--   Base: lists, texts, maps, sorting, machine integers, and actions that may panic. Tests: runs at
--     concrete inputs.
--
-- How the code is modelled. Code with effects is an action (Base.Exec): from a state to a value or a
-- panic, and the state after it; what was changed before a panic stays changed. The cluster, the
-- clock, the log and the scheduler act on a type W of which nothing is known. An error is its text; in
-- the reconciler it also has the kind that apierrors sees. A map is an association list whose order
-- stands for the order of an iteration. int32 and int64 are bit patterns with the wrap-around
-- written out; a duration is only compared, and is a signed integer without a bound. A sort of the
-- library is the stable insertion sort, which is the only stable sort by a key.
--
-- Loops are recursion on lists; the one fuel is that of the printing of a number, which starts with
-- the number itself, more than it has digits; that this is enough is in Base.Format.Digits.
--
-- What is a parameter: the libraries that the operator starts with and the client of the API,
-- time.ParseDuration, resource.ParseQuantity, parser.ParseFile, the package semver, %q and the
-- text of a duration in fmt, the deadlines (which branch of the select in runWithTimeout is
-- taken, and how the context ended), and the stack of a panic. The worker's effects are put
-- before the select; a result that comes too late is dropped, as the code drops it.
--
-- What is not modelled: the generated deep copies, since objects are passed as values; the parsing of
-- the command line; the real masking of secrets, which the code leaves to a later version; and the
-- reading of the context inside a check.
pub mod Base
pub mod Domain
pub mod Api
pub mod Aggregator
pub mod Interval
pub mod Merge
pub mod Registry
pub mod Logging
pub mod Runner
pub mod Checks
pub mod Specs
pub mod Reconciler
pub mod Topology
pub mod Operator
pub mod Adapters
pub mod Markers
mod Tests
