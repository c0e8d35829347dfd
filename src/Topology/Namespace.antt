-- ===== src/Topology/Namespace.antt =====
-- cmd/operator/main.go: the namespace of the lease.
use k_deskflight.Base.{
  String, not, ◌&&◌, ◌==◌, ◌≡◌, ◌≢◌, inl, inr, refl, eq_iff, if◌then◌else◌, Bool-cases,
}

-- `resolveLeaderElectionNamespace`; `env` is the variable POD_NAMESPACE. The warning is a log call.
unfoldable pub resolve_leader_election_namespace :
    {W : Type 0} → String → String → (W → W) → W → (String × String) × W
resolve_leader_election_namespace flag_value env warn w =
    if not (flag_value == "")
    then ((flag_value, "flag"), w)
    else if not (env == "")
    then ((env, "POD_NAMESPACE env"), w)
    else (("default", "fallback default"), warn w)

-- The namespace of the lease is never empty, and the warning is given exactly when the name was
-- neither on the command line nor in the environment.
pub resolve_leader_election_namespace_lem :
    {W : Type 0} (flag_value env : String) (warn : W → W) (w : W)
    → ((resolve_leader_election_namespace flag_value env warn w).0.0 ≢ "")
      × ((resolve_leader_election_namespace flag_value env warn w).1
          ≡ (if flag_value == "" && env == "" then warn w else w))
unfolding resolve_leader_election_namespace
resolve_leader_election_namespace_lem flag_value env warn w = elim (Bool-cases (flag_value == "")) [
  | inr given ↦ rw given ((λ e. cc ((eq_iff flag_value "").1 e)), refl)
  | inl absent ↦ elim (Bool-cases (env == "")) [
    | inr given ↦ rw (absent, given) ((λ e. cc ((eq_iff env "").1 e)), refl)
    | inl empty ↦ rw (absent, empty) ((λ e. cc), refl)
  ]
]
