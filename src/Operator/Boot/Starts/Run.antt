-- ===== src/Operator/Boot/Starts/Run.antt =====
-- When the manager of the operator is started, over the whole of `run`.
use k_deskflight.Base.{String, List, ◌≡◌, inl, inr, refl, ◌∙◌, ◌==◌, Bool-cases}
use k_deskflight.Topology.Namespace.{resolve_leader_election_namespace}
use k_deskflight.Operator.Chains.{must-Ends, obtain-Ends}
use k_deskflight.Operator.Boot.Starts.{Watches, IsSafe, idle, connect-IsSafe}
use k_deskflight.Operator.{RunConfig, Platform, add_to_scheme, manager_options}
use k_deskflight.Operator.Boot.{manage, lease_namespace, configure, run}

module _ {W : Type 0} (p : Platform W) (started : W → List p.Manager) (watches : Watches p started)
    (cfg : RunConfig) (base : List p.Manager) where
  manage-IsSafe :
      (rest : p.Config) (namespace source : String) (w : W)
      → started w ≡ base
      → IsSafe p started watches cfg base (manage p cfg rest namespace source w).1
  unfolding manage
  manage-IsSafe rest namespace source w same =
      let new = p.new_manager rest (manager_options p cfg namespace) in
      let same_1 = watches.new_manager rest (manager_options p cfg namespace) w ∙ same in
      obtain-Ends started base (IsSafe p started watches cfg base) (idle p started watches cfg base)
        "create manager" new _ w same_1
        (λ mgr made.
          let same_2 = watches.add_healthz_check mgr "ping" (new w).1 ∙ same_1 in
          must-Ends started base (IsSafe p started watches cfg base)
            (idle p started watches cfg base) "register healthz check"
            (p.add_healthz_check mgr "ping") _ (new w).1 same_2
            (λ _.
              let same_3 =
                watches.add_readyz_check mgr "ping" (p.add_healthz_check mgr "ping" (new w).1).1
                ∙ same_2 in
              must-Ends started base (IsSafe p started watches cfg base)
                (idle p started watches cfg base) "register readyz check"
                (p.add_readyz_check mgr "ping") _ _ same_3
                (λ _.
                  connect-IsSafe p started watches cfg base rest mgr namespace source _ same_3
                    (rest, w, made))))

  lease-IsSame : (w : W) → started (lease_namespace p cfg w).1 ≡ started w
  unfolding resolve_leader_election_namespace
  lease-IsSame w = elim (Bool-cases (cfg.leader_election_namespace == "")) [
    | inr given ↦ rw given refl
    | inl absent ↦ elim (Bool-cases (p.getenv "POD_NAMESPACE" w == "")) [
      | inr set ↦ rw (absent, set) refl
      | inl empty ↦ rw (absent, empty) (watches.logger _ w)
    ]
  ]

  configure-IsSafe :
      (rest : p.Config) (w : W)
      → started w ≡ base
      → IsSafe p started watches cfg base (configure p cfg rest w).1
  unfolding configure
  configure-IsSafe rest w same = manage-IsSafe rest _ _ _ (lease-IsSame w ∙ same)

  -- The operator starts at most one manager, and only one that was made with the options of its
  -- configuration and passed the guard: leader election is on, or the guard listed the pods of the
  -- namespace of the lease by the operator's labels, and at most one of them is running or pending,
  -- and the configuration does not expect more than one replica. Before the start the reconciler's
  -- controller was registered without an error. The list of the started managers is any observation
  -- of the world to which a start adds its manager, and that no other call changes.
  pub run-IsSafe : (w : W) → started w ≡ base → IsSafe p started watches cfg base (run p cfg w).1
  unfolding run
  run-IsSafe w same =
      let same_1 = watches.set_logger w ∙ same in
      let w_1 : W = p.set_logger w in
      let same_2 = watches.add_client_go_scheme w_1 ∙ same_1 in
      must-Ends started base (IsSafe p started watches cfg base) (idle p started watches cfg base)
        "register client-go scheme" p.add_client_go_scheme _ w_1 same_2
        (λ _.
          let w_2 : W = (p.add_client_go_scheme w_1).1 in
          let same_3 = watches.add_to_scheme w_2 ∙ same_2 in
          must-Ends started base (IsSafe p started watches cfg base)
            (idle p started watches cfg base) "register v1alpha1 scheme" (add_to_scheme p) _ w_2
            same_3
            (λ _.
              let same_4 = watches.get_config (add_to_scheme p w_2).1 ∙ same_3 in
              obtain-Ends started base (IsSafe p started watches cfg base)
                (idle p started watches cfg base) "load kubeconfig" p.get_config _ _ same_4
                (λ rest _. configure-IsSafe rest _ same_4)))
