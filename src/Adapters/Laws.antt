-- ===== src/Adapters/Laws.antt =====
-- What the discoveries tell of the objects in the cluster, and the checks on top of them.
use k_deskflight.Base.{
  String, List, [], ◌∷◌, Option, none, some, Bool, true, false, ◌==◌, ◌++◌, All, eq_iff, ◌≡◌, ◌≢◌,
  ◌↔◌, inl, inr, refl, sym, ap, ◌∙◌, arith, Memᴰ, Bool-cases,
}
use mathlib.Core.List.Memᴰ
use k_deskflight.Base.Exec.{Outcome, returned, panicked, Fallible, ok, err, continue}
use k_deskflight.Domain.{ConditionStatus}
use k_deskflight.Domain.Specs.{CheckSpec}
use k_deskflight.Domain.Permission.{PermissionRequest}
use k_deskflight.Checks.{CheckEnv, HasStatus}
use k_deskflight.Checks.CertManager.{
  cert_manager_api_group, run_cert_manager, run_cert_manager_passes_lem,
}
use k_deskflight.Checks.ClusterResources.{NodeInfo}
use k_deskflight.Adapters.{
  Node, NodeCondition, is_node_ready, node_info, ready_nodes, has_group, Clients, has_api_group,
  can_i, attributes_of, review_answer,
}

has_group_iff :
    (name : String) (groups : List String) → (has_group name groups ≡ true) ↔ Memᴰ name groups
unfolding has_group
has_group_iff name [] = ((λ e. cc), (λ i. elim i [ ]))
has_group_iff name (g ∷ groups) = elim (Bool-cases (g == name)) [
  | inl same ↦ rw same ((λ _. Memᴰ.head (sym ((eq_iff g name).0 same))), (λ _. refl))
  | inr other ↦ rw other (
    (λ e. Memᴰ.tail ((has_group_iff name groups).0 e)),
    (λ i. elim (Memᴰ.cases_cons i) [
      | inl same ↦ cc ((eq_iff g name).1 (sym same))
      | inr j ↦ (has_group_iff name groups).1 j
    ]),
  )
]

module _ {W : Type 0} (c : Clients W) where
  listed :
      (groups : List String) (w w' : W)
      → c.server_groups w ≡ (returned (ok groups), w')
      → has_api_group c cert_manager_api_group w
        ≡ (returned (ok (has_group cert_manager_api_group groups)), w')
  unfolding has_api_group
  listed groups w w' e = rw e refl

  -- When the API groups could be listed, the cert-manager check passes exactly if cert-manager.io is
  -- one of them.
  pub run_cert_manager_passes_iff :
      (env : CheckEnv W) (groups : List String) (w w' : W)
      → c.server_groups w ≡ (returned (ok groups), w')
      → HasStatus ConditionStatus.is_true
          (run_cert_manager env (has_api_group c) CheckSpec.cert_manager w).0
        ↔ Memᴰ "cert-manager.io" groups
  run_cert_manager_passes_iff env groups w w' e =
      let verdict =
        run_cert_manager_passes_lem env (has_api_group c) (has_group cert_manager_api_group groups)
          w w' (listed groups w w' e) in
      let member = has_group_iff cert_manager_api_group groups in
      ((λ h. member.0 (verdict.0 h)), (λ i. verdict.1 (member.1 i)))

  -- A permission whose review failed is never answered as granted.
  abbrev pub IsAnswer : Outcome (Bool × Option String) → Type 0
  IsAnswer (returned (allowed, none)) = Unit
  IsAnswer (returned (allowed, some error)) = allowed ≡ false
  IsAnswer (panicked v) = Unit

  continue-IsAnswer :
      (req : PermissionRequest) (o : Outcome (Fallible Bool)) (w : W)
      → IsAnswer (continue o (λ answer s. (returned (review_answer req answer), s)) w).0
  continue-IsAnswer req (returned (ok allowed)) w = tt
  continue-IsAnswer req (returned (err text)) w = refl
  continue-IsAnswer req (panicked v) w = tt

  -- Whatever the API server answers, a permission with an error is not granted.
  pub can_i-IsAnswer : (req : PermissionRequest) (w : W) → IsAnswer (can_i c req w).0
  unfolding can_i
  can_i-IsAnswer req w =
      continue-IsAnswer req (c.self_subject_access_review (attributes_of req) w).0
        (c.self_subject_access_review (attributes_of req) w).1

-- The first condition of the type Ready has the status True.
abbrev pub IsReady : List NodeCondition → Type 0
IsReady conditions =
    (before : List NodeCondition) × (c : NodeCondition) × (after : List NodeCondition) × (conditions
      ≡ before ++ c ∷ after)
    × All (λ other. other.kind ≢ "Ready") before
    × (c.kind ≡ "Ready")
    × (c.status ≡ "True")

is_node_ready_first :
    (before : List NodeCondition) (c : NodeCondition) (after : List NodeCondition)
    → All (λ other. other.kind ≢ "Ready") before
    → c.kind ≡ "Ready"
    → is_node_ready (before ++ c ∷ after) ≡ (c.status == "True")
unfolding is_node_ready
is_node_ready_first [] c after _ e =
    let named : (c.kind == "Ready") ≡ true = (eq_iff c.kind "Ready").1 e in rw named refl
is_node_ready_first (x ∷ before) c after (ne, rest) e =
    ground (arith, eq_iff x.kind "Ready", is_node_ready_first before c after rest e)

is_node_ready-IsReady : (cs : List NodeCondition) → is_node_ready cs ≡ true → IsReady cs
unfolding is_node_ready
is_node_ready-IsReady [] h = cc
is_node_ready-IsReady (c ∷ cs) h = elim (Bool-cases (c.kind == "Ready")) [
  | inl named ↦ (
    [],
    c,
    cs,
    refl,
    tt,
    (eq_iff c.kind "Ready").0 named,
    (eq_iff c.status "True").0 (rw named at h),
  )
  | inr other ↦
      let (before, r, after, e, others, named, stands) = is_node_ready-IsReady cs (rw other at h) in
      (
        c ∷ before,
        r,
        after,
        ap (λ xs. c ∷ xs) e,
        ((λ same. cc ((eq_iff c.kind "Ready").1 same)), others),
        named,
        stands,
      )
]

is_node_ready_iff :
    (conditions : List NodeCondition) → (is_node_ready conditions ≡ true) ↔ IsReady conditions
is_node_ready_iff conditions = (
  is_node_ready-IsReady conditions,
  (λ (before, c, after, e, others, named, stands).
      rw e (is_node_ready_first before c after others named ∙ (eq_iff c.status "True").1 stands)),
)

ready_nodes-mem :
    (nodes : List Node) (i : NodeInfo)
    → Memᴰ i (ready_nodes nodes)
      ↔ ((n : Node) × Memᴰ n nodes × (is_node_ready n.conditions ≡ true) × (i ≡ node_info n))
unfolding ready_nodes
ready_nodes-mem [] i = ((λ m. elim m [ ]), (λ (n, m, _, _). elim m [ ]))
ready_nodes-mem (x ∷ nodes) i = elim (Bool-cases (is_node_ready x.conditions)) [
  | inl ready ↦ rw ready (
    (λ m. elim (Memᴰ.cases_cons m) [
      | inl same ↦ (x, Memᴰ.head refl, ready, same)
      | inr j ↦ let (n, k, r, e) = (ready_nodes-mem nodes i).0 j in (n, Memᴰ.tail k, r, e)
    ]),
    (λ (n, m, r, e). elim (Memᴰ.cases_cons m) [
      | inl same ↦ Memᴰ.head (e ∙ ap node_info same)
      | inr j ↦ Memᴰ.tail ((ready_nodes-mem nodes i).1 (n, j, r, e))
    ]),
  )
  | inr waiting ↦ rw waiting (
    (λ j. let (n, k, r, e) = (ready_nodes-mem nodes i).0 j in (n, Memᴰ.tail k, r, e)),
    (λ (n, m, r, e). elim (Memᴰ.cases_cons m) [
      | inl same ↦
          let no : true ≡ false =
            sym r ∙ ap (λ (y : Node). is_node_ready y.conditions) same ∙ waiting in
          cc
      | inr j ↦ (ready_nodes-mem nodes i).1 (n, j, r, e)
    ]),
  )
]

-- An entry stands in the list of the ready nodes exactly if there is a node whose first condition of
-- the type Ready has the status True, with the name, the allocatable milli-CPUs and the allocatable
-- bytes of memory of that node.
pub ready_nodes_iff :
    (nodes : List Node) (i : NodeInfo)
    → Memᴰ i (ready_nodes nodes) ↔ (
        (n : Node) × Memᴰ n nodes
        × IsReady n.conditions
        × (i.name ≡ n.name)
        × (i.allocatable_cpu_milli ≡ n.cpu.milli_value)
        × (i.allocatable_memory_bytes ≡ n.memory.value))
ready_nodes_iff nodes i = (
  (λ m.
      let (n, k, ready, e) = (ready_nodes-mem nodes i).0 m in
      (
        n,
        k,
        (is_node_ready_iff n.conditions).0 ready,
        ap (λ (x : NodeInfo). x.name) e,
        ap (λ (x : NodeInfo). x.allocatable_cpu_milli) e,
        ap (λ (x : NodeInfo). x.allocatable_memory_bytes) e,
      )),
  (λ (n, k, ready, named, cpu, memory).
      let e : i ≡ node_info n = λ j. record {
        name = named j;
        allocatable_cpu_milli = cpu j;
        allocatable_memory_bytes = memory j;
      } in
      (ready_nodes-mem nodes i).1 (n, k, (is_node_ready_iff n.conditions).1 ready, e)),
)
