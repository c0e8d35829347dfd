-- ===== src/Markers/Grants.antt =====
-- The RBAC markers above `Reconcile` in internal/hexagon/application/reconciler.go, which grant the
-- operator what it may do in the cluster.
use k_deskflight.Base.{
  String, List, [], ◌∷◌, ◌++◌, Bool, true, false, ◌&&◌, ◌||◌, ◌≡◌, refl, ◌==◌, eq_iff, sym, any,
  all, All, map, Memᴰ, arith, Bool-cases, inl, inr,
}
use k_deskflight.Base.Maps.{insert}
use k_deskflight.Base.Strings.{is_space, has_prefix, split, trim, trim_space, trim_prefix, cut}
use k_deskflight.Domain.{Check}
use k_deskflight.Domain.Permission.{PermissionRequest, canonical_string}
use k_deskflight.Registry.{all_checks, register}
use k_deskflight.Checks.Naming.{Discoveries, operator_registry}
use k_deskflight.Markers.{Marker, Comment, markers_of, parse_rbac_line, split_semicolon}
use k_deskflight.Markers.Triples.{Triple, expand, to_string}

abbrev marker_comment : String → Comment
marker_comment text = record { text = text; place = "" }

-- The comments, in their order.
abbrev rbac_comments : List Comment
rbac_comments =
    marker_comment
      "// +kubebuilder:rbac:groups=k-deskflight.geo-terrain.net,resources=opendeskpreflightchecks,verbs=get;list;watch"
    ∷ marker_comment
        "// +kubebuilder:rbac:groups=k-deskflight.geo-terrain.net,resources=opendeskpreflightchecks/status,verbs=get;update;patch"
    ∷ marker_comment "// +kubebuilder:rbac:groups=\"\",resources=nodes,verbs=get;list;watch"
    ∷ marker_comment
        "// +kubebuilder:rbac:groups=storage.k8s.io,resources=storageclasses,verbs=get;list;watch"
    ∷ marker_comment
        "// +kubebuilder:rbac:groups=networking.k8s.io,resources=ingressclasses,verbs=get;list;watch"
    ∷ marker_comment
        "// +kubebuilder:rbac:groups=apiextensions.k8s.io,resources=customresourcedefinitions,verbs=get;list"
    ∷ marker_comment
        "// +kubebuilder:rbac:groups=authorization.k8s.io,resources=selfsubjectaccessreviews;selfsubjectrulesreviews,verbs=create"
    ∷ marker_comment
        "// +kubebuilder:rbac:groups=coordination.k8s.io,resources=leases,verbs=get;list;watch;create;update;patch"
    ∷ []

expand_all : List Marker → List Triple
unfolding expand
expand_all [] = []
expand_all (m ∷ ms) = expand m ++ expand_all ms

-- Everything that the markers grant.
unfoldable pub operator_grants : List Triple
unfolding expand_all parse_rbac_line split_semicolon is_space has_prefix split trim trim_space
    trim_prefix cut
operator_grants = expand_all (markers_of (rbac_comments ∷ []))

-- The permission is granted in the whole cluster.
abbrev pub IsGranted : PermissionRequest → Type 0
IsGranted q = Memᴰ (canonical_string q) (map to_string operator_grants)

any-mem : (s : String) (xs : List String) → any (λ x. x == s) xs ≡ true → Memᴰ s xs
any-mem s [] e = cc
any-mem s (x ∷ xs) e = elim (Bool-cases (x == s)) [
  | inl same ↦ Memᴰ.head (sym ((eq_iff x s).0 same))
  | inr other ↦ Memᴰ.tail (any-mem s xs (rw other at e))
]

-- Every permission that a check of the operator requires is granted by the markers, so that a review
-- of it is not denied for want of a grant.
pub required_permissions-IsGranted :
    {W : Type 0} (d : Discoveries W)
    → All (λ (c : Check W). All IsGranted c.required_permissions) (all_checks (operator_registry d))
unfolding operator_registry register all_checks insert operator_grants canonical_string to_string
required_permissions-IsGranted d =
    let granted = λ (s : String). any-mem s (map to_string operator_grants) in
    (
      tt,
      (
        (granted "list storage.k8s.io/storageclasses" refl, tt),
        (
          (granted "list networking.k8s.io/ingressclasses" refl, tt),
          (tt, ((granted "list core/nodes" refl, tt), tt)),
        ),
      ),
    )

-- A verb that only reads.
abbrev is_reading : String → Bool
is_reading verb = verb == "get" || verb == "list" || verb == "watch"

-- What the operator may change: the status of its own resources, the reviews of its own permissions,
-- and the lease of its leader election.
abbrev may_change : Triple → Bool
may_change t =
    (t.group == "k-deskflight.geo-terrain.net" && t.resource == "opendeskpreflightchecks/status")
    || (t.group == "authorization.k8s.io"
        && (t.resource == "selfsubjectaccessreviews" || t.resource == "selfsubjectrulesreviews"))
    || (t.group == "coordination.k8s.io" && t.resource == "leases")

all-mem :
    (f : Triple → Bool) (ts : List Triple) (t : Triple) → all f ts ≡ true → Memᴰ t ts → f t ≡ true
all-mem f [] t e i = elim i [ ]
all-mem f (u ∷ ts) t e (Memᴰ.head same) = rw same (ground (arith, e))
all-mem f (u ∷ ts) t e (Memᴰ.tail i) = all-mem f ts t (ground (arith, e)) i

-- Whatever the markers grant that does more than read is on the status of the operator's own resources,
-- on the reviews of its own permissions, or on the lease of its leader election.
operator_grants-safe :
    (t : Triple) → Memᴰ t operator_grants → is_reading t.verb ≡ false → may_change t ≡ true
unfolding operator_grants
operator_grants-safe t i writes =
    let safe : (is_reading t.verb || may_change t) ≡ true =
      all-mem (λ u. is_reading u.verb || may_change u) operator_grants t refl i in
    rw writes at safe
