-- ===== src/Adapters.antt =====
-- internal/adapter/k8s: the discoveries and the reviewer of the operator, on the clients of the cluster.
-- The clients are parameters: lists of objects with the fields that are read, or an error.
pub mod Laws
use k_deskflight.Base.{
  ℕ, String, List, [], ◌∷◌, Option, none, some, Bool, true, false, map, ◌==◌, if◌then◌else◌, ◌&◌,
}
use k_deskflight.Base.Exec.{
  Outcome, returned, panicked, Exec, Fallible, ok, err, pure, continue, ◌>>=◌,
}
use k_deskflight.Base.Maps.{lookup, string_eq}
use k_deskflight.Domain.Permission.{PermissionRequest, canonical_string}
use k_deskflight.Checks.StorageClass.{StorageClassInfo}
use k_deskflight.Checks.IngressClass.{IngressClassInfo}
use k_deskflight.Checks.ClusterResources.{NodeInfo, Quantity}

-- `fmt.Errorf("…: %w", err)` round a call, and a function of its value
abbrev pub map_or : {A B : Type 0} → String → (A → B) → Fallible A → Fallible B
map_or doing f (ok a) = ok (f a)
map_or doing f (err text) = err (doing & ": " & text)

abbrev pub call : {W A B : Type 0} → Exec W (Fallible A) → String → (A → B) → Exec W (Fallible B)
call m doing f = m >>= λ a. pure (map_or doing f a)

-- nodes.go
pub record NodeCondition : Type 0 where
  pub kind : String
  pub status : String

pub record Node : Type 0 where
  pub name : String
  pub conditions : List NodeCondition
  pub cpu : Quantity
  pub memory : Quantity

-- the first condition of the type Ready decides
unfoldable pub is_node_ready : List NodeCondition → Bool
is_node_ready [] = false
is_node_ready (c ∷ conditions) =
    let later = is_node_ready conditions in if c.kind == "Ready" then c.status == "True" else later

abbrev pub node_info : Node → NodeInfo
node_info n = record {
  name = n.name;
  allocatable_cpu_milli = n.cpu.milli_value;
  allocatable_memory_bytes = n.memory.value;
}

-- the loop over the nodes
unfoldable pub ready_nodes : List Node → List NodeInfo
unfolding is_node_ready
ready_nodes [] = []
ready_nodes (n ∷ nodes) =
    let rest = ready_nodes nodes in if is_node_ready n.conditions then node_info n ∷ rest else rest

-- storage.go
pub record StorageClassObject : Type 0 where
  pub name : String
  pub provisioner : String
  pub annotations : List (String × String)

-- an annotation that is missing reads as the empty text
abbrev or_empty : Option String → String
or_empty none = ""
or_empty (some v) = v

unfoldable pub is_default_storage_class : List (String × String) → Bool
unfolding lookup
is_default_storage_class annotations =
    if or_empty (lookup "storageclass.kubernetes.io/is-default-class" annotations) == "true"
    then true
    else if or_empty (lookup "storageclass.beta.kubernetes.io/is-default-class" annotations)
        == "true"
    then true
    else false

abbrev pub storage_class_info : StorageClassObject → StorageClassInfo
storage_class_info sc = record {
  name = sc.name;
  is_default = is_default_storage_class sc.annotations;
  provisioner = sc.provisioner;
}

-- ingress.go
pub record IngressClassObject : Type 0 where
  pub name : String
  pub controller : String

abbrev pub ingress_class_info : IngressClassObject → IngressClassInfo
ingress_class_info ic = record { name = ic.name; controller = ic.controller }

-- apigroups.go: the loop over the names of the groups
unfoldable pub has_group : String → List String → Bool
has_group name [] = false
has_group name (g ∷ groups) = let later = has_group name groups in if g == name then true else later

-- access_review.go: the attributes that are asked for
pub record ResourceAttributes : Type 0 where
  pub namespace : String
  pub verb : String
  pub group : String
  pub resource : String
  pub subresource : String

abbrev pub attributes_of : PermissionRequest → ResourceAttributes
attributes_of req = record {
  namespace = req.namespace;
  verb = req.verb;
  group = req.group;
  resource = req.resource;
  subresource = req.subresource;
}

abbrev pub review_answer : PermissionRequest → Fallible Bool → Bool × Option String
review_answer req (ok allowed) = (allowed, none)
review_answer req (err text) =
    (false, some ("self subject access review " & canonical_string req & ": " & text))

-- The clients of the cluster.
pub record Clients (W : Type 0) : Type 0 where
  pub nodes : Exec W (Fallible (List Node))
  pub storage_classes : Exec W (Fallible (List StorageClassObject))
  pub ingress_classes : Exec W (Fallible (List IngressClassObject))
  pub server_groups : Exec W (Fallible (List String))
  pub server_version : Exec W (Fallible String)
  pub self_subject_access_review : ResourceAttributes → Exec W (Fallible Bool)

module _ {W : Type 0} (c : Clients W) where
  unfoldable pub list_ready_nodes : Exec W (Fallible (List NodeInfo))
  unfolding ready_nodes
  list_ready_nodes = call c.nodes "list nodes" ready_nodes

  unfoldable pub list_storage_classes : Exec W (Fallible (List StorageClassInfo))
  unfolding is_default_storage_class
  list_storage_classes = call c.storage_classes "list storage classes" (map storage_class_info)

  unfoldable pub list_ingress_classes : Exec W (Fallible (List IngressClassInfo))
  list_ingress_classes = call c.ingress_classes "list ingress classes" (map ingress_class_info)

  unfoldable pub has_api_group : String → Exec W (Fallible Bool)
  unfolding has_group
  has_api_group name = call c.server_groups "discovery ServerGroups" (has_group name)

  unfoldable pub server_version : Exec W (Fallible String)
  server_version = call c.server_version "discovery ServerVersion" (λ version. version)

  unfoldable pub can_i : PermissionRequest → Exec W (Bool × Option String)
  unfolding canonical_string
  can_i req =
      c.self_subject_access_review (attributes_of req) >>= λ answer. pure (review_answer req answer)
