-- ===== src/Domain/Specs.antt =====
-- internal/hexagon/domain: the parameters of each check, and their validation. An `error` is its
-- text; `none` is `nil`.
pub mod Grammar
use k_deskflight.Base.{
  ℕ, suc, String, List, [], ◌∷◌, Option, none, some, Bool, true, not, ◌&&◌, ◌||◌, length, ltb, leb,
  ◌==◌, if◌then◌else◌, ◌&◌,
}
use k_deskflight.Base.Strings.{trim_space, trim_prefix, split}
use k_deskflight.Base.Format.{Fmt, show_nat}
use Prim.Native.Char.{code}

pub record KubernetesVersionSpec : Type 0 where
  pub min : String

pub record StorageClassSpec : Type 0 where
  pub names : List String
  pub require_default : Bool

pub record IngressClassSpec : Type 0 where
  pub names : List String

pub record ClusterResourcesSpec : Type 0 where
  pub min_cpu : String
  pub min_memory : String

-- The implementations of the interface `CheckSpec`; CertManagerSpec has no fields.
pub data CheckSpec : Type 0 where
  kubernetes_version : KubernetesVersionSpec → CheckSpec
  storage_class : StorageClassSpec → CheckSpec
  ingress_class : IngressClassSpec → CheckSpec
  cert_manager : CheckSpec
  cluster_resources : ClusterResourcesSpec → CheckSpec

unfoldable pub kind : CheckSpec → String
kind (kubernetes_version _) = "kubernetesVersion"
kind (storage_class _) = "storageClass"
kind (ingress_class _) = "ingressClass"
kind cert_manager = "certManager"
kind (cluster_resources _) = "clusterResources"

abbrev pub default_kubernetes_version_min : String
default_kubernetes_version_min = "1.34"

abbrev pub is_digit : ℕ → Bool
is_digit c = leb b'0' c && leb c b'9'

-- the loop over the characters of a segment
all_digits : String → Bool
all_digits String.[] = true
all_digits (String.◌∷◌ c s) = is_digit (code c) && all_digits s

module _ (fmt : Fmt) where
  -- the loop over the segments of a version
  check_segments : String → List String → Option String
  check_segments min [] = none
  check_segments min (segment ∷ rest) =
      let later = check_segments min rest in
      if segment == ""
      then some ("kubernetesVersion.min: " & fmt.quote min & " has empty version segment")
      else if not (all_digits segment)
      then some (
          "kubernetesVersion.min: "
          & fmt.quote min
          & " has non-digit in segment "
          & fmt.quote segment)
      else later

  unfoldable pub validate_kubernetes_version : KubernetesVersionSpec → Option String
  unfolding check_segments all_digits
  validate_kubernetes_version s =
      let value = trim_prefix s.min "v" in
      let parts = split b'.' value in
      if value == ""
      then some "kubernetesVersion.min: empty"
      else if ltb (length parts) 2 || ltb 3 (length parts)
      then some
          ("kubernetesVersion.min: " & fmt.quote s.min & " is not in form major.minor[.patch]")
      else check_segments s.min parts

-- the loop over the names, with the index of the first
first_empty_name : String → ℕ → List String → Option String
first_empty_name field i [] = none
first_empty_name field i (name ∷ names) =
    let later = first_empty_name field (suc i) names in
    if trim_space name == "" then some (field & "[" & show_nat i & "]: empty entry") else later

unfoldable pub validate_storage_class : StorageClassSpec → Option String
unfolding first_empty_name
validate_storage_class s =
    if leb (length s.names) 0 && not s.require_default
    then some "storageClass: either names or requireDefault must be set"
    else first_empty_name "storageClass.names" 0 s.names

unfoldable pub validate_ingress_class : IngressClassSpec → Option String
unfolding first_empty_name
validate_ingress_class s =
    if leb (length s.names) 0
    then some "ingressClass.names: at least one entry required"
    else first_empty_name "ingressClass.names" 0 s.names

unfoldable pub validate_cluster_resources : ClusterResourcesSpec → Option String
validate_cluster_resources s =
    if trim_space s.min_cpu == ""
    then some "clusterResources.minCPU: empty"
    else if trim_space s.min_memory == ""
    then some "clusterResources.minMemory: empty"
    else none

-- spec.Validate(ctx)
unfoldable pub validate : Fmt → CheckSpec → Option String
unfolding validate_kubernetes_version validate_storage_class validate_ingress_class
    validate_cluster_resources
validate fmt (kubernetes_version s) = validate_kubernetes_version fmt s
validate fmt (storage_class s) = validate_storage_class s
validate fmt (ingress_class s) = validate_ingress_class s
validate fmt cert_manager = none
validate fmt (cluster_resources s) = validate_cluster_resources s
