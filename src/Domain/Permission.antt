-- ===== src/Domain/Permission.antt =====
-- internal/hexagon/domain/permission.go
use k_deskflight.Base.{
  String, ◌≡◌, refl, ◌↔◌, ◌&&◌, Bool, true, arith, ◌==◌, eq_iff, if◌then◌else◌, ◌&◌,
}
use k_deskflight.Base.Maps.{Eq}

pub record PermissionRequest : Type 0 where
  pub group : String
  pub resource : String
  pub subresource : String
  pub verb : String
  pub namespace : String

-- `==` on the struct, as the keys of the permission cache are compared
abbrev pub request_eq : PermissionRequest → PermissionRequest → Bool
request_eq p q =
    p.group == q.group
    && p.resource == q.resource
    && p.subresource == q.subresource
    && p.verb == q.verb
    && p.namespace == q.namespace

pub request_eq_iff : (p q : PermissionRequest) → (request_eq p q ≡ true) ↔ (p ≡ q)
request_eq_iff p q = ground (
  arith,
  eq_iff p.group q.group,
  eq_iff p.resource q.resource,
  eq_iff p.subresource q.subresource,
  eq_iff p.verb q.verb,
  eq_iff p.namespace q.namespace,
)

instance abbrev pub permission_eq : Eq PermissionRequest
permission_eq = record { beq = request_eq; beq_iff = request_eq_iff }

-- `{verb} {group|core}/{resource}[/{subresource}][@{namespace}]`
unfoldable pub canonical_string : PermissionRequest → String
canonical_string p =
    p.verb
    & " "
    & (if p.group == "" then "core" else p.group)
    & "/"
    & p.resource
    & (if p.subresource == "" then "" else "/" & p.subresource)
    & (if p.namespace == "" then "" else "@" & p.namespace)

canonical_string_test :
    canonical_string (record {
      group = "";
      resource = "pods";
      subresource = "status";
      verb = "get";
      namespace = "kube-system";
    })
    ≡ "get core/pods/status@kube-system"
unfolding canonical_string
canonical_string_test = refl
