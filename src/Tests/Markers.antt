-- ===== src/Tests/Markers.antt =====
-- Markers that are printed and parsed.
use k_deskflight.Base.{[], ◌∷◌, ◌≡◌, refl}
use k_deskflight.Base.Strings.{is_space}
use k_deskflight.Markers.{Marker, parse_rbac_line}
use k_deskflight.Markers.RoundTrip.{IsPrintable, parse_rbac_line-print_marker}

abbrev pods_marker : Marker
pods_marker = record {
  groups = "" ∷ [];
  resources = "pods" ∷ "pods/log" ∷ [];
  verbs = "get" ∷ "list" ∷ [];
  position = "reconciler.go:1";
}

pods_marker-IsPrintable : IsPrintable pods_marker
unfolding is_space
pods_marker-IsPrintable = (
  ((refl, refl, refl, refl), tt),
  ((refl, refl, refl, refl), ((refl, refl, refl, refl), tt)),
  ((refl, refl, refl, refl), ((refl, refl, refl, refl), tt)),
)

parse_rbac_line-print_marker_example :
    parse_rbac_line "groups=,resources=pods;pods/log,verbs=get;list"
    ≡ record pods_marker { position = "" }
parse_rbac_line-print_marker_example =
    parse_rbac_line-print_marker pods_marker pods_marker-IsPrintable
