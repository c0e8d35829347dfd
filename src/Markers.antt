-- ===== src/Markers.antt =====
-- internal/audit/markers/parser.go
use k_deskflight.Base.{
  ℕ, String, List, [], ◌∷◌, ◌++◌, Option, none, some, ◌≡◌, refl, ◌==◌, ◌&◌, if◌then◌else◌,
}
use k_deskflight.Base.Exec.{Fallible, ok, err}
use k_deskflight.Base.Strings.{trim_space, trim_prefix, has_prefix, split, trim, cut}
pub mod RoundTrip
pub mod Triples
pub mod Grants

pub record Marker : Type 0 where
  pub groups : List String
  pub resources : List String
  pub verbs : List String
  pub position : String

-- The zero value of the struct.
abbrev pub zero_marker : Marker
zero_marker = record { groups = []; resources = []; verbs = []; position = "" }

unfoldable pub split_semicolon : String → List String
split_semicolon s = if s == "" then "" ∷ [] else split b';' s

-- The `switch` on the key.
abbrev pub set_field : String → List String → Marker → Marker
set_field key values m =
    if key == "groups"
    then record m { groups = values }
    else if key == "resources"
    then record m { resources = values }
    else if key == "verbs"
    then record m { verbs = values }
    else m

abbrev pub parse_pair : Option (String × String) → Marker → Marker
parse_pair none m = m
parse_pair (some (key, val)) m =
    set_field (trim_space key) (split_semicolon (trim b'"' (trim_space val))) m

-- The loop over the parts between the commas.
abbrev pub parse_parts : List String → Marker → Marker
parse_parts [] m = m
parse_parts (kv ∷ kvs) m = parse_parts kvs (parse_pair (cut b'=' kv) m)

unfoldable pub parse_rbac_line : String → Marker
parse_rbac_line payload = parse_parts (split b',' payload) zero_marker

-- A comment of a parsed file, with `fset.Position(c.Pos()).String()`.
pub record Comment : Type 0 where
  pub text : String
  pub place : String

abbrev rbac_prefix : String
rbac_prefix = "+kubebuilder:rbac:"

abbrev comment_markers : Comment → List Marker → List Marker
comment_markers c rest =
    let text = trim_space (trim_prefix c.text "//") in
    if has_prefix text rbac_prefix
    then record (parse_rbac_line (trim_prefix text rbac_prefix)) { position = c.place } ∷ rest
    else rest

abbrev group_markers : List Comment → List Marker → List Marker
group_markers [] rest = rest
group_markers (c ∷ cs) rest = comment_markers c (group_markers cs rest)

abbrev pub markers_of : List (List Comment) → List Marker
markers_of [] = []
markers_of (g ∷ gs) = group_markers g (markers_of gs)

abbrev parse_result : String → Fallible (List (List Comment)) → Fallible (List Marker)
parse_result path (err text) = err ("parse " & path & ": " & text)
parse_result path (ok groups) = ok (markers_of groups)

-- `parse_file` is `parser.ParseFile`, which gives the comment groups of the file at a path.
pub parse_rbac_file :
    (parse_file : String → Fallible (List (List Comment))) → String → Fallible (List Marker)
parse_rbac_file parse_file path = parse_result path (parse_file path)

parse_rbac_line_test :
    parse_rbac_line "groups=\"\",resources=pods;pods/log, verbs=get;list" ≡ record {
      groups = "" ∷ [];
      resources = "pods" ∷ "pods/log" ∷ [];
      verbs = "get" ∷ "list" ∷ [];
      position = "";
    }
unfolding parse_rbac_line split_semicolon split trim trim_space cut
parse_rbac_line_test = refl
