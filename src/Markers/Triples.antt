-- ===== src/Markers/Triples.antt =====
-- The permissions that a marker stands for.
use k_deskflight.Base.{
  String, List, [], ◌∷◌, ◌++◌, Memᴰ, ◌≡◌, ◌↔◌, refl, ◌==◌, ◌&◌, if◌then◌else◌, ap, subst, inl, inr,
}
use mathlib.Core.List.Memᴰ
use k_deskflight.Markers.{Marker}

pub record Triple : Type 0 where
  pub group : String
  pub resource : String
  pub verb : String

-- Triple.String
unfoldable pub to_string : Triple → String
to_string t =
    let g = if t.group == "" then "core" else t.group in t.verb & " " & g & "/" & t.resource

abbrev expand_verbs : String → String → List String → List Triple
expand_verbs g r [] = []
expand_verbs g r (v ∷ vs) = record { group = g; resource = r; verb = v } ∷ expand_verbs g r vs

abbrev expand_resources : String → List String → List String → List Triple
expand_resources g [] vs = []
expand_resources g (r ∷ rs) vs = expand_verbs g r vs ++ expand_resources g rs vs

abbrev expand_groups : List String → List String → List String → List Triple
expand_groups [] rs vs = []
expand_groups (g ∷ gs) rs vs = expand_resources g rs vs ++ expand_groups gs rs vs

unfoldable pub expand : Marker → List Triple
expand m = expand_groups m.groups m.resources m.verbs

to_string_test :
    to_string (record { group = ""; resource = "pods/log"; verb = "get" }) ≡ "get core/pods/log"
unfolding to_string
to_string_test = refl

mem-expand_verbs :
    (g r : String) (vs : List String) (t : Triple)
    → Memᴰ t (expand_verbs g r vs)
    → (t.group ≡ g) × (t.resource ≡ r) × Memᴰ t.verb vs
mem-expand_verbs g r [] t i = elim i [ ]
mem-expand_verbs g r (v ∷ vs) t (Memᴰ.head e) = (
  ap (λ (u : Triple). u.group) e,
  ap (λ (u : Triple). u.resource) e,
  Memᴰ.head (ap (λ (u : Triple). u.verb) e),
)
mem-expand_verbs g r (v ∷ vs) t (Memᴰ.tail i) =
    let (a, b, c) = mem-expand_verbs g r vs t i in (a, b, Memᴰ.tail c)

expand_verbs-mem :
    (t : Triple) (vs : List String) → Memᴰ t.verb vs → Memᴰ t (expand_verbs t.group t.resource vs)
expand_verbs-mem t [] i = elim i [ ]
expand_verbs-mem t (v ∷ vs) (Memᴰ.head e) =
    Memᴰ.head (ap (λ x. record { group = t.group; resource = t.resource; verb = x }) e)
expand_verbs-mem t (v ∷ vs) (Memᴰ.tail i) = Memᴰ.tail (expand_verbs-mem t vs i)

mem-expand_resources :
    (g : String) (rs vs : List String) (t : Triple)
    → Memᴰ t (expand_resources g rs vs)
    → (t.group ≡ g) × Memᴰ t.resource rs × Memᴰ t.verb vs
mem-expand_resources g [] vs t i = elim i [ ]
mem-expand_resources g (r ∷ rs) vs t i = elim (Memᴰ.append_cases (expand_verbs g r vs) i) [
  | inl j ↦ let (a, b, c) = mem-expand_verbs g r vs t j in (a, Memᴰ.head b, c)
  | inr j ↦ let (a, b, c) = mem-expand_resources g rs vs t j in (a, Memᴰ.tail b, c)
]

expand_resources-mem :
    (t : Triple) (rs vs : List String)
    → Memᴰ t.resource rs
    → Memᴰ t.verb vs
    → Memᴰ t (expand_resources t.group rs vs)
expand_resources-mem t [] vs i k = elim i [ ]
expand_resources-mem t (r ∷ rs) vs (Memᴰ.head e) k =
    Memᴰ.append_left (expand_resources t.group rs vs)
      (subst (λ x. Memᴰ t (expand_verbs t.group x vs)) e (expand_verbs-mem t vs k))
expand_resources-mem t (r ∷ rs) vs (Memᴰ.tail i) k =
    Memᴰ.append_right (expand_verbs t.group r vs) (expand_resources-mem t rs vs i k)

mem-expand_groups :
    (gs rs vs : List String) (t : Triple)
    → Memᴰ t (expand_groups gs rs vs)
    → Memᴰ t.group gs × Memᴰ t.resource rs × Memᴰ t.verb vs
mem-expand_groups [] rs vs t i = elim i [ ]
mem-expand_groups (g ∷ gs) rs vs t i = elim (Memᴰ.append_cases (expand_resources g rs vs) i) [
  | inl j ↦ let (a, b, c) = mem-expand_resources g rs vs t j in (Memᴰ.head a, b, c)
  | inr j ↦ let (a, b, c) = mem-expand_groups gs rs vs t j in (Memᴰ.tail a, b, c)
]

expand_groups-mem :
    (t : Triple) (gs rs vs : List String)
    → Memᴰ t.group gs
    → Memᴰ t.resource rs
    → Memᴰ t.verb vs
    → Memᴰ t (expand_groups gs rs vs)
expand_groups-mem t [] rs vs i j k = elim i [ ]
expand_groups-mem t (g ∷ gs) rs vs (Memᴰ.head e) j k =
    Memᴰ.append_left (expand_groups gs rs vs)
      (subst (λ x. Memᴰ t (expand_resources x rs vs)) e (expand_resources-mem t rs vs j k))
expand_groups-mem t (g ∷ gs) rs vs (Memᴰ.tail i) j k =
    Memᴰ.append_right (expand_resources g rs vs) (expand_groups-mem t gs rs vs i j k)

-- A marker expands to exactly the triples whose group, resource and verb are among those of the
-- marker.
pub expand_iff :
    (m : Marker) (t : Triple)
    → Memᴰ t (expand m)
      ↔ (Memᴰ t.group m.groups × Memᴰ t.resource m.resources × Memᴰ t.verb m.verbs)
unfolding expand
expand_iff m t = (
  mem-expand_groups m.groups m.resources m.verbs t,
  (λ (i, j, k). expand_groups-mem t m.groups m.resources m.verbs i j k),
)
