-- ===== src/Aggregator/Kinds.antt =====
-- The types of the conditions of a run.
use k_deskflight.Base.{String, List, ◌↔◌, sym, ap, ◌∙◌, map, Memᴰ}
use mathlib.Core.List.Memᴰ
use k_deskflight.Domain.{Result}
use k_deskflight.Api.{Condition}
use k_deskflight.Aggregator.{dedupe_and_sort_conditions}
use k_deskflight.Aggregator.Dedupe.{kind_of, conditions_sound, conditions_best}

abbrev pub kinds : List Condition → List String
kinds cs = map kind_of cs

abbrev pub result_name : Result → String
result_name res = res.name

-- The types of the conditions are the names of the results.
pub kinds-dedupe_iff :
    (rs : List Result) (k : String)
    → Memᴰ k (kinds (dedupe_and_sort_conditions rs)) ↔ Memᴰ k (map result_name rs)
kinds-dedupe_iff rs k = (
  (λ i.
      let (c, j, same) = Memᴰ.of_map kind_of (dedupe_and_sort_conditions rs) i in
      let (r, l, made) = conditions_sound rs c j in
      Memᴰ.cast (sym same ∙ ap kind_of (sym made)) (Memᴰ.map result_name l)),
  (λ i.
      let (r, j, same) = Memᴰ.of_map result_name rs i in
      let (b, l, named, _) = conditions_best rs r j in
      Memᴰ.cast (sym same ∙ sym named) (Memᴰ.map kind_of l)),
)
