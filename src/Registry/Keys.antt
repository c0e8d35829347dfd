-- ===== src/Registry/Keys.antt =====
-- The keys of the registry are the names of its checks.
use k_deskflight.Base.{String, [], ◌∷◌, ◌≡◌, refl, ap, All, Memᴰ}
use k_deskflight.Base.Maps.{string_eq}
use k_deskflight.Base.Maps.Entries.{insert-All}
use k_deskflight.Domain.{Check}
use k_deskflight.Registry.{Registry, register, all_checks}

module _ {W : Type 0} where
  -- Each check stands under its own name.
  abbrev pub IsKeyed : Registry W → Type 0
  IsKeyed r = All (λ (e : String × Check W). e.0 ≡ e.1.name) r

  pub register-IsKeyed : (c : Check W) (r : Registry W) → IsKeyed r → IsKeyed (register c r)
  unfolding register
  register-IsKeyed c r h = insert-All (λ (e : String × Check W). e.0 ≡ e.1.name) c.name c r refl h

  pub all_checks_of_mem :
      (name : String) (c : Check W) (r : Registry W) → Memᴰ (name, c) r → Memᴰ c (all_checks r)
  unfolding all_checks
  all_checks_of_mem name c [] i = elim i [ ]
  all_checks_of_mem name c ((k, d) ∷ r) (Memᴰ.head e) =
      Memᴰ.head (ap (λ (x : String × Check W). x.1) e)
  all_checks_of_mem name c ((k, d) ∷ r) (Memᴰ.tail i) = Memᴰ.tail (all_checks_of_mem name c r i)
