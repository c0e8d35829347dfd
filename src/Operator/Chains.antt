-- ===== src/Operator/Chains.antt =====
-- Chains of calls that stop at the first error.
use k_deskflight.Base.{String, Option, none, some, ◌≡◌, refl}
use k_deskflight.Base.Exec.{Outcome, returned, panicked, Exec, Fallible, ok, err, continue}
use k_deskflight.Operator.{go_on, must, use_value, obtain}

-- Chains that stop at the first error, seen through an observation of the world: `g` is to hold at the
-- end, and holds wherever the observation is still what it was.
module _ {W B : Type 0} (observe : W → B) (base : B) (g : W → Type 0)
    (idle : (w : W) → observe w ≡ base → g w) where
  go_on-Ends :
      (doing : String) (o : Outcome (Option String)) (next : Exec W (Option String)) (w : W)
      → observe w ≡ base
      → (o ≡ returned none → g (next w).1)
      → g (continue o (λ e. go_on doing e next) w).1
  go_on-Ends doing (returned none) next w same k = k refl
  go_on-Ends doing (returned (some text)) next w same k = idle w same
  go_on-Ends doing (panicked v) next w same k = idle w same

  pub must-Ends :
      (doing : String) (m next : Exec W (Option String)) (w : W)
      → observe (m w).1 ≡ base
      → ((m w).0 ≡ returned none → g (next (m w).1).1)
      → g (must doing m next w).1
  must-Ends doing m next w same k = go_on-Ends doing (m w).0 next (m w).1 same k

  use_value-Ends :
      {A : Type 0} (doing : String) (o : Outcome (Fallible A)) (next : A → Exec W (Option String))
      (w : W)
      → observe w ≡ base
      → ((a : A) → o ≡ returned (ok a) → g (next a w).1)
      → g (continue o (λ a. use_value doing a next) w).1
  use_value-Ends doing (returned (ok a)) next w same k = k a refl
  use_value-Ends doing (returned (err text)) next w same k = idle w same
  use_value-Ends doing (panicked v) next w same k = idle w same

  pub obtain-Ends :
      {A : Type 0} (doing : String) (m : Exec W (Fallible A)) (next : A → Exec W (Option String))
      (w : W)
      → observe (m w).1 ≡ base
      → ((a : A) → (m w).0 ≡ returned (ok a) → g (next a (m w).1).1)
      → g (obtain doing m next w).1
  obtain-Ends doing m next w same k = use_value-Ends doing (m w).0 next (m w).1 same k
