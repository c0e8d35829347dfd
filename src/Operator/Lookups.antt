-- ===== src/Operator/Lookups.antt =====
-- What the lookups of the operator's checks leave of the world.
use k_deskflight.Base.{◌≡◌, refl, ◌∙◌, All-mem, Memᴰ}
use k_deskflight.Base.Exec.{Exec, continue}
use k_deskflight.Base.Exec.Laws.{Preserves, bind-Preserves}
use k_deskflight.Domain.{Check}
use k_deskflight.Domain.Specs.{CheckSpec}
use k_deskflight.Adapters.{
  Clients, list_ready_nodes, list_storage_classes, list_ingress_classes, has_api_group,
  server_version,
}
use k_deskflight.Registry.{all_checks}
use k_deskflight.Checks.Naming.{operator_registry}
use k_deskflight.Checks.Reading.{LookupsKeep, operator_registry-Keeps}
use k_deskflight.Operator.{Platform, discoveries}

-- The requests of the checks to the cluster, and the clock, leave what is observed of the world.
pub record LookupsLeave {W B : Type 0} (p : Platform W) (c : Clients W) (observe : W → B)
    : Type 0 where
  pub nodes : (w : W) → observe (c.nodes w).1 ≡ observe w
  pub storage_classes : (w : W) → observe (c.storage_classes w).1 ≡ observe w
  pub ingress_classes : (w : W) → observe (c.ingress_classes w).1 ≡ observe w
  pub server_groups : (w : W) → observe (c.server_groups w).1 ≡ observe w
  pub server_version : (w : W) → observe (c.server_version w).1 ≡ observe w
  pub clock : (w : W) → observe (p.now w).1 ≡ observe w

-- A call whose continuation leaves the observation.
pub call-Keeps :
    {W A B C : Type 0} (observe : W → C) (before : C) (m : Exec W A) (f : A → Exec W B)
    → ((w : W) → observe (m w).1 ≡ observe w)
    → ((a : A) → Preserves (λ w. observe w ≡ before) (f a))
    → Preserves (λ w. observe w ≡ before) (λ w. continue (m w).0 f (m w).1)
call-Keeps observe before m f leaves next =
    bind-Preserves (λ w. observe w ≡ before) m f (λ w h. leaves w ∙ h) next

module _ {W C : Type 0} (p : Platform W) (c : Clients W) (observe : W → C)
    (leave : LookupsLeave p c observe) where
  lookups_keep : (before : C) → LookupsKeep (discoveries p c) (λ w. observe w ≡ before)
  unfolding server_version list_storage_classes list_ingress_classes has_api_group list_ready_nodes
  lookups_keep before = record {
    clock = λ w h. leave.clock w ∙ h;
    server_version = call-Keeps observe before c.server_version _ leave.server_version (λ a w h. h);
    list_storage_classes =
        call-Keeps observe before c.storage_classes _ leave.storage_classes (λ a w h. h);
    list_ingress_classes =
        call-Keeps observe before c.ingress_classes _ leave.ingress_classes (λ a w h. h);
    has_api_group =
        λ group. call-Keeps observe before c.server_groups _ leave.server_groups (λ a w h. h);
    list_ready_nodes = call-Keeps observe before c.nodes _ leave.nodes (λ a w h. h);
  }

  -- A run of a check leaves the observation.
  pub run-leaves :
      (check : Check W)
      → Memᴰ check (all_checks (operator_registry (discoveries p c)))
      → (spec : CheckSpec) (w : W) → observe (check.run spec w).1 ≡ observe w
  run-leaves check m spec w =
      All-mem (λ (k : Check W). (s : CheckSpec) → Preserves (λ v. observe v ≡ observe w) (k.run s))
        (all_checks (operator_registry (discoveries p c)))
        (operator_registry-Keeps (discoveries p c) (λ v. observe v ≡ observe w)
          (lookups_keep (observe w)))
        m spec w refl
