-- ===== src/Reconcile/Waiting/Tables.antt =====
-- Both tables give orderly outcomes.
use dorganizer.Prelude.{List, Bytes, refl, Bool-cases, inl, inr}
use dorganizer.Reconcile.Types.{Partition, Policy, profile_for}
use dorganizer.Reconcile.Grouping.{Runtime, Component, stem_groups}
use dorganizer.Reconcile.Lenient.Component.{new_component_outcome, lenient_component}
use dorganizer.Reconcile.Strict.Component.{reconcile_component}
use dorganizer.Reconcile.Plan.{plan_component, is_available}
use dorganizer.Reconcile.Waiting.{Orderly}
use dorganizer.Reconcile.Waiting.Relaxed.{finish_component-Orderly}
use dorganizer.Reconcile.Waiting.Declared.{finish_strict-Orderly}

-- Whichever table plans a component: a blocked outcome has no operation and no projected
-- inventory, every operation carries the component's id, every removal depends on the target of
-- every encode, and no operation depends on anything else.
pub plan_component-Orderly :
    (rt : Runtime) (policy : Policy) (root : Bytes) (occupied : List Bytes) (q : Partition)
    (c : Component)
    → Orderly (plan_component rt policy root occupied q c)
unfolding plan_component lenient_component reconcile_component new_component_outcome
plan_component-Orderly rt policy root occupied q c = elim (Bool-cases (is_available policy.mode)) [
  | inl e ↦ rw e (
      finish_component-Orderly (profile_for policy q) occupied (stem_groups c)
        (new_component_outcome rt root q c) refl refl)
  | inr e ↦ rw e (
      finish_strict-Orderly (profile_for policy q) (new_component_outcome rt root q c) _ refl refl
        refl)
]
