-- ===== src/Reconcile/Sources/Tables.antt =====
-- Both tables encode from observed lossless files only.
use dorganizer.Prelude.{false, List, Bytes, ◌≡◌, refl, Bool-cases, inl, inr}
use dorganizer.Reconcile.Types.{Partition, Policy, profile_for}
use dorganizer.Reconcile.Grouping.{Runtime, Component, stems_of, stem_groups}
use dorganizer.Reconcile.Lenient.Component.{new_component_outcome, lenient_component}
use dorganizer.Reconcile.Strict.Component.{reconcile_component}
use dorganizer.Reconcile.Plan.{plan_component, is_available}
use dorganizer.Reconcile.Sources.{strays, lossless_of}
use dorganizer.Reconcile.Sources.Relaxed.{strays-finish_component}
use dorganizer.Reconcile.Sources.Lanes.{strays-finish_strict}

-- Whichever table plans a component, every encode among its operations reads the path of an
-- observed lossless file of the component.
pub strays-plan_component :
    (rt : Runtime) (policy : Policy) (root : Bytes) (occupied : List Bytes) (q : Partition)
    (c : Component)
    → strays (lossless_of c.files) (plan_component rt policy root occupied q c).operations ≡ false
unfolding plan_component lenient_component reconcile_component new_component_outcome stem_groups
strays-plan_component rt policy root occupied q c = elim (Bool-cases (is_available policy.mode)) [
  | inl e ↦ rw e (
      strays-finish_component (profile_for policy q) occupied c.files (stems_of c.files)
        (new_component_outcome rt root q c))
  | inr e ↦ rw e (
      strays-finish_strict c.files (profile_for policy q) (stems_of c.files) occupied
        (new_component_outcome rt root q c) refl)
]
