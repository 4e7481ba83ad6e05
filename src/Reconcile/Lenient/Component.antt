-- ===== src/Reconcile/Lenient/Component.antt =====
-- conversion/reconcile/mode.go, `lenientComponent` and `countUnmetTargets`, with the skeleton of a
-- component's outcome.
pub mod Loop
pub mod Exact
pub mod Inventory
use dorganizer.Prelude.{
  ℕ, zero, suc, ◌+◌, Bool, true, false, ◌||◌, List, [], ◌∷◌, ◌++◌, map, Option, none, some, Bytes,
  any_b, if◌then◌else◌,
}
use dorganizer.Prelude.Sorting.{sort_by}
use dorganizer.Reconcile.Types.{Partition, DesiredProfile, StemGroup}
use dorganizer.Reconcile.Outcome.{
  Reason, unmet_target, conformance_unconfirmed, status_ok, status_blocked, FileDecision,
  VariantDecision, delete, op_remove_obsolete, remove_obsolete_audio, Operation, ComponentOutcome,
  dedupe_decisions, append_unique, sort_operations, projected_inventory_of, tuple_of, tuple_less,
}
use dorganizer.Reconcile.Effects.{is_delete}
use dorganizer.Reconcile.Grouping.{Runtime, Component, stem_groups, component_id_of}
use dorganizer.Reconcile.Lenient.{lenient_stem}

unfoldable pub new_component_outcome : Runtime → Bytes → Partition → Component → ComponentOutcome
new_component_outcome rt root partition c = record {
  component_id = component_id_of rt root partition c;
  partition = partition;
  status = status_ok;
  reason_code = none;
  lanes = [];
  variants = [];
  operations = [];
  projected_inventory = [];
  files = sort_by tuple_less (map tuple_of c.files);
}

-- `op.ComponentID = out.ComponentID`
abbrev pub owned_by : Bytes → Operation → Operation
owned_by id op = record op { component_id = id }

unfoldable pub append_targets : List Bytes → List Bytes → List Bytes
append_targets targets [] = targets
append_targets targets (t ∷ ts) = append_targets (append_unique targets t) ts

-- What the loop over the stems has gathered: the block that ended it, if one did.
pub record Gathered : Type 0 where
  pub blocked : Option Reason
  pub variants : List VariantDecision
  pub operations : List Operation
  pub targets : List Bytes

module _ (id : Bytes) (profile : DesiredProfile) (occupied : List Bytes) where
  unfoldable pub gather : Gathered → List StemGroup → Gathered
  gather acc [] = acc
  gather acc (g ∷ gs) =
      let d = lenient_stem g profile occupied in
      let rest =
        gather
          (record {
            blocked = none;
            variants =
                acc.variants
                ++ record { stem = d.stem; decisions = dedupe_decisions d.decisions } ∷ [];
            operations = acc.operations ++ map (owned_by id) d.ops;
            targets = append_targets acc.targets d.targets;
          })
          gs in
      elim (d.block_code) [
        | some reason ↦ record acc {
          blocked = some reason;
          variants = acc.variants ++ record { stem = d.stem; decisions = d.decisions } ∷ [];
        }
        | none ↦ rest
      ]

-- The removals of one variant, each after all of the component's materialized targets.
unfoldable pub removals_of : Bytes → List Bytes → Bytes → List FileDecision → List Operation
removals_of id targets stem [] = []
removals_of id targets stem (d ∷ ds) =
    let rest = removals_of id targets stem ds in
    if is_delete d.resolution
    then record {
      kind = op_remove_obsolete;
      phase = remove_obsolete_audio;
      component_id = id;
      variant_stem = stem;
      source_path = d.path;
      target_path = [];
      depends_on = targets;
    }
      ∷ rest
    else rest

unfoldable pub removals : Bytes → List Bytes → List VariantDecision → List Operation
unfolding removals_of
removals id targets [] = []
removals id targets (v ∷ vs) = removals_of id targets v.stem v.decisions ++ removals id targets vs

-- The end of `lenientComponent`: a block drops every operation.
unfoldable pub finish_component : ComponentOutcome → Gathered → ComponentOutcome
unfolding removals
finish_component out r = elim (r.blocked) [
  | some reason ↦ record out {
    status = status_blocked;
    reason_code = some reason;
    variants = r.variants;
    operations = [];
  }
  | none ↦ record out {
    variants = r.variants;
    operations = sort_operations (r.operations ++ removals out.component_id r.targets r.variants);
    projected_inventory = projected_inventory_of r.variants;
  }
]

abbrev pub nothing_gathered : Gathered
nothing_gathered = record { blocked = none; variants = []; operations = []; targets = [] }

unfoldable pub lenient_component :
    Runtime → Bytes → Partition → DesiredProfile → Component → List Bytes → ComponentOutcome
unfolding new_component_outcome gather finish_component append_targets
lenient_component rt root partition profile c occupied =
    let out = new_component_outcome rt root partition c in
    finish_component out (gather out.component_id profile occupied nothing_gathered (stem_groups c))

abbrev is_unmet : Reason → Bool
is_unmet unmet_target = true
is_unmet conformance_unconfirmed = true
is_unmet _ = false

unfoldable pub count_unmet : List VariantDecision → ℕ
count_unmet [] = 0
count_unmet (v ∷ vs) =
    let rest = count_unmet vs in
    if any_b (λ d. is_unmet d.reason_code) v.decisions then rest + 1 else rest
