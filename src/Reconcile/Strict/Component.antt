-- ===== src/Reconcile/Strict/Component.antt =====
-- conversion/reconcile/reconcile.go, `reconcileComponent`.
use dorganizer.Prelude.{
  Bool, true, false, ◌&&◌, not, List, [], ◌∷◌, ◌++◌, Option, none, some, Bytes, if◌then◌else◌,
  is_some, any_b, map,
}
use dorganizer.Reconcile.Types.{Partition, DesiredProfile, StemGroup}
use dorganizer.Reconcile.Outcome.{
  Reason, status_blocked, Lane, lane_lossless, lane_encoded, LaneState, keep_all, rebuild_all,
  rebuild, lane_keep, LaneDecision, ComponentOutcome, sort_operations, projected_inventory_of,
}
use dorganizer.Reconcile.Grouping.{Runtime, Component, stem_groups}
use dorganizer.Reconcile.Lenient.Component.{new_component_outcome}
use dorganizer.Reconcile.Strict.{GroupPlan, plan_group}
use dorganizer.Reconcile.Strict.Lanes.{
  first_block, lossless_rebuild_needed, lane_decision, rebuild_plans,
}
use dorganizer.Reconcile.Strict.Actions.{variant_of, all_encodes, all_removals, targets_of}

abbrev is_encoded_lane : Lane → Bool
is_encoded_lane lane_encoded = true
is_encoded_lane lane_lossless = false

abbrev pub is_rebuild_all : LaneState → Bool
is_rebuild_all rebuild_all = true
is_rebuild_all _ = false

-- `encodedLaneDecision(out) == LaneRebuildAll`
unfoldable pub rebuilds_all : List LaneDecision → Bool
rebuilds_all [] = false
rebuilds_all (l ∷ ls) =
    let rest = rebuilds_all ls in if is_encoded_lane l.lane then is_rebuild_all l.decision else rest

-- The plans after both lanes, the lanes, and the block of the component.
pub record Lanes : Type 0 where
  pub plans : List GroupPlan
  pub lanes : List LaneDecision
  pub blocked : Option Reason

unfoldable pub decide_lossless : DesiredProfile → List GroupPlan → Lanes
decide_lossless profile plans = elim (profile.lossless) [
  | none ↦ record { plans = plans; lanes = []; blocked = none }
  | some spec ↦ record {
    plans = plans;
    lanes =
        lane_decision lane_lossless (first_block plans)
          (if lossless_rebuild_needed plans then rebuild else lane_keep)
        ∷ [];
    blocked = first_block plans;
  }
]

unfoldable pub rebuild_needed : List GroupPlan → Bool
rebuild_needed plans = any_b (λ p. p.encoded_needs_rebuild) plans

unfoldable pub decide_encoded : DesiredProfile → List StemGroup → List Bytes → Lanes → Lanes
decide_encoded profile groups occupied s = elim (profile.encoded) [
  | none ↦ s
  | some spec ↦
      let needed = rebuild_needed s.plans in
      let (plans, blocked) =
        if needed && not (is_some s.blocked)
        then rebuild_plans spec groups occupied s.plans
        else (s.plans, s.blocked) in
      record {
        plans = plans;
        lanes =
            s.lanes
            ++ lane_decision lane_encoded blocked (if needed then rebuild_all else keep_all) ∷ [];
        blocked = blocked;
      }
]

-- The end of the function: an unblocked component gets its operations and its inventory.
unfoldable pub finish_strict : DesiredProfile → ComponentOutcome → Lanes → ComponentOutcome
finish_strict profile out s =
    let rebuild_whole = is_some profile.encoded && rebuilds_all s.lanes in
    let variants = map (variant_of profile rebuild_whole) s.plans in
    let encodes = all_encodes out.component_id profile s.plans in
    let targets = targets_of [] encodes in
    elim (s.blocked) [
      | some reason ↦ record out {
        status = status_blocked;
        reason_code = some reason;
        lanes = s.lanes;
        variants = variants;
      }
      | none ↦ record out {
        lanes = s.lanes;
        variants = variants;
        operations = sort_operations (encodes ++ all_removals out.component_id targets s.plans);
        projected_inventory = projected_inventory_of variants;
      }
    ]

unfoldable pub reconcile_component :
    Runtime → Bytes → Partition → DesiredProfile → Component → List Bytes → ComponentOutcome
unfolding decide_lossless decide_encoded finish_strict
reconcile_component rt root partition profile c occupied =
    let groups = stem_groups c in
    let plans = map (plan_group profile) groups in
    finish_strict profile (new_component_outcome rt root partition c)
      (decide_encoded profile groups occupied (decide_lossless profile plans))
