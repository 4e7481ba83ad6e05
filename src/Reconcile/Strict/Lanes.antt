-- ===== src/Reconcile/Strict/Lanes.antt =====
-- conversion/reconcile/reconcile.go: the lanes of a component under the strict table.
use dorganizer.Prelude.{
  Bool, ◌&&◌, not, List, [], ◌∷◌, Option, none, some, Bytes, bytes_beq, if◌then◌else◌, is_nil,
  is_some, any_b,
}
use dorganizer.Prelude.Member.{elem}
use dorganizer.Reconcile.Types.{AudioOutputSpec, StemGroup, ext_for_codec}
use dorganizer.Reconcile.Outcome.{
  Reason, source_missing, source_ambiguous, target_path_ambiguous, target_path_conflict,
  conformance_unconfirmed, Lane, LaneState, lane_blocked, LaneDecision, same_stem_path,
}
use dorganizer.Reconcile.Strict.{GroupPlan}

-- The first reason that a list of plans gives, in its order.
unfoldable pub first_block : List GroupPlan → Option Reason
first_block [] = none
first_block (p ∷ ps) =
    let rest = first_block ps in elim (p.lossless_blocked) [ some r ↦ some r | none ↦ rest ]

unfoldable pub lossless_rebuild_needed : List GroupPlan → Bool
lossless_rebuild_needed plans = any_b (λ p. is_some p.lossless_encode_src) plans

unfoldable pub lane_decision : Lane → Option Reason → LaneState → LaneDecision
lane_decision lane (some r) free = record {
  lane = lane;
  decision = lane_blocked;
  reason_code = some r;
}
lane_decision lane none free = record { lane = lane; decision = free; reason_code = none }

-- `owner[path] == stem`: the last file of the path among all groups decides.
unfoldable pub owner : Bytes → List StemGroup → Option Bytes
owner path [] = none
owner path (g ∷ gs) =
    let rest = owner path gs in
    elim rest [
      | some s ↦ some s
      | none ↦ if any_b (λ f. bytes_beq f.path_posix path) g.files then some g.stem else none
    ]

abbrev owns : Option Bytes → Bytes → Bool
owns none stem = bytes_beq [] stem
owns (some s) stem = bytes_beq s stem

-- What the rebuild loop finds for one stem: the path to encode to, or why it cannot and the path
-- that it has stored by then.
pub data Target : Type 0 where
  target_at : Bytes → Target
  no_target : Reason → Bytes → Target

unfoldable pub rebuild_target : AudioOutputSpec → List StemGroup → List Bytes → GroupPlan → Target
rebuild_target spec groups occupied p =
    if p.source_ambiguous
    then no_target source_ambiguous []
    else if is_nil p.source
    then no_target (if is_nil p.encoded_target then source_missing else conformance_unconfirmed) []
    else elim (p.encoded_target) [
      | [] ↦
          let target = same_stem_path p.source (ext_for_codec spec.codec) in
          if elem target occupied && not (owns (owner target groups) p.stem)
          then no_target target_path_conflict target
          else target_at target
      | f ∷ fs ↦ if is_nil fs then target_at f.path_posix else no_target target_path_ambiguous []
    ]

-- The loop over the plans: it writes target paths until a stem blocks the component.
unfoldable pub rebuild_plans :
    AudioOutputSpec → List StemGroup → List Bytes → List GroupPlan → List GroupPlan × Option Reason
unfolding rebuild_target
rebuild_plans spec groups occupied [] = ([], none)
rebuild_plans spec groups occupied (p ∷ ps) =
    let (rest, block) = rebuild_plans spec groups occupied ps in
    elim (rebuild_target spec groups occupied p) [
      | target_at path ↦ (record p { encoded_target_path = path } ∷ rest, block)
      | no_target reason path ↦ (record p { encoded_target_path = path } ∷ ps, some reason)
    ]
