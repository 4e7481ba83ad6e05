-- ===== src/Reconcile/Sources/Lanes.antt =====
-- The strict table keeps the sources of its plans through both lanes, down to the operations.
use dorganizer.Prelude.{
  true, false, ◌&&◌, not, List, [], ◌∷◌, ◌++◌, map, none, Bytes, any_b, is_some, filter_b, All, ◌≡◌,
  refl, arith, ◌⊎◌, Option-cases, Bool-cases, inl, inr,
}
use dorganizer.Reconcile.Types.{AudioOutputSpec, DesiredProfile, GroupedFile, StemGroup}
use dorganizer.Reconcile.Outcome.{Reason, ComponentOutcome}
use dorganizer.Reconcile.Effects.{observed}
use dorganizer.Reconcile.Grouping.{group_at}
use dorganizer.Reconcile.Strict.{GroupPlan, source_candidates, start_plan, plan_group}
use dorganizer.Reconcile.Strict.Lanes.{rebuild_target, rebuild_plans, target_at, no_target, Target}
use dorganizer.Reconcile.Strict.Actions.{
  remove_op, replaced_in_place, encodes_of, all_encodes, all_removals, targets_of,
}
use dorganizer.Reconcile.Strict.Component.{
  Lanes, decide_lossless, decide_encoded, rebuild_needed, finish_strict,
}
use dorganizer.Reconcile.Sources.{
  strays, lossless_of, strays-append, strays-sort_operations, lossless_group,
}
use dorganizer.Reconcile.Sources.Declared.{
  IsSourced, observed-source_candidates, start_plan-IsSourced, lossless_lane-IsSourced,
  encoded_lane-IsSourced, rebuild_target-source,
}

module _ (files : List GroupedFile) (profile : DesiredProfile) where
  plan_group-IsSourced :
      (s : Bytes) → IsSourced (lossless_of files) (plan_group profile (group_at files s))
  unfolding plan_group start_plan
  plan_group-IsSourced s =
      let own = lossless_of (group_at files s).files in
      let cs = source_candidates profile own in
      let seen : (q : Bytes) → observed q cs ≡ true → observed q (lossless_of files) ≡ true =
        λ q h. lossless_group q files s (observed-source_candidates q profile own h) in
      encoded_lane-IsSourced (lossless_of files) profile.encoded _ _ (
        lossless_lane-IsSourced (lossless_of files) profile.lossless own cs _ seen refl
          (start_plan-IsSourced (lossless_of files) (group_at files s) cs seen))

  pub plans-IsSourced :
      (stems : List Bytes)
      → All (IsSourced (lossless_of files)) (map (plan_group profile) (map (group_at files) stems))
  plans-IsSourced [] = tt
  plans-IsSourced (s ∷ ss) = (plan_group-IsSourced s, plans-IsSourced ss)

Target-cases :
    (t : Target)
    → ((path : Bytes) × (t ≡ target_at path))
      ⊎ ((r : Reason) × ((path : Bytes) × (t ≡ no_target r path)))
Target-cases (target_at path) = inl (path, refl)
Target-cases (no_target r path) = inr (r, (path, refl))

module _ (files : List GroupedFile) where
  rebuild_plans-IsSourced :
      (spec : AudioOutputSpec) (groups : List StemGroup) (occupied : List Bytes)
      (ps : List GroupPlan)
      → All (IsSourced files) ps
      → (rebuild_plans spec groups occupied ps).1 ≡ none
      → All (IsSourced files) (rebuild_plans spec groups occupied ps).0
  unfolding rebuild_plans
  rebuild_plans-IsSourced spec groups occupied [] h e = tt
  rebuild_plans-IsSourced spec groups occupied (p ∷ ps) (h, hs) e =
      elim (Target-cases (rebuild_target spec groups occupied p)) [
        | inl (path, k) ↦
            rw (k, rebuild_plans)
              (
                record {
                  source_seen = h.source_seen;
                  encode_src_seen = h.encode_src_seen;
                  has_source = λ _. rebuild_target-source spec groups occupied p path k;
                },
                rebuild_plans-IsSourced spec groups occupied ps hs (rw (k, rebuild_plans) at e),
              )
        | inr (r, (path, k)) ↦ cc (rw (k, rebuild_plans) at e)
      ]

  decide_encoded-IsSourced :
      (profile : DesiredProfile) (groups : List StemGroup) (occupied : List Bytes) (s : Lanes)
      → All (IsSourced files) s.plans
      → (decide_encoded profile groups occupied s).blocked ≡ none
      → All (IsSourced files) (decide_encoded profile groups occupied s).plans
  unfolding decide_encoded
  decide_encoded-IsSourced profile groups occupied s h e = elim (Option-cases profile.encoded) [
    | inl k ↦ rw (k, decide_encoded) h
    | inr (spec, k) ↦ elim (Bool-cases (rebuild_needed s.plans && not (is_some s.blocked))) [
      | inl b ↦
          rw (k, decide_encoded, b)
            (rebuild_plans-IsSourced spec groups occupied s.plans h
              (rw (k, decide_encoded, b) at e))
      | inr b ↦ rw (k, decide_encoded, b) h
    ]
  ]

  module _ (id : Bytes) (profile : DesiredProfile) where
    strays-encodes_of :
        (p : GroupPlan) → IsSourced files p → strays files (encodes_of id profile p) ≡ false
    unfolding encodes_of any_b
    strays-encodes_of p h = elim (Option-cases p.lossless_encode_src) [
      | inl e ↦ rw (e, encodes_of) (ground (arith, h.source_seen, h.has_source))
      | inr (s, e) ↦
          rw (e, encodes_of) (ground (arith, h.encode_src_seen s e, h.source_seen, h.has_source))
    ]

    strays-all_encodes :
        (ps : List GroupPlan)
        → All (IsSourced files) ps
        → strays files (all_encodes id profile ps) ≡ false
    unfolding all_encodes any_b
    strays-all_encodes [] h = refl
    strays-all_encodes (p ∷ ps) (h, hs) =
        strays-append files (encodes_of id profile p) (all_encodes id profile ps)
          (strays-encodes_of p h) (strays-all_encodes ps hs)

  module _ (id : Bytes) (targets : List Bytes) where
    strays-removes :
        (stem : Bytes) (fs : List GroupedFile)
        → strays files (map (remove_op id targets stem) fs) ≡ false
    unfolding any_b
    strays-removes stem [] = refl
    strays-removes stem (f ∷ fs) = strays-removes stem fs

    strays-all_removals : (ps : List GroupPlan) → strays files (all_removals id targets ps) ≡ false
    unfolding all_removals any_b
    strays-all_removals [] = refl
    strays-all_removals (p ∷ ps) =
        let fs =
          filter_b (λ f. not (replaced_in_place p f)) (p.lossless_obsolete ++ p.encoded_obsolete) in
        strays-append files (map (remove_op id targets p.stem) fs) (all_removals id targets ps)
          (strays-removes p.stem fs) (strays-all_removals ps)

decide_lossless-plans :
    (profile : DesiredProfile) (plans : List GroupPlan)
    → (decide_lossless profile plans).plans ≡ plans
unfolding decide_lossless
decide_lossless-plans profile plans = elim (Option-cases profile.lossless) [
  | inl e ↦ rw (e, decide_lossless) refl
  | inr (spec, e) ↦ rw (e, decide_lossless) refl
]

-- The end of the strict table, whose plans come from the stem groups of the files.
pub strays-finish_strict :
    (files : List GroupedFile) (profile : DesiredProfile) (stems occupied : List Bytes)
    (out : ComponentOutcome)
    → out.operations ≡ []
    → strays
        (lossless_of files)
        (finish_strict profile out (
          decide_encoded profile (map (group_at files) stems) occupied (
            decide_lossless profile
              (map (plan_group profile) (map (group_at files) stems))))).operations
      ≡ false
unfolding finish_strict any_b
strays-finish_strict files profile stems occupied out none_yet =
    let groups = map (group_at files) stems in
    let first = decide_lossless profile (map (plan_group profile) groups) in
    let s = decide_encoded profile groups occupied first in
    let id = out.component_id in
    let encodes = all_encodes id profile s.plans in
    let gone = all_removals id (targets_of [] encodes) s.plans in
    elim (Option-cases s.blocked) [
      | inr (r, e) ↦ rw (e, finish_strict, none_yet) refl
      | inl e ↦
          let sourced =
            decide_encoded-IsSourced (lossless_of files) profile groups occupied first
              (rw (decide_lossless-plans profile (map (plan_group profile) groups))
                (plans-IsSourced files profile stems))
              e in
          rw (e, finish_strict)
            (strays-sort_operations (lossless_of files) (encodes ++ gone) (
              strays-append (lossless_of files) encodes gone
                (strays-all_encodes (lossless_of files) id profile s.plans sourced)
                (strays-all_removals (lossless_of files) id (targets_of [] encodes) s.plans)))
    ]
