-- ===== src/Reconcile/Outcome.antt =====
-- conversion/reconcile/types.go and reconcile.go: what planning one component answers, and the
-- helpers that both decision tables share. The prose messages are left out.
use dorganizer.Prelude.{
  Bool, not, List, [], ◌∷◌, ◌++◌, Option, none, some, Bytes, bytes_beq, bytes_ltb, codes,
  if◌then◌else◌, is_nil,
}
use dorganizer.Prelude.Member.{elem}
use dorganizer.Prelude.Sorting.{sort_by, sort_strings}
use dorganizer.GoPath.{dir, base, ext, join, trim_suffix}
use dorganizer.Reconcile.Types.{Partition, FileTuple, GroupedFile}

pub data Status : Type 0 where
  status_ok status_blocked : Status

-- The stable reason codes of both tables.
pub data Reason : Type 0 where
  keep_lossless_target keep_encoded_satisfied : Reason
  materialize_lossless materialize_encoded : Reason
  obsolete_lossless obsolete_encoded : Reason
  source_missing source_ambiguous target_path_ambiguous target_path_conflict : Reason
  conformance_unconfirmed lossless_unfulfillable unmet_target : Reason

pub data Lane : Type 0 where
  lane_lossless lane_encoded : Lane

pub data LaneState : Type 0 where
  keep_all rebuild_all rebuild lane_keep lane_blocked : LaneState

pub record LaneDecision : Type 0 where
  pub lane : Lane
  pub decision : LaneState
  pub reason_code : Option Reason

pub data Resolution : Type 0 where
  keep delete encode : Resolution

pub record FileDecision : Type 0 where
  pub path : Bytes
  pub resolution : Resolution
  pub reason_code : Reason
  pub target_path : Bytes  -- empty but for an encode

pub record VariantDecision : Type 0 where
  pub stem : Bytes
  pub decisions : List FileDecision

pub data OpKind : Type 0 where
  op_encode op_remove_obsolete : OpKind

pub data Phase : Type 0 where
  materialize_outputs remove_obsolete_audio : Phase

pub record Operation : Type 0 where
  pub kind : OpKind
  pub phase : Phase
  pub component_id : Bytes
  pub variant_stem : Bytes
  pub source_path : Bytes
  pub target_path : Bytes
  pub depends_on : List Bytes

pub record ComponentOutcome : Type 0 where
  pub component_id : Bytes
  pub partition : Partition
  pub status : Status
  pub reason_code : Option Reason
  pub lanes : List LaneDecision
  pub variants : List VariantDecision
  pub operations : List Operation
  pub projected_inventory : List Bytes
  pub files : List FileTuple

unfoldable pub same_stem_path : Bytes → Bytes → Bytes
same_stem_path source target_ext =
    let name = base source in
    let stem = trim_suffix name (ext name) in join (dir source ∷ (stem ++ target_ext) ∷ [])

-- The loop of `dedupeDecisions`, with the paths seen so far.
unfoldable pub dedupe_from : List Bytes → List FileDecision → List FileDecision
dedupe_from seen [] = []
dedupe_from seen (d ∷ ds) =
    let known = dedupe_from seen ds in
    let fresh = d ∷ dedupe_from (d.path ∷ seen) ds in if elem d.path seen then known else fresh

unfoldable pub dedupe_decisions : List FileDecision → List FileDecision
unfolding dedupe_from
dedupe_decisions ds = dedupe_from [] ds

-- The set `seen` of the source always holds the elements of the list, so the list stands for both.
unfoldable pub append_unique : List Bytes → Bytes → List Bytes
append_unique list p = if elem p list then list else list ++ p ∷ []

abbrev pub phase_text : Phase → Bytes
phase_text materialize_outputs = codes "materialize_outputs"
phase_text remove_obsolete_audio = codes "remove_obsolete_audio"

unfoldable pub operation_less : Operation → Operation → Bool
operation_less a b =
    if not (bytes_beq (phase_text a.phase) (phase_text b.phase))
    then bytes_ltb (phase_text a.phase) (phase_text b.phase)
    else if not (bytes_beq a.source_path b.source_path)
    then bytes_ltb a.source_path b.source_path
    else bytes_ltb a.target_path b.target_path

unfoldable pub sort_operations : List Operation → List Operation
sort_operations ops = sort_by operation_less ops

-- The path that a decision leaves in the final set, if it leaves one.
unfoldable pub projected_path : FileDecision → Option Bytes
projected_path d = elim (d.resolution) [
  | keep ↦ some d.path
  | encode ↦ some (if not (is_nil d.target_path) then d.target_path else d.path)
  | delete ↦ none
]

unfoldable pub note_path : List Bytes → Option Bytes → List Bytes
unfolding append_unique
note_path paths none = paths
note_path paths (some p) = append_unique paths p

-- The loop of `projectedInventory` over all decisions.
unfoldable pub collect_paths : List Bytes → List FileDecision → List Bytes
unfolding projected_path note_path
collect_paths paths [] = paths
collect_paths paths (d ∷ ds) = collect_paths (note_path paths (projected_path d)) ds

unfoldable pub all_decisions : List VariantDecision → List FileDecision
all_decisions [] = []
all_decisions (v ∷ vs) = v.decisions ++ all_decisions vs

unfoldable pub projected_inventory_of : List VariantDecision → List Bytes
unfolding collect_paths all_decisions
projected_inventory_of variants = sort_strings (collect_paths [] (all_decisions variants))

abbrev pub tuple_of : GroupedFile → FileTuple
tuple_of f = record { path = f.path_posix; size = f.size; mtime = f.mtime }

abbrev pub tuple_less : FileTuple → FileTuple → Bool
tuple_less a b = bytes_ltb a.path b.path
