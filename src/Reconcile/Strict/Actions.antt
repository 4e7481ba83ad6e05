-- ===== src/Reconcile/Strict/Actions.antt =====
-- conversion/reconcile/reconcile.go: the decisions and the operations of planned stems.
use dorganizer.Prelude.{
  Bool, ◌&&◌, not, List, [], ◌∷◌, ◌++◌, Option, none, some, Bytes, bytes_beq, if◌then◌else◌, is_nil,
  filter_b, map,
}
use dorganizer.Reconcile.Types.{DesiredProfile, GroupedFile, ext_for_codec}
use dorganizer.Reconcile.Outcome.{
  Reason, keep_lossless_target, keep_encoded_satisfied, materialize_lossless, materialize_encoded,
  obsolete_lossless, obsolete_encoded, keep, delete, encode, FileDecision, VariantDecision,
  op_encode, op_remove_obsolete, materialize_outputs, remove_obsolete_audio, Operation,
  same_stem_path, dedupe_decisions, append_unique,
}
use dorganizer.Reconcile.Strict.{GroupPlan}

abbrev pub keep_of : Reason → GroupedFile → FileDecision
keep_of reason f = record {
  path = f.path_posix;
  resolution = keep;
  reason_code = reason;
  target_path = [];
}

abbrev pub delete_of : (GroupedFile → Reason) → GroupedFile → FileDecision
delete_of reason f = record {
  path = f.path_posix;
  resolution = delete;
  reason_code = reason f;
  target_path = [];
}

-- A file that the encode replaces in place is skipped.
abbrev pub replaced_in_place : GroupPlan → GroupedFile → Bool
replaced_in_place p f =
    not (is_nil p.encoded_target_path) && bytes_beq f.path_posix p.encoded_target_path

-- The extension of the lossless output. The source reads it only where a lossless file is encoded,
-- which needs a declared lossless output.
abbrev pub lossless_ext : DesiredProfile → Bytes
lossless_ext profile = elim (profile.lossless) [ none ↦ [] | some spec ↦ ext_for_codec spec.codec ]

unfoldable pub lossless_encode_decisions : DesiredProfile → Option GroupedFile → List FileDecision
lossless_encode_decisions profile none = []
lossless_encode_decisions profile (some src) =
    record {
      path = src.path_posix;
      resolution = encode;
      reason_code = materialize_lossless;
      target_path = same_stem_path src.path_posix (lossless_ext profile);
    }
    ∷ []

unfoldable pub encoded_decisions : Bool → GroupPlan → List FileDecision
encoded_decisions rebuild_whole p =
    if rebuild_whole
    then if is_nil p.encoded_target_path
      then []
      else record {
        path = p.encoded_target_path;
        resolution = encode;
        reason_code = materialize_encoded;
        target_path = p.encoded_target_path;
      }
        ∷ []
    else map (keep_of keep_encoded_satisfied) p.encoded_keep

unfoldable pub variant_of : DesiredProfile → Bool → GroupPlan → VariantDecision
unfolding lossless_encode_decisions encoded_decisions
variant_of profile rebuild_whole p = record {
  stem = p.stem;
  decisions = dedupe_decisions (
      map (keep_of keep_lossless_target) p.lossless_keep
      ++ (lossless_encode_decisions profile p.lossless_encode_src
          ++ (encoded_decisions rebuild_whole p
              ++ (map (delete_of (λ f. if f.lossless then obsolete_lossless else obsolete_encoded))
                    (filter_b (λ f. not (replaced_in_place p f)) p.encoded_obsolete)
                  ++ map (delete_of (λ _. obsolete_lossless)) p.lossless_obsolete))));
}

module _ (id : Bytes) where
  abbrev pub encode_to : Bytes → Bytes → Bytes → Operation
  encode_to stem source target = record {
    kind = op_encode;
    phase = materialize_outputs;
    component_id = id;
    variant_stem = stem;
    source_path = source;
    target_path = target;
    depends_on = [];
  }

  unfoldable pub encodes_of : DesiredProfile → GroupPlan → List Operation
  encodes_of profile p =
      let lossless : List Operation = elim (p.lossless_encode_src) [
        | none ↦ []
        | some src ↦
            encode_to p.stem src.path_posix (same_stem_path src.path_posix (lossless_ext profile))
            ∷ []
      ] in
      lossless
      ++ (if is_nil p.encoded_target_path
          then []
          else encode_to p.stem p.source p.encoded_target_path ∷ [])

  unfoldable pub all_encodes : DesiredProfile → List GroupPlan → List Operation
  unfolding encodes_of
  all_encodes profile [] = []
  all_encodes profile (p ∷ ps) = encodes_of profile p ++ all_encodes profile ps

  abbrev pub remove_op : List Bytes → Bytes → GroupedFile → Operation
  remove_op targets stem f = record {
    kind = op_remove_obsolete;
    phase = remove_obsolete_audio;
    component_id = id;
    variant_stem = stem;
    source_path = f.path_posix;
    target_path = [];
    depends_on = targets;
  }

  unfoldable pub all_removals : List Bytes → List GroupPlan → List Operation
  all_removals targets [] = []
  all_removals targets (p ∷ ps) =
      map (remove_op targets p.stem)
        (filter_b (λ f. not (replaced_in_place p f)) (p.lossless_obsolete ++ p.encoded_obsolete))
      ++ all_removals targets ps

-- `materializeTargets`: the targets of the encodes, each once, in their order.
unfoldable pub targets_of : List Bytes → List Operation → List Bytes
unfolding append_unique
targets_of seen [] = seen
targets_of seen (o ∷ ops) = targets_of (append_unique seen o.target_path) ops
