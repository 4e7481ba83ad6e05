-- ===== src/Reconcile/Lenient.antt =====
-- conversion/reconcile/mode.go: the decision table of `available_sources`, stem by stem.
pub mod Steps
pub mod Outputs
pub mod Cases
pub mod Calculus
pub mod Contract
pub mod Component
use dorganizer.Prelude.{
  ℕ, Bool, true, false, ◌&&◌, ◌||◌, not, List, [], ◌∷◌, ◌++◌, Option, none, some, Bytes, bytes_beq,
  if◌then◌else◌, is_nil, is_some, ltb, length, filter_b, any_b, map, ◌==◌,
}
use dorganizer.Prelude.Member.{elem}
use dorganizer.Reconcile.Types.{
  Codec, wav, flac, codec_eq, codec_beq, ext_for_codec, AudioOutputSpec, DesiredProfile,
  GroupedFile, StemGroup,
}
use dorganizer.Reconcile.Satisfied.{satisfied_encoded}
use dorganizer.Reconcile.Outcome.{
  Reason, keep_lossless_target, keep_encoded_satisfied, materialize_lossless, materialize_encoded,
  obsolete_lossless, obsolete_encoded, source_ambiguous, target_path_conflict,
  conformance_unconfirmed, unmet_target, keep, delete, encode, FileDecision, op_encode,
  materialize_outputs, Operation, same_stem_path, append_unique,
}

-- `panicked` is set where the source would dereference a nil source.
pub record StemDecision : Type 0 where
  pub stem : Bytes
  pub decisions : List FileDecision
  pub ops : List Operation
  pub targets : List Bytes
  pub block_code : Option Reason
  pub panicked : Bool

unfoldable pub add_keep : Bytes → Reason → StemDecision → StemDecision
add_keep path reason d = record d {
  decisions =
      d.decisions
      ++ record { path = path; resolution = keep; reason_code = reason; target_path = [] } ∷ [];
}

unfoldable pub add_delete : Bytes → Reason → StemDecision → StemDecision
add_delete path reason d = record d {
  decisions =
      d.decisions
      ++ record { path = path; resolution = delete; reason_code = reason; target_path = [] } ∷ [];
}

unfoldable pub add_encode : Bytes → Bytes → Reason → StemDecision → StemDecision
add_encode source target reason d = record d {
  decisions =
      d.decisions
      ++ record { path = target; resolution = encode; reason_code = reason; target_path = target }
        ∷ [];
  ops =
      d.ops
      ++ record {
        kind = op_encode;
        phase = materialize_outputs;
        component_id = [];
        variant_stem = d.stem;
        source_path = source;
        target_path = target;
        depends_on = [];
      }
        ∷ [];
  -- each call of the source starts from an empty `seen`
  targets = d.targets ++ target ∷ [];
}

unfoldable pub unmet_reason : GroupedFile → DesiredProfile → Reason
unmet_reason f profile = elim (profile.encoded) [
  | none ↦ unmet_target
  | some spec ↦
      if not f.lossless && (f.codec == spec.codec) && not (satisfied_encoded f spec)
      then conformance_unconfirmed
      else unmet_target
]

unfoldable pub of_codec : Codec → List GroupedFile → List GroupedFile
of_codec codec files = filter_b (λ f. codec_beq f.codec codec) files

unfoldable pub declared_lossless : Option AudioOutputSpec → List GroupedFile → List GroupedFile
declared_lossless none files = []
declared_lossless (some spec) files = of_codec spec.codec files

-- Both results of `declaredEncoded`: the files that satisfy the target, and those below it.
unfoldable pub declared_encoded :
    Option AudioOutputSpec → List GroupedFile → List GroupedFile × List GroupedFile
declared_encoded none files = ([], [])
declared_encoded (some spec) files = (
  filter_b (λ f. satisfied_encoded f spec) (of_codec spec.codec files),
  filter_b (λ f. not (satisfied_encoded f spec)) (of_codec spec.codec files),
)

-- The first codec of the list that some file has answers with all of its files.
unfoldable pub first_candidates : List Codec → List GroupedFile → List GroupedFile
first_candidates [] files = []
first_candidates (c ∷ cs) files =
    let rest = first_candidates cs files in
    let candidates = of_codec c files in if is_nil candidates then rest else candidates

abbrev pub source_codecs : DesiredProfile → List Codec
source_codecs profile = elim (profile.lossless) [
  | none ↦ wav ∷ flac ∷ []
  | some spec ↦ spec.codec ∷ wav ∷ flac ∷ []
]

unfoldable pub qualified_sources : List GroupedFile → DesiredProfile → List GroupedFile
qualified_sources files profile = first_candidates (source_codecs profile) files

unfoldable pub stem_owns : StemGroup → Bytes → Bool
stem_owns g target = any_b (λ f. bytes_beq f.path_posix target) g.files

-- The loops that call `keep` and `del` on a list of files.
unfoldable pub keep_files : (GroupedFile → Reason) → List GroupedFile → StemDecision → StemDecision
keep_files reason [] d = d
keep_files reason (f ∷ fs) d = keep_files reason fs (add_keep f.path_posix (reason f) d)

abbrev pub obsolete_reason : GroupedFile → Reason
obsolete_reason f = if f.lossless then obsolete_lossless else obsolete_encoded

unfoldable pub delete_rest : List Bytes → Bytes → List GroupedFile → StemDecision → StemDecision
delete_rest kept replaced [] d = d
delete_rest kept replaced (f ∷ fs) d = delete_rest kept replaced fs (
    if elem f.path_posix kept || bytes_beq f.path_posix replaced
    then d
    else add_delete f.path_posix (obsolete_reason f) d)

module _ (g : StemGroup) (profile : DesiredProfile) where
  abbrev pub lossless_files : List GroupedFile
  lossless_files = filter_b (λ f. f.lossless) g.files

  abbrev pub encoded_files : List GroupedFile
  encoded_files = filter_b (λ f. not f.lossless) g.files

  abbrev pub lossless_kept : List GroupedFile
  lossless_kept = declared_lossless profile.lossless lossless_files

  abbrev pub encoded_kept : List GroupedFile
  encoded_kept = (declared_encoded profile.encoded encoded_files).0

  abbrev pub encoded_below : List GroupedFile
  encoded_below = (declared_encoded profile.encoded encoded_files).1

  abbrev pub needs_lossless : Bool
  needs_lossless = is_some profile.lossless && is_nil lossless_kept

  abbrev pub needs_encoded : Bool
  needs_encoded = is_some profile.encoded && is_nil encoded_kept

  abbrev pub sources : List GroupedFile
  sources = qualified_sources lossless_files profile

-- `src`: set only when exactly one source qualifies.
abbrev pub single : List GroupedFile → Option GroupedFile
single (f ∷ []) = some f
single _ = none

-- A single variant below the target is replaced in place, else the output stands by its source.
abbrev pub replaced_path : GroupedFile → Codec → List GroupedFile → Bytes
replaced_path src codec (f ∷ []) = same_stem_path f.path_posix (ext_for_codec codec)
replaced_path src codec _ = same_stem_path src.path_posix (ext_for_codec codec)

unfoldable pub encode_lossless :
    Option AudioOutputSpec → Option GroupedFile → StemDecision → StemDecision
encode_lossless none src d = d
encode_lossless (some spec) none d = record d { panicked = true }
encode_lossless (some spec) (some src) d =
    add_encode src.path_posix (same_stem_path src.path_posix (ext_for_codec spec.codec))
      materialize_lossless d

module _ (g : StemGroup) (occupied kept : List Bytes) where
  -- The encoded lane, and the removal of every file that is neither kept nor replaced.
  unfoldable pub encode_encoded :
      Option AudioOutputSpec → Option GroupedFile → List GroupedFile → StemDecision → StemDecision
  encode_encoded none src below d = d
  encode_encoded (some spec) none below d = record d { panicked = true }
  encode_encoded (some spec) (some src) below d =
      let replaced = replaced_path src spec.codec below in
      if elem replaced occupied && not (stem_owns g replaced)
      then record d { block_code = some target_path_conflict }
      else delete_rest kept replaced g.files
          (add_encode src.path_posix replaced materialize_encoded d)

abbrev pub new_stem : StemGroup → StemDecision
new_stem g = record {
  stem = g.stem;
  decisions = [];
  ops = [];
  targets = [];
  block_code = none;
  panicked = false;
}

abbrev pub paths_of : List GroupedFile → List Bytes
paths_of files = map (λ f. f.path_posix) files

-- The part of `lenientStem` from "The stem can reach its declared shape" on.
unfoldable pub reach_shape :
    StemGroup → DesiredProfile → List Bytes → Option GroupedFile → StemDecision
reach_shape g profile occupied src =
    let kept = paths_of (lossless_kept g profile) ++ paths_of (encoded_kept g profile) in
    let d =
      keep_files (λ _. keep_encoded_satisfied) (encoded_kept g profile)
        (keep_files (λ _. keep_lossless_target) (lossless_kept g profile) (new_stem g)) in
    let d' = if needs_lossless g profile then encode_lossless profile.lossless src d else d in
    if needs_encoded g profile
    then encode_encoded g occupied kept profile.encoded src (encoded_below g profile) d'
    else delete_rest kept [] g.files d'

unfoldable pub lenient_stem : StemGroup → DesiredProfile → List Bytes → StemDecision
unfolding reach_shape
lenient_stem g profile occupied =
    let needs = needs_lossless g profile || needs_encoded g profile in
    let src = single (sources g profile) in
    if needs && ltb 1 (length (sources g profile))
    then add_keep g.stem source_ambiguous
        (record (new_stem g) { block_code = some source_ambiguous })
    else if needs && not (is_some src)
    then keep_files (λ f. unmet_reason f profile) g.files (new_stem g)
    else reach_shape g profile occupied src
