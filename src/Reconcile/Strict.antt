-- ===== src/Reconcile/Strict.antt =====
-- conversion/reconcile/reconcile.go: the strict decision table, first the plan of each stem.
pub mod Lanes
pub mod Actions
pub mod Component
use dorganizer.Prelude.{
  ℕ, Bool, true, false, ◌&&◌, ◌||◌, not, List, [], ◌∷◌, ◌++◌, Option, none, some, Bytes, bytes_beq,
  if◌then◌else◌, is_nil, is_some, ltb, length, filter_b, map,
}
use dorganizer.Reconcile.Types.{
  Codec, wav, flac, codec_beq, ext_for_codec, AudioOutputSpec, DesiredProfile, GroupedFile,
  StemGroup,
}
use dorganizer.Reconcile.Satisfied.{satisfied_encoded}
use dorganizer.Reconcile.Outcome.{Reason, source_missing, lossless_unfulfillable, same_stem_path}

pub record GroupPlan : Type 0 where
  pub stem : Bytes
  pub files : List GroupedFile
  pub source : Bytes  -- empty where no single source qualifies
  pub source_ambiguous : Bool
  pub lossless_keep : List GroupedFile
  pub lossless_encode_src : Option GroupedFile
  pub lossless_obsolete : List GroupedFile
  pub lossless_blocked : Option Reason
  pub encoded_target : List GroupedFile
  pub encoded_keep : List GroupedFile
  pub encoded_obsolete : List GroupedFile
  pub encoded_needs_rebuild : Bool
  pub encoded_target_path : Bytes  -- empty where nothing is encoded

abbrev pub codec_is : Codec → GroupedFile → Bool
codec_is codec f = codec_beq f.codec codec

abbrev or_else : List GroupedFile → List GroupedFile → List GroupedFile
or_else candidates others = if is_nil candidates then others else candidates

-- The desired lossless codec if present, else WAV, then FLAC.
unfoldable pub source_candidates : DesiredProfile → List GroupedFile → List GroupedFile
source_candidates profile lossless_files =
    let desired : List GroupedFile = elim (profile.lossless) [
      | none ↦ []
      | some spec ↦ filter_b (codec_is spec.codec) lossless_files
    ] in
    or_else (or_else desired (filter_b (codec_is wav) lossless_files))
      (filter_b (codec_is flac) lossless_files)

abbrev head_path : List GroupedFile → Bytes
head_path (f ∷ []) = f.path_posix
head_path _ = []

abbrev pub first_file : List GroupedFile → Option GroupedFile
first_file [] = none
first_file (f ∷ _) = some f

unfoldable pub start_plan : StemGroup → List GroupedFile → GroupPlan
start_plan g candidates = record {
  stem = g.stem;
  files = g.files;
  source = head_path candidates;
  source_ambiguous = ltb 1 (length candidates);
  lossless_keep = [];
  lossless_encode_src = none;
  lossless_obsolete = [];
  lossless_blocked = none;
  encoded_target = [];
  encoded_keep = [];
  encoded_obsolete = [];
  encoded_needs_rebuild = false;
  encoded_target_path = [];
}

unfoldable pub lossless_lane :
    Option AudioOutputSpec → List GroupedFile → List GroupedFile → GroupPlan → GroupPlan
lossless_lane none lossless_files candidates p = record p { lossless_obsolete = lossless_files }
lossless_lane (some spec) lossless_files candidates p =
    let target = filter_b (codec_is spec.codec) lossless_files in
    if not (is_nil target)
    then record p {
      lossless_keep = target;
      lossless_obsolete = filter_b (λ f. not (codec_is spec.codec f)) lossless_files;
    }
    else if not (is_nil lossless_files)
    then if is_nil candidates
      then record p { lossless_blocked = some source_missing }
      else record p {
        lossless_encode_src = first_file candidates;
        lossless_obsolete = lossless_files;
      }
    else record p { lossless_blocked = some lossless_unfulfillable }

unfoldable pub encoded_lane : Option AudioOutputSpec → List GroupedFile → GroupPlan → GroupPlan
encoded_lane none encoded_files p = record p { encoded_obsolete = encoded_files }
encoded_lane (some spec) encoded_files p =
    let target = filter_b (codec_is spec.codec) encoded_files in
    let others = filter_b (λ f. not (codec_is spec.codec f)) encoded_files in
    let below = filter_b (λ f. not (satisfied_encoded f spec)) target in
    if is_nil target || not (is_nil below)
    then record p {
      encoded_target = target;
      encoded_needs_rebuild = true;
      encoded_keep = [];
      encoded_obsolete = others ++ below;
    }
    else record p {
      encoded_target = target;
      encoded_keep = filter_b (λ f. satisfied_encoded f spec) target;
      encoded_obsolete = others;
    }

-- The body of the loop over the stem groups.
unfoldable pub plan_group : DesiredProfile → StemGroup → GroupPlan
unfolding source_candidates start_plan lossless_lane encoded_lane
plan_group profile g =
    let lossless_files = filter_b (λ f. f.lossless) g.files in
    let encoded_files = filter_b (λ f. not f.lossless) g.files in
    let candidates = source_candidates profile lossless_files in
    encoded_lane profile.encoded encoded_files
      (lossless_lane profile.lossless lossless_files candidates (start_plan g candidates))
