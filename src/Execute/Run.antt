-- ===== src/Execute/Run.antt =====
-- component_prepare.go and component_run.go: the stages of a run, and what it reports.
pub mod Accounts
pub mod Untouched
use dorganizer.Prelude.{
  ℕ, zero, suc, ◌+◌, Bool, true, false, ◌&&◌, ◌||◌, not, List, [], ◌∷◌, ◌++◌, Option, none, some,
  Bytes, codes, if◌then◌else◌, is_nil, length, map, drop, has_prefix, ◌==◌, bytes_eq,
}
use dorganizer.Reconcile.Types.{Codec, wav, flac, mp3, aac, opus, other_codec, AudioOutputSpec}
use dorganizer.Execute.Toolkit.{FileError, Toolkit}
use dorganizer.Execute.Plan.{
  Stage, no_stage, materialize, validate, commit, remove, Code, encode_failed, validate_failed,
  commit_failed, delete_failed, canceled_code, ComponentError, refusal, posix_form, PlannedEncode,
  PlannedRemove, PlannedComponent, Result, ok, refuse,
}
use dorganizer.Execute.Facts.{DeleteMode, soft, ComponentRunRequest, precheck_component_request}
use dorganizer.Execute.Delete.{remove_obsolete}
use dorganizer.Execute.Commit.{Landing, temp_output_path, commit_output}

pub data RunStatus : Type 0 where
  succeeded failed canceled : RunStatus

pub record RunResult : Type 0 where
  pub status : RunStatus
  pub stage : Stage
  pub committed : List Bytes
  pub removed : List Bytes
  pub remaining : List Bytes
  pub recovery : List Bytes

abbrev pub Cause : Type 0
Cause = Option ComponentError

abbrev pub nothing_done : RunStatus → Stage → RunResult
nothing_done status stage = record {
  status = status;
  stage = stage;
  committed = [];
  removed = [];
  remaining = [];
  recovery = [];
}

abbrev is_canceled_code : Code → Bool
is_canceled_code canceled_code = true
is_canceled_code _ = false

-- `stoppedResult`, for a cause that is a `ComponentError` or absent.
unfoldable pub stopped_result : Cause → RunResult
stopped_result none = nothing_done canceled no_stage
stopped_result (some e) =
    nothing_done (if is_canceled_code e.code then canceled else failed) e.stage

unfoldable pub remaining_ops : PlannedComponent → ℕ → ℕ → List Bytes
remaining_ops plan committed removed =
    map (λ enc. posix_form enc.target) (drop committed plan.encodes)
    ++ map (λ r. posix_form r.source) (drop removed plan.removes)

-- The codec name of a stream belongs to the class of the target.
abbrev pub codec_matches_spec : Bytes → Codec → Bool
codec_matches_spec name wav = has_prefix name (codes "pcm_")
codec_matches_spec name flac = name == codes "flac"
codec_matches_spec name mp3 = name == codes "mp3"
codec_matches_spec name aac = name == codes "aac"
codec_matches_spec name opus = name == codes "opus"
codec_matches_spec name (other_codec _) = false

abbrev pub error_at : Stage → Code → ComponentError
error_at stage code = record { stage = stage; code = code }

abbrev pub is_soft_mode : DeleteMode → Bool
is_soft_mode soft = true
is_soft_mode _ = false

module _ {W : Type 0} (tk : Toolkit W) where
  abbrev left_over : Bytes → Option FileError → List Bytes
  left_over temp none = []
  left_over temp (some e) = if e.not_exist then [] else posix_form temp ∷ []

  -- Temporary outputs that could not be removed.
  unfoldable pub cleanup_temps : List PlannedEncode → W → List Bytes × W
  cleanup_temps [] w = ([], w)
  cleanup_temps (enc ∷ encs) w =
      let (r, w') = tk.remove enc.temp w in
      let (more, v) = cleanup_temps encs w' in
      let skipped = cleanup_temps encs w in
      if is_nil enc.temp then skipped else (left_over enc.temp r ++ more, v)

  unfoldable pub stop_run :
      PlannedComponent → RunResult → RunStatus → ComponentError → W → (RunResult × Cause) × W
  unfolding remaining_ops cleanup_temps
  stop_run plan result status cause w =
      let (left, w') = cleanup_temps plan.encodes w in
      (
        (
          record result {
            status = status;
            stage = cause.stage;
            remaining = remaining_ops plan (length result.committed) (length result.removed);
            recovery = result.recovery ++ left;
          },
          some cause,
        ),
        w',
      )

  abbrev stop_canceled : PlannedComponent → RunResult → Stage → W → (RunResult × Cause) × W
  stop_canceled plan result stage w = stop_run plan result canceled (error_at stage canceled_code) w

  abbrev stream_matches : Option Bytes → AudioOutputSpec → Bool
  stream_matches none spec = false
  stream_matches (some name) spec = codec_matches_spec name spec.codec

  -- `validateStagedOutput`
  unfoldable pub validate_staged_output : Bytes → AudioOutputSpec → W → Bool × W
  validate_staged_output temp spec w =
      let (stream, w') = tk.probe temp w in (stream_matches stream spec, w')

  module _ (plan : PlannedComponent) where
    -- The loop of the validate stage; `next` is what follows it.
    unfoldable pub validate_outputs :
        List PlannedEncode
        → RunResult
        → (RunResult → W → (RunResult × Cause) × W)
        → W
        → (RunResult × Cause) × W
    unfolding validate_staged_output
    validate_outputs [] result next w = next result w
    validate_outputs (enc ∷ encs) result next w =
        let (stopped, w1) = tk.canceled w in
        let (valid, w2) = validate_staged_output enc.temp enc.spec w1 in
        let (late, w3) = tk.canceled w2 in
        let rest = validate_outputs encs result next w2 in
        if stopped
        then stop_canceled plan result validate w1
        else if valid
        then rest
        else if late
        then stop_canceled plan result validate w3
        else stop_run plan result failed (error_at validate validate_failed) w3

    abbrev pub note_landing : PlannedEncode → Landing → RunResult → RunResult
    note_landing enc l result = record result {
      recovery = result.recovery ++ l.recovery;
      committed =
          if l.landed then result.committed ++ posix_form enc.target ∷ [] else result.committed;
    }

    unfoldable pub commit_outputs :
        Bool
        → List PlannedEncode
        → RunResult
        → (RunResult → W → (RunResult × Cause) × W)
        → W
        → (RunResult × Cause) × W
    commit_outputs is_soft [] result next w = next result w
    commit_outputs is_soft (enc ∷ encs) result next w =
        let (stopped, w1) = tk.canceled w in
        let (l, w2) = commit_output tk plan.recovery_root enc is_soft w1 in
        let noted = note_landing enc l result in
        let rest = commit_outputs is_soft encs noted next w2 in
        if stopped
        then stop_canceled plan result commit w1
        else if l.failed
        then stop_run plan noted failed (error_at commit commit_failed) w2
        else rest

    abbrev pub note_removal : PlannedRemove → Bytes → RunResult → RunResult
    note_removal r recovery_path result = record result {
      removed = result.removed ++ posix_form r.source ∷ [];
      recovery =
          if is_nil recovery_path then result.recovery else result.recovery ++ recovery_path ∷ [];
    }

    unfoldable pub remove_files :
        Bool → List PlannedRemove → RunResult → W → (RunResult × Cause) × W
    remove_files is_soft [] result w = ((result, none), w)
    remove_files is_soft (r ∷ rs) result w =
        let (stopped, w1) = tk.canceled w in
        let (gone, w2) = remove_obsolete tk plan.recovery_root r.source is_soft w1 in
        let rest = λ (p : Bytes). remove_files is_soft rs (note_removal r p result) w2 in
        if stopped then stop_canceled plan result remove w1 else elim gone [
          | none ↦ stop_run plan result failed (error_at remove delete_failed) w2
          | some p ↦ rest p
        ]

    -- `Commit`: validate everything, commit everything, then remove.
    unfoldable pub commit_component : Bool → W → (RunResult × Cause) × W
    unfolding validate_outputs commit_outputs remove_files
    commit_component is_soft w =
        validate_outputs plan.encodes (nothing_done succeeded no_stage)
          (λ result. commit_outputs is_soft plan.encodes result (remove_files is_soft plan.removes))
          w

  unfoldable pub discard : PlannedComponent → Cause → W → RunResult × W
  unfolding stopped_result cleanup_temps remaining_ops
  discard plan cause w =
      let (left, w') = cleanup_temps plan.encodes w in
      (record (stopped_result cause) { remaining = remaining_ops plan 0 0; recovery = left }, w')

  -- `EncodeOne` on one slot: the slot with its staging path, and the error.
  unfoldable pub encode_one : PlannedEncode → W → (PlannedEncode × Cause) × W
  encode_one enc w =
      let (stopped, w1) = tk.canceled w in
      let (uuid, w2) = tk.uuid8 w1 in
      let temp = temp_output_path enc.target uuid in
      let staged = record enc { temp = temp } in
      let (done, w3) = tk.encode enc.source temp enc.spec w2 in
      let (late, w4) = tk.canceled w3 in
      if stopped
      then ((enc, some (error_at materialize canceled_code)), w1)
      else if done
      then ((staged, none), w3)
      else (
        (staged, some (error_at materialize (if late then canceled_code else encode_failed))),
        w4,
      )

  -- The loop of `runComponent` over the slots: it ends at the first error.
  unfoldable pub encode_all : List PlannedEncode → W → (List PlannedEncode × Cause) × W
  unfolding encode_one
  encode_all [] w = (([], none), w)
  encode_all (enc ∷ encs) w =
      let ((enc', e), w1) = encode_one enc w in
      let ((encs', e'), w2) = encode_all encs w1 in
      elim e [ some cause ↦ ((enc' ∷ encs, some cause), w1) | none ↦ ((enc' ∷ encs', e'), w2) ]

  -- After the encodes: `Discard` at their error, else `Commit`.
  abbrev pub finish_run : PlannedComponent → Bool → Cause → W → (RunResult × Cause) × W
  finish_run staged is_soft none w = commit_component staged is_soft w
  finish_run staged is_soft (some e) w =
      let (dropped, w') = discard staged (some e) w in ((dropped, some e), w')

  abbrev pub run_checked : Bool → Result PlannedComponent → W → (RunResult × Cause) × W
  run_checked is_soft (refuse code) w =
      ((stopped_result (some (refusal code)), some (refusal code)), w)
  run_checked is_soft (ok plan) w =
      let ((encodes, cause), w') = encode_all plan.encodes w in
      finish_run (record plan { encodes = encodes }) is_soft cause w'

  unfoldable pub run_component : ComponentRunRequest → W → (RunResult × Cause) × W
  unfolding commit_component discard encode_all
  run_component req w =
      let (stopped, w') = tk.canceled w in
      let checked = precheck_component_request tk w' req in
      if stopped
      then ((nothing_done canceled no_stage, some (error_at no_stage canceled_code)), w')
      else run_checked (is_soft_mode req.delete_mode) checked w'
