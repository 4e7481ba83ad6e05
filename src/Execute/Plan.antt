-- ===== src/Execute/Plan.antt =====
-- component_precheck.go: what a frozen component is checked for before anything is written, up to
-- the disk. An error is its code; its message and path are left out.
pub mod Sound
pub mod Collected
use dorganizer.Prelude.{
  Bool, true, false, ◌&&◌, ◌||◌, not, List, [], ◌∷◌, ◌++◌, Option, none, some, Bytes, bytes_beq,
  codes, if◌then◌else◌, is_nil, is_some, any_b, map, ◌==◌, bytes_eq,
}
use dorganizer.Prelude.Int.{pos, leb_ℤ}
use dorganizer.Prelude.Member.{elem}
use dorganizer.GoPath
use dorganizer.Reconcile.Types.{
  Codec, ext_for_codec, is_lossless_codec, is_bitrate, Quality, AudioOutputSpec, DesiredProfile,
}
use dorganizer.Reconcile.Outcome.{
  Status, status_ok, status_blocked, OpKind, op_encode, op_remove_obsolete, Phase,
  materialize_outputs, remove_obsolete_audio, Operation, ComponentOutcome,
}

pub data Stage : Type 0 where
  no_stage precheck materialize validate commit remove : Stage

pub data Code : Type 0 where
  invalid_request blocked unsupported_op invalid_dependency target_conflict file_changed : Code
  path_unsafe tools_unavailable encode_failed validate_failed commit_failed delete_failed : Code
  canceled_code : Code

pub record ComponentError : Type 0 where
  pub stage : Stage
  pub code : Code

abbrev pub refusal : Code → ComponentError
refusal c = record { stage = precheck; code = c }

-- `nativePath` and `posixForm`
abbrev pub native_path : Bytes → Bytes
native_path = GoPath.clean

abbrev pub posix_form : Bytes → Bytes
posix_form = GoPath.clean

pub record PlannedEncode : Type 0 where
  pub source : Bytes
  pub target : Bytes
  pub spec : AudioOutputSpec
  pub replace : Bool
  pub temp : Bytes  -- empty until its materialization starts

pub record PlannedRemove : Type 0 where
  pub source : Bytes
  pub depends_on : List Bytes

pub record PlannedComponent : Type 0 where
  pub abs_root : Bytes
  pub real_root : Bytes
  pub recovery_root : Bytes
  pub encodes : List PlannedEncode
  pub removes : List PlannedRemove

pub data Result (A : Type 0) : Type 0 where
  ok : A → Result A
  refuse : Code → Result A

infixl 5 ◌>>=◌
abbrev pub ◌>>=◌ : {A B : Type 0} → Result A → (A → Result B) → Result B
ok a >>= f = f a
refuse c >>= f = refuse c

abbrev pub guard : Bool → Code → Result (Unit {0})
guard true c = ok tt
guard false c = refuse c

infixl 5 ◌>>◌
abbrev pub ◌>>◌ : {B : Type 0} → Result (Unit {0}) → Result B → Result B
m >> k = m >>= λ _. k

abbrev audio_extensions : List Bytes
audio_extensions = map (λ e. codes e) (".wav" ∷ ".flac" ∷ ".mp3" ∷ ".m4a" ∷ ".aac" ∷ [])

abbrev is_status_ok : Status → Bool
is_status_ok status_ok = true
is_status_ok status_blocked = false

-- `validateComponent`
unfoldable pub validate_component : ComponentOutcome → Result (Unit {0})
validate_component c = do
  guard (not (is_nil c.component_id)) invalid_request
  guard (is_status_ok c.status) blocked

abbrev pub Specs : Type 0
Specs = List (Bytes × AudioOutputSpec)

unfoldable pub spec_at : Bytes → Specs → Option AudioOutputSpec
spec_at e [] = none
spec_at e ((k, s) ∷ rest) = let later = spec_at e rest in if k == e then some s else later

abbrev has_bitrate : Option Quality → Bool
has_bitrate none = false
has_bitrate (some q) = is_bitrate q.kind && not (leb_ℤ q.bitrate (pos 0))

-- One round of the loop of `encodeSpecsByExtension`.
unfoldable pub add_spec : Option AudioOutputSpec → Specs → Result Specs
unfolding spec_at
add_spec none specs = ok specs
add_spec (some spec) specs = do
  let e = ext_for_codec spec.codec
  guard (not (is_nil e)) invalid_request
  guard (not (is_some (spec_at e specs))) invalid_request
  guard (is_lossless_codec spec.codec || has_bitrate spec.quality) invalid_request
  ok ((e, spec) ∷ specs)

unfoldable pub encode_specs_by_extension : DesiredProfile → Result Specs
unfolding add_spec
encode_specs_by_extension profile = do
  specs ← add_spec profile.lossless []
  add_spec profile.encoded specs

abbrev pub is_phase : Phase → Phase → Bool
is_phase materialize_outputs materialize_outputs = true
is_phase remove_obsolete_audio remove_obsolete_audio = true
is_phase _ _ = false

abbrev pub known_spec : Option AudioOutputSpec → Result AudioOutputSpec
known_spec none = refuse unsupported_op
known_spec (some spec) = ok spec

-- The encode that an operation becomes, with the specification of its extension.
abbrev pub planned_encode : Operation → AudioOutputSpec → PlannedEncode
planned_encode op spec = record {
  source = native_path op.source_path;
  target = native_path op.target_path;
  spec = spec;
  replace = false;
  temp = [];
}

module _ (to_lower : Bytes → Bytes) where
  unfoldable pub collect_encode : Operation → Specs → PlannedComponent → Result PlannedComponent
  unfolding spec_at
  collect_encode op specs p = do
    guard (is_phase op.phase materialize_outputs) unsupported_op
    guard (not (is_nil op.source_path || is_nil op.target_path)) unsupported_op
    let target = native_path op.target_path
    let source = native_path op.source_path
    spec ← known_spec (spec_at (to_lower (GoPath.ext target)) specs)
    guard (not (source == target)) target_conflict
    ok (record p {
      encodes =
          p.encodes
          ++ record { source = source; target = target; spec = spec; replace = false; temp = [] }
            ∷ [];
    })

  unfoldable pub collect_remove : Operation → PlannedComponent → Result PlannedComponent
  collect_remove op p = do
    guard (is_phase op.phase remove_obsolete_audio) unsupported_op
    guard (not (is_nil op.source_path) && is_nil op.target_path) unsupported_op
    let source = native_path op.source_path
    guard (elem (to_lower (GoPath.ext source)) audio_extensions) unsupported_op
    ok (record p {
      removes =
          p.removes
          ++ record {
            source = source;
            depends_on = map (λ dep. posix_form (native_path dep)) op.depends_on;
          }
            ∷ [];
    })

  unfoldable pub collect_operation :
      OpKind → Operation → Specs → PlannedComponent → Result PlannedComponent
  unfolding collect_encode collect_remove
  collect_operation op_encode op specs p = collect_encode op specs p
  collect_operation op_remove_obsolete op specs p = collect_remove op p

  -- The loop of `collectOperations`.
  unfoldable pub collect_operations :
      Bytes → List Operation → Specs → PlannedComponent → Result PlannedComponent
  unfolding collect_operation
  collect_operations id [] specs p = ok p
  collect_operations id (op ∷ ops) specs p = do
    guard (op.component_id == id) unsupported_op
    p' ← collect_operation op.kind op specs p
    collect_operations id ops specs p'

abbrev pub target_of : PlannedEncode → Bytes
target_of enc = posix_form enc.target

-- The three loops of `validateConflicts`, each with the set that it fills or asks.
unfoldable pub distinct_targets : List Bytes → List PlannedEncode → Result (List Bytes)
distinct_targets seen [] = ok seen
distinct_targets seen (enc ∷ encs) = do
  guard (not (elem (target_of enc) seen)) target_conflict
  distinct_targets (target_of enc ∷ seen) encs

unfoldable pub sources_free : List Bytes → List PlannedEncode → Result (Unit {0})
sources_free targets [] = ok tt
sources_free targets (enc ∷ encs) = do
  guard (not (elem (posix_form enc.source) targets)) target_conflict
  sources_free targets encs

unfoldable pub distinct_removals : List Bytes → List Bytes → List PlannedRemove → Result (Unit {0})
distinct_removals targets removed [] = ok tt
distinct_removals targets removed (r ∷ rs) = do
  guard (not (elem (posix_form r.source) targets)) target_conflict
  guard (not (elem (posix_form r.source) removed)) target_conflict
  distinct_removals targets (posix_form r.source ∷ removed) rs

unfoldable pub validate_conflicts : PlannedComponent → Result (Unit {0})
unfolding distinct_targets sources_free distinct_removals
validate_conflicts p = do
  targets ← distinct_targets [] p.encodes
  sources_free targets p.encodes
  distinct_removals targets [] p.removes

unfoldable pub depends_within : List Bytes → List Bytes → Result (Unit {0})
depends_within targets [] = ok tt
depends_within targets (dep ∷ deps) = do
  guard (elem dep targets) invalid_dependency
  depends_within targets deps

unfoldable pub removals_depend : List Bytes → List PlannedRemove → Result (Unit {0})
unfolding depends_within
removals_depend targets [] = ok tt
removals_depend targets (r ∷ rs) = do
  depends_within targets r.depends_on
  removals_depend targets rs

unfoldable pub validate_dependencies : PlannedComponent → Result (Unit {0})
unfolding removals_depend
validate_dependencies p = removals_depend (map target_of p.encodes) p.removes
