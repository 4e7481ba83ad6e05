-- ===== src/Witnesses/Execution.antt =====
-- A file system in memory, and the execution of components on it.
use dorganizer.Prelude.{
  true, false, ◌&&◌, not, [], ◌∷◌, map, Option, none, some, Bytes, bytes_beq, codes, any_b,
  if◌then◌else◌, ◌≡◌, refl, Bool-cases, Option-cases, inl, inr,
}
use dorganizer.Prelude.Int.{pos}
use dorganizer.Prelude.Member.{elem, nodup_b}
use dorganizer.GoPath
use dorganizer.Reconcile.Types.{Policy, AudioOutputSpec, mp3, matched, bitrate_kind}
use dorganizer.Reconcile.Outcome.{ComponentOutcome, status_ok, op_encode, materialize_outputs}
use dorganizer.Reconcile.Effects.{is_encode}
use dorganizer.Reconcile.Grouping.{Component, parse_files, component_id_of}
use dorganizer.Reconcile.Plan.{plan_component}
use dorganizer.Execute.Toolkit.{FileError, Lstat, missing, found, Toolkit, DiskLaws}
use dorganizer.Execute.Plan.{
  materialize, PlannedEncode, PlannedComponent, Result, ok, refuse, unsupported_op, Specs,
  posix_form, encode_specs_by_extension, collect_operations, validate_conflicts,
  validate_dependencies,
}
use dorganizer.Execute.Plan.Sound.{
  passes, targets, removal_path, depends_outside, validate_conflicts_lem, validate_dependencies_lem,
}
use dorganizer.Execute.Plan.Collected.{plan_component-Dependable}
use dorganizer.Execute.Commit.{commit_output, replaced_aside_path, temp_output_path}
use dorganizer.Execute.Commit.Keeps.{Keeps, commit_output-Keeps}
use dorganizer.Pathnorm.{is_within_root, is_resolved_within_root}
use dorganizer.Execute.Facts.{precheck_component_request, soft, ComponentRunRequest}
use dorganizer.Execute.Run.{commit_component, run_component}
use dorganizer.Execute.Run.Untouched.{run_component_untouched}
use dorganizer.Execute.Run.Accounts.{Accounted, commit_component-Accounted}
use dorganizer.Witnesses.Samples.{ascii, album, entry, entry_paths, flac_and_mp3, mp3_only, program}
use dorganizer.Witnesses.Planning.{policy}

abbrev Ram : Type 0
Ram = Bytes → Option Bytes

abbrev absent : FileError
absent = record { not_exist = true; permission = false; locked = false }

abbrev put : Bytes → Option Bytes → Ram → Ram
put a x w p = if bytes_beq p a then x else w p

abbrev moved : Bytes → Bytes → Option Bytes → Ram → Option FileError × Ram
moved a b none w = (some absent, w)
moved a b (some x) w = (none, put b (some x) (put a none w))

abbrev dropped_at : Bytes → Option Bytes → Ram → Option FileError × Ram
dropped_at a none w = (some absent, w)
dropped_at a (some x) w = (none, put a none w)

abbrev seen : Option Bytes → Lstat
seen none = missing
seen (some x) = found (record {
  is_dir = false;
  is_regular = true;
  is_symlink = false;
  size = pos 1000;
  mtime = pos 7000000000;
})

abbrev folder : Lstat
folder =
    found (record {
      is_dir = true;
      is_regular = false;
      is_symlink = false;
      size = pos 0;
      mtime = pos 0;
    })

-- Every encode fails and leaves half a file, every output is an MP3, and nothing is ever canceled.
abbrev ram : Toolkit Ram
ram = record {
  encode = λ a b spec w. (false, put b (some (codes "half")) w);
  rename = λ a b w. moved a b (w a) w;
  remove = λ a w. dropped_at a (w a) w;
  probe = λ a w. (some (codes "mp3"), w);
  canceled = λ w. (false, w);
  mkdir_all = λ a w. (true, w);
  uuid8 = λ w. (codes "0123abcd", w);
  lstat = λ a w. if bytes_beq a (codes "/m") then folder else seen (w a);
  check_tools = λ w. true;
  rel = λ a b. some (codes "01.mp3");
  eval_symlinks = λ a w. some a;
  to_lower = ascii.to_lower;
  rune_lens = λ s. map (λ _. 1) s;
}

ram-DiskLaws : DiskLaws ram (λ w. w)
ram-DiskLaws = record {
  rename_done =
      λ a b w ne h p. elim (Option-cases (w a)) [ inl e ↦ cc (rw e at h) | inr (x, e) ↦ rw e refl ];
  rename_failed =
      λ a b w x h p. elim (Option-cases (w a)) [ inl e ↦ rw e refl | inr (y, e) ↦ cc (rw e at h) ];
  remove_done =
      λ a w h p. elim (Option-cases (w a)) [ inl e ↦ cc (rw e at h) | inr (x, e) ↦ rw e refl ];
  remove_failed =
      λ a w x h p. elim (Option-cases (w a)) [ inl e ↦ rw e refl | inr (y, e) ↦ cc (rw e at h) ];
  encode_local = λ a b spec w p h. rw h refl;
  probe_reads = λ a w p. refl;
  canceled_reads = λ w p. refl;
  mkdir_keeps = λ a w p. refl;
  uuid_reads = λ w p. refl;
  lstat_missing = λ a w h. elim (Bool-cases (bytes_beq a (codes "/m"))) [
    | inl f ↦ let z : folder ≡ missing = rw f at h in cc
    | inr f ↦ elim (Option-cases (w a)) [
      | inl e ↦ e
      | inr (x, e) ↦ let z : seen (some x) ≡ missing = rw (f, e) at h in cc
    ]
  ];
}

abbrev mp3_320 : AudioOutputSpec
mp3_320 = record { codec = mp3; quality = some (record { kind = bitrate_kind; bitrate = pos 320 }) }

-- The replacement of `/m/01.mp3`, staged.
abbrev replacement : PlannedEncode
replacement = record {
  source = codes "/m/01.wav";
  target = codes "/m/01.mp3";
  spec = mp3_320;
  replace = true;
  temp = codes "/m/01.mp3.tmp.0123abcd";
}

abbrev staged : Ram
staged =
    put replacement.temp (some (codes "new"))
      (put replacement.target (some (codes "old")) (λ _. none))

commit_output-Keeps_example :
    Keeps ram
      (λ w. w)
      ram-DiskLaws
      (codes "/m/01.mp3")
      true
      (codes "old")
      (codes "new")
      (commit_output ram (codes "/m") replacement true staged).0
      (commit_output ram (codes "/m") replacement true staged).1
unfolding replaced_aside_path program GoPath.join GoPath.dir GoPath.base
commit_output-Keeps_example =
    commit_output-Keeps ram (λ w. w) ram-DiskLaws (codes "/m") replacement true staged (codes "old")
      (codes "new") refl refl refl refl refl

-- The replacement and the removal of its source.
abbrev plan : PlannedComponent
plan = record {
  abs_root = codes "/m";
  real_root = codes "/m";
  recovery_root = codes "/m";
  encodes = replacement ∷ [];
  removes = record { source = codes "/m/01.wav"; depends_on = codes "/m/01.mp3" ∷ [] } ∷ [];
}

commit_component-Accounted_example : Accounted plan (commit_component ram plan true staged).0
commit_component-Accounted_example = commit_component-Accounted ram plan true staged

validate_conflicts_lem_example : passes (validate_conflicts plan) ≡ (
    nodup_b (targets plan)
    && (not (any_b (λ enc. elem (posix_form enc.source) (targets plan)) plan.encodes)
        && (not (any_b (λ r. elem (removal_path r) (targets plan)) plan.removes)
            && nodup_b (map removal_path plan.removes))))
validate_conflicts_lem_example = validate_conflicts_lem plan

validate_dependencies_lem_example :
    passes (validate_dependencies plan) ≡ not (any_b (depends_outside (targets plan)) plan.removes)
validate_dependencies_lem_example = validate_dependencies_lem plan

abbrev specs_of : Result Specs → Specs
specs_of (ok specs) = specs
specs_of (refuse _) = []

abbrev nothing_planned : PlannedComponent
nothing_planned = record plan { encodes = []; removes = [] }

abbrev collected_of : Result PlannedComponent → PlannedComponent
collected_of (ok p) = p
collected_of (refuse _) = nothing_planned

abbrev album_plan : ComponentOutcome
album_plan = plan_component ascii policy (codes "/m") entry_paths matched album

-- What the executor collects from the plan of the sample.
abbrev collected : PlannedComponent
collected = collected_of (
    collect_operations ascii.to_lower album_plan.component_id album_plan.operations
      (specs_of (encode_specs_by_extension flac_and_mp3)) nothing_planned)

plan_component-Dependable_example : passes (validate_dependencies collected) ≡ true
unfolding program plan_component collect_operations encode_specs_by_extension component_id_of
plan_component-Dependable_example =
    plan_component-Dependable ascii policy (codes "/m") entry_paths matched album ascii.to_lower
      album_plan.component_id (specs_of (encode_specs_by_extension flac_and_mp3)) nothing_planned
      collected refl refl

-- A track as WAV and Opus, for a profile of MP3: the planner removes both files after the encode,
-- and the executor takes the removal of the Opus file for one of no audio file.
abbrev opus_album : Component
opus_album = record {
  files = parse_files ascii (entry (codes "/m/01.wav") 0 ∷ entry (codes "/m/01.opus") 0 ∷ []);
}

abbrev opus_policy : Policy
opus_policy = record policy { matched_profile = mp3_only }

abbrev opus_plan : ComponentOutcome
opus_plan =
    plan_component ascii opus_policy (codes "/m") (codes "/m/01.wav" ∷ codes "/m/01.opus" ∷ [])
      matched opus_album

opus_refused :
    (opus_plan.status ≡ status_ok)
    × (any_b
          (λ o. not (is_encode o.kind) && bytes_beq o.source_path (codes "/m/01.opus"))
          opus_plan.operations
        ≡ true)
    × (collect_operations ascii.to_lower opus_plan.component_id opus_plan.operations
          (specs_of (encode_specs_by_extension mp3_only))
          nothing_planned
        ≡ refuse unsupported_op)
unfolding program plan_component collect_operations encode_specs_by_extension component_id_of
opus_refused = (refl, refl, refl)

-- One encode of `/m/01.wav`, requested on its files; the encoder fails.
abbrev single : ComponentOutcome
single = record {
  component_id = codes "id";
  partition = matched;
  status = status_ok;
  reason_code = none;
  lanes = [];
  variants = [];
  operations =
      record {
        kind = op_encode;
        phase = materialize_outputs;
        component_id = codes "id";
        variant_stem = codes "01";
        source_path = codes "/m/01.wav";
        target_path = codes "/m/01.mp3";
        depends_on = [];
      }
      ∷ [];
  projected_inventory = codes "/m/01.mp3" ∷ [];
  files = record { path = codes "/m/01.wav"; size = pos 1000; mtime = pos 7 } ∷ [];
}

abbrev request : ComponentRunRequest
request = record {
  root = codes "/m";
  component = single;
  specs = mp3_only;
  delete_mode = soft;
  recovery_root = [];
}

abbrev library : Ram
library = put (codes "/m/01.wav") (some (codes "wav")) (λ _. none)

stops_at_materialize : (run_component ram request library).0.0.stage ≡ materialize
unfolding program run_component precheck_component_request encode_specs_by_extension
    collect_operations validate_conflicts validate_dependencies is_within_root
    is_resolved_within_root temp_output_path GoPath.split_on
stops_at_materialize = refl

run_component_untouched_example :
    (run_component ram request library).1 (codes "/m/01.wav") ≡ library (codes "/m/01.wav")
unfolding program temp_output_path any_b
run_component_untouched_example =
    run_component_untouched ram (λ w. w) ram-DiskLaws (codes "/m/01.wav") request library refl
      (λ v. refl) (rw stops_at_materialize refl)
