-- ===== src/Witnesses/Twins.antt =====
-- The strict table on two WAV files of one stem, in two directories, for FLAC alone.
use dorganizer.Prelude.{true, [], ◌∷◌, map, none, codes, ◌≡◌, refl}
use dorganizer.Reconcile.Types.{DesiredProfile, matched}
use dorganizer.Reconcile.Outcome.{status_ok, ComponentOutcome}
use dorganizer.Reconcile.Effects.{made, dropped}
use dorganizer.Reconcile.Grouping.{Component, parse_files}
use dorganizer.Reconcile.Strict
use dorganizer.Reconcile.Strict.Lanes
use dorganizer.Reconcile.Strict.Actions
use dorganizer.Reconcile.Strict.Component.{reconcile_component, rebuilds_all}
use dorganizer.Witnesses.Samples.{ascii, entry, flac_and_mp3, program}

abbrev flac_only : DesiredProfile
flac_only = record flac_and_mp3 { encoded = none }

abbrev twins : Component
twins = record {
  files = parse_files ascii (entry (codes "/m/01.wav") 0 ∷ entry (codes "/n/01.wav") 0 ∷ []);
}

abbrev twins_outcome : ComponentOutcome
twins_outcome =
    reconcile_component ascii (codes "") matched flac_only twins
      (map (λ f. f.path_posix) twins.files)

-- The ambiguity does not block: the first WAV is encoded, and both are removed.
twins-encoded :
    (twins_outcome.status ≡ status_ok)
    × (made (codes "/m/01.flac") twins_outcome.operations ≡ true)
    × (dropped (codes "/m/01.wav") twins_outcome.operations ≡ true)
    × (dropped (codes "/n/01.wav") twins_outcome.operations ≡ true)
unfolding program reconcile_component rebuilds_all Strict.plan_group Lanes.first_block
    Lanes.lane_decision Lanes.lossless_rebuild_needed Actions.variant_of Actions.all_encodes
    Actions.all_removals Actions.targets_of
twins-encoded = (refl, refl, refl, refl)
