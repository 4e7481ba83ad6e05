-- ===== src/Witnesses/Satisfaction.antt =====
-- The gate of the encoded lane at concrete files.
use dorganizer.Prelude.{◌≡◌, ◌≢◌, true, false, some, codes, refl, []}
use dorganizer.Prelude.Int.{pos}
use dorganizer.Reconcile.Types.{mp3, opus, vbr, GeneratedFacts, GroupedFile}
use dorganizer.Reconcile.Satisfied.{measured_bitrate_satisfies, satisfied_encoded}
use dorganizer.Reconcile.Satisfied.Bands.{bitrate_spec}
use dorganizer.Reconcile.Satisfied.Credentials.{IsProof, satisfied-IsProof}
use dorganizer.Witnesses.Samples.{program}

-- An Opus file whose average lies far below its target, with its credential.
abbrev credential : GeneratedFacts
credential = record {
  codec = opus;
  bitrate_kbps = pos 160;
  mode = vbr;
  size = pos 9;
  mtime = pos 4;
}

abbrev quiet : GroupedFile
quiet = record {
  entry = record {
    path_posix = codes "/m/02.opus";
    size = pos 9;
    mtime = pos 4;
    bitrate = pos 1600;
    format = [];
    generated = some credential;
  };
  parent_path = codes "/m";
  stem = codes "02";
  ext = codes ".opus";
  codec = opus;
  lossless = false;
}

quiet-satisfied : satisfied_encoded quiet (bitrate_spec opus 160) ≡ true
unfolding program
quiet-satisfied = refl

quiet-unmeasured : measured_bitrate_satisfies (pos 1600) (bitrate_spec opus 160) ≡ false
unfolding program measured_bitrate_satisfies
quiet-unmeasured = refl

satisfied-IsProof_example :
    (quiet.codec ≡ opus)
    × (opus ≢ mp3)
    × ((g : GeneratedFacts) × (quiet.generated ≡ some g)
        × IsProof g (bitrate_spec opus 160) (pos 9) (pos 4))
satisfied-IsProof_example =
    satisfied-IsProof quiet (bitrate_spec opus 160) quiet-satisfied quiet-unmeasured
