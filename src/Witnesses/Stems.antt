-- ===== src/Witnesses/Stems.antt =====
-- One stem of the sample, and the groups of its component.
use dorganizer.Prelude.{codes, ◌≡◌, refl, none}
use dorganizer.Reconcile.Types.{StemGroup}
use dorganizer.Reconcile.Effects.{observed, elem-paths}
use dorganizer.Reconcile.Grouping.{stem_groups}
use dorganizer.Reconcile.Grouping.Stems.{
  observed_in, Apart, observed-stem_groups, stem_groups-Apart,
}
use dorganizer.Reconcile.Grouping.Parsed.{parsed-SamePath, parse_files-IsParsed, parsed-named}
use dorganizer.Reconcile.Lenient.{lenient_stem}
use dorganizer.Reconcile.Lenient.Cases.{StemCase, stem_cases}
use dorganizer.Reconcile.Lenient.Contract.{Fits, Agrees, stem-Agrees}
use dorganizer.Witnesses.Samples.{
  ascii, ascii-Laws, entries, album, entry_paths, flac_and_mp3, program,
}

abbrev track : StemGroup
track = record { stem = codes "01"; files = album.files }

track-Fits : Fits track entry_paths
unfolding program
track-Fits = record {
  named = parsed-named ascii ascii-Laws album.files (parse_files-IsParsed ascii entries);
  listed = λ p h. rw (elem-paths p album.files) h;
}

track-open : (lenient_stem track flac_and_mp3 entry_paths).block_code ≡ none
unfolding program
track-open = refl

stem-Agrees_example :
    Agrees track flac_and_mp3 entry_paths
      (lenient_stem track flac_and_mp3 entry_paths)
      (codes "/m/01.mp3")
stem-Agrees_example =
    stem-Agrees (codes "/m/01.mp3") track flac_and_mp3 entry_paths track-Fits track-open

stem_cases_example :
    StemCase track flac_and_mp3 entry_paths (lenient_stem track flac_and_mp3 entry_paths)
stem_cases_example = stem_cases track flac_and_mp3 entry_paths

observed_example :
    observed_in (codes "/m/01.aac") (stem_groups album) ≡ observed (codes "/m/01.aac") album.files
observed_example = observed-stem_groups (codes "/m/01.aac") album

apart_example : Apart (codes "/m/01.aac") (stem_groups album)
apart_example =
    stem_groups-Apart (codes "/m/01.aac") album
      (parsed-SamePath ascii album.files (parse_files-IsParsed ascii entries))
