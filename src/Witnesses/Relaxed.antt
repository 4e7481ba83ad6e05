-- ===== src/Witnesses/Relaxed.antt =====
-- The relaxed table at the sample.
use dorganizer.Prelude.{[], ◌∷◌, codes, ◌≡◌, refl, map, none, some, Bytes}
use dorganizer.Reconcile.Types.{matched, flac, DesiredProfile}
use dorganizer.Reconcile.Grouping.{Component, parse_files}
use dorganizer.Reconcile.Lenient.Component.{lenient_component}
use dorganizer.Witnesses.Samples.{ascii, entry, album, entry_paths, flac_and_mp3, program}

album-inventory :
    (lenient_component ascii
      (codes "/m")
      matched
      flac_and_mp3
      album
      entry_paths).projected_inventory
    ≡ codes "/m/01.flac" ∷ codes "/m/01.mp3" ∷ []
unfolding program
album-inventory = refl

-- An encoded output of FLAC, which takes no quality, over a library of one FLAC.
abbrev flac_as_encoded : DesiredProfile
flac_as_encoded = record {
  lossless = none;
  encoded = some (record { codec = flac; quality = none });
}

abbrev single_flac : Component
single_flac = record { files = parse_files ascii (entry (codes "/m/01.flac") 0 ∷ []) }

flac-onto_itself :
    map {B = Bytes × Bytes}
      (λ o. (o.source_path, o.target_path))
      (lenient_component ascii
        (codes "/m")
        matched
        flac_as_encoded
        single_flac
        (codes "/m/01.flac" ∷ [])).operations
    ≡ (codes "/m/01.flac", codes "/m/01.flac") ∷ []
unfolding program
flac-onto_itself = refl
