-- ===== src/Witnesses/Samples.antt =====
-- A small library: one track as WAV, AAC and a low-rate MP3, and ASCII in place of Unicode.
use dorganizer.Prelude.{
  ℕ, ◌+◌, ◌&&◌, List, [], ◌∷◌, map, none, some, Bytes, bytes_beq, codes, leb, filter_b, any_b,
  bytes_ltb, has_prefix, if◌then◌else◌, refl,
}
use dorganizer.GoPath
use dorganizer.Prelude.Int
use dorganizer.Reconcile.Types
use dorganizer.Reconcile.Outcome
use dorganizer.Reconcile.Satisfied
use dorganizer.Reconcile.Lenient
use dorganizer.Reconcile.Lenient.Component.{lenient_component}
use dorganizer.Prelude.Sorting.{sort_by, sort_strings}
use dorganizer.Prelude.Member.{elem}
use dorganizer.Prelude.Int.{ℤ, pos}
use dorganizer.Reconcile.Types.{
  wav, flac, mp3, aac, opus, Quality, bitrate_kind, AudioOutputSpec, DesiredProfile, AudioEntry,
  GroupedFile,
}
use dorganizer.Reconcile.Grouping.{Runtime, Component, parse_files, stem_groups}
use dorganizer.Reconcile.Grouping.Parsed.{Laws}

abbrev lower : ℕ → ℕ
lower c = if leb b'A' c && leb c b'Z' then c + 32 else c

abbrev pub ascii : Runtime
ascii = record {
  to_lower = map lower;
  equal_fold = λ s t. bytes_beq (map lower s) (map lower t);
  sha256_hex = λ s. s;
}

pub ascii-Laws : Laws ascii
ascii-Laws = record { lower_empty = refl }

abbrev pub entry : Bytes → ℕ → AudioEntry
entry path rate = record {
  path_posix = path;
  size = pos 1000;
  mtime = pos 7;
  bitrate = pos rate;
  format = [];
  generated = none;
}

abbrev pub entries : List AudioEntry
entries =
    entry (codes "/m/01.wav") 0
    ∷ entry (codes "/m/01.aac") 0
    ∷ entry (codes "/m/01.mp3") 128000
    ∷ []

abbrev pub album : Component
album = record { files = parse_files ascii entries }

abbrev pub entry_paths : List Bytes
entry_paths = map (λ f. f.path_posix) album.files

-- FLAC and MP3 at 320 kbps.
abbrev pub flac_and_mp3 : DesiredProfile
flac_and_mp3 = record {
  lossless = some (record { codec = flac; quality = none });
  encoded =
      some (record {
        codec = mp3;
        quality = some (record { kind = bitrate_kind; bitrate = pos 320 });
      });
}

-- MP3 at 320 kbps alone.
abbrev pub mp3_only : DesiredProfile
mp3_only = record flac_and_mp3 { lossless = none }

-- What the planner computes through.
unfoldable pub program : Unit {0}
unfolding lenient_component Lenient.lenient_stem Lenient.declared_lossless Lenient.declared_encoded
    Lenient.qualified_sources Lenient.of_codec Lenient.first_candidates Lenient.keep_files
    Lenient.add_keep Lenient.delete_rest Lenient.add_delete Lenient.encode_lossless
    Lenient.encode_encoded Lenient.add_encode Lenient.stem_owns Lenient.unmet_reason parse_files
    stem_groups Types.codec_beq Satisfied.satisfied_encoded bytes_beq filter_b any_b elem
    Outcome.append_unique Outcome.dedupe_decisions Outcome.same_stem_path Outcome.sort_operations
    sort_by sort_strings GoPath.ext GoPath.dir GoPath.base GoPath.join GoPath.trim_suffix has_prefix
    Outcome.operation_less bytes_ltb Outcome.projected_inventory_of Int.mul64 Int.sub64 Int.quot64
    Types.generated_matches
program = tt
