-- ===== src/Reconcile/Grouping.antt =====
-- conversion/reconcile/grouping.go, and the identity of a component from fingerprint.go.
pub mod Stems
pub mod Components
pub mod Parsed
pub mod Search
pub mod Members
pub mod Connected
use dorganizer.Prelude.{
  ℕ, suc, ◌-◌, ◌<◌, Bool, true, false, ◌&&◌, not, List, [], ◌∷◌, ◌++◌, Option, none, some, Bytes,
  bytes_beq, codes, if◌then◌else◌, length, ltb, map, filter_b, is_some, take, drop,
}
use dorganizer.Prelude.Member.{elem}
use dorganizer.Prelude.Sorting.{sort_by, sort_strings}
use dorganizer.GoPath
use dorganizer.GoPath.{join_with}
use dorganizer.Reconcile.Types.{
  Partition, matched, unmatched, Codec, wav, flac, mp3, aac, opus, is_lossless_codec, AudioEntry,
  GroupedFile, StemGroup,
}
use dorganizer.Reconcile.Outcome.{append_unique}

-- What the planner takes from Go's `strings` over Unicode and from `crypto/sha256`.
pub record Runtime : Type 0 where
  pub to_lower : Bytes → Bytes
  pub equal_fold : Bytes → Bytes → Bool
  pub sha256_hex : Bytes → Bytes

unfoldable pub codec_by_ext : Bytes → Option Codec
codec_by_ext e =
    if bytes_beq e (codes ".wav")
    then some wav
    else if bytes_beq e (codes ".flac")
    then some flac
    else if bytes_beq e (codes ".mp3")
    then some mp3
    else if bytes_beq e (codes ".aac")
    then some aac
    else if bytes_beq e (codes ".m4a")
    then some aac
    else if bytes_beq e (codes ".opus")
    then some opus
    else none

-- The last `n` bytes are `ext` up to letter case, and something stands in front of them.
unfoldable pub stem_of : Runtime → Bytes → Bytes → Bytes
stem_of rt name e =
    let cut = length name - length e in
    if ltb (length e) (length name) && rt.equal_fold (drop cut name) e then take cut name else name

unfoldable pub parse_file : Runtime → AudioEntry → Option GroupedFile
unfolding codec_by_ext stem_of
parse_file rt e =
    let x = rt.to_lower (GoPath.ext e.path_posix) in
    elim (codec_by_ext x) [
      | none ↦ none
      | some codec ↦ some (record {
        entry = e;
        parent_path = GoPath.dir e.path_posix;
        stem = rt.to_lower (stem_of rt (GoPath.base e.path_posix) x);
        ext = x;
        codec = codec;
        lossless = is_lossless_codec codec;
      })
    ]

-- `AudioEntries` keeps the entries that parse, and `BuildComponents` starts from what they parse to.
unfoldable pub audio_entries : Runtime → List AudioEntry → List AudioEntry
unfolding parse_file
audio_entries rt entries = filter_b (λ e. is_some (parse_file rt e)) entries

abbrev pub add_parsed : Option GroupedFile → List GroupedFile → List GroupedFile
add_parsed none rest = rest
add_parsed (some f) rest = f ∷ rest

unfoldable pub parse_files : Runtime → List AudioEntry → List GroupedFile
unfolding parse_file
parse_files rt [] = []
parse_files rt (e ∷ es) = add_parsed (parse_file rt e) (parse_files rt es)

pub record Component : Type 0 where
  pub files : List GroupedFile

-- The keys of a Go map that is filled in the order of the files.
unfoldable pub keys_from : (GroupedFile → Bytes) → List Bytes → List GroupedFile → List Bytes
unfolding append_unique
keys_from key seen [] = seen
keys_from key seen (f ∷ fs) = keys_from key (append_unique seen (key f)) fs

unfoldable pub stems_of : List GroupedFile → List Bytes
unfolding keys_from
stems_of files = sort_strings (keys_from (λ f. f.stem) [] files)

abbrev pub group_at : List GroupedFile → Bytes → StemGroup
group_at files stem = record { stem = stem; files = filter_b (λ f. bytes_beq f.stem stem) files }

unfoldable pub stem_groups : Component → List StemGroup
unfolding stems_of
stem_groups c = map (group_at c.files) (stems_of c.files)

unfoldable pub parent_dirs : Component → List Bytes
unfolding keys_from
parent_dirs c = sort_strings (keys_from (λ f. f.parent_path) [] c.files)

abbrev pub partition_text : Partition → Bytes
partition_text matched = codes "matched"
partition_text unmatched = codes "unmatched"

unfoldable pub component_id_of : Runtime → Bytes → Partition → Component → Bytes
unfolding parent_dirs
component_id_of rt root partition c =
    rt.sha256_hex (root ++ 0 ∷ partition_text partition ++ 0 ∷ join_with 0 (parent_dirs c))
