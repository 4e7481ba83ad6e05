-- ===== src/Reconcile/Types.antt =====
-- conversion/reconcile/types.go: the planner's data. A Go string type with declared constants is a
-- data type with those constants and a constructor for any other text.
use dorganizer.Prelude.{
  Bool, true, false, ◌&&◌, not, ◌||◌, List, Bytes, codes, Option, none, some, Equality, ◌==◌,
  bytes_beq, ◌≡◌, ◌↔◌, arith, if◌then◌else◌, bytes_beq_iff,
}
use dorganizer.Prelude.Int.{ℤ, int_eq}

pub data Partition : Type 0 where
  matched unmatched : Partition

pub data Codec : Type 0 where
  wav flac mp3 aac opus : Codec
  other_codec : Bytes → Codec

unfoldable pub codec_beq : Codec → Codec → Bool
codec_beq wav wav = true
codec_beq flac flac = true
codec_beq mp3 mp3 = true
codec_beq aac aac = true
codec_beq opus opus = true
codec_beq (other_codec s) (other_codec t) = bytes_beq s t
codec_beq _ _ = false

pub codec_beq_iff : (a b : Codec) → (codec_beq a b ≡ true) ↔ (a ≡ b)
unfolding codec_beq
codec_beq_iff (other_codec s) (other_codec t) = ground (arith, bytes_beq_iff s t)
codec_beq_iff a b = ground arith

instance abbrev pub codec_eq : Equality Codec
codec_eq = record {
  same = codec_beq;
  same_iff = λ x y. ((codec_beq_iff x y).1, (codec_beq_iff x y).0);
}

abbrev pub ext_for_codec : Codec → Bytes
ext_for_codec wav = codes ".wav"
ext_for_codec flac = codes ".flac"
ext_for_codec mp3 = codes ".mp3"
ext_for_codec aac = codes ".m4a"
ext_for_codec opus = codes ".opus"
ext_for_codec (other_codec _) = codes ""

abbrev pub is_lossless_codec : Codec → Bool
is_lossless_codec wav = true
is_lossless_codec flac = true
is_lossless_codec _ = false

-- The rate-control mode of an encoded target.
pub data RateMode : Type 0 where
  cbr vbr : RateMode
  other_mode : Bytes → RateMode

abbrev pub mode_beq : RateMode → RateMode → Bool
mode_beq cbr cbr = true
mode_beq vbr vbr = true
mode_beq (other_mode s) (other_mode t) = bytes_beq s t
mode_beq _ _ = false

abbrev pub encoding_mode : Codec → RateMode
encoding_mode opus = vbr
encoding_mode _ = cbr

pub data QualityKind : Type 0 where
  bitrate_kind : QualityKind
  other_kind : Bytes → QualityKind

abbrev pub is_bitrate : QualityKind → Bool
is_bitrate bitrate_kind = true
is_bitrate (other_kind _) = false

pub record Quality : Type 0 where
  pub kind : QualityKind
  pub bitrate : ℤ  -- int, in kbps

pub record AudioOutputSpec : Type 0 where
  pub codec : Codec
  pub quality : Option Quality

pub record DesiredProfile : Type 0 where
  pub lossless : Option AudioOutputSpec
  pub encoded : Option AudioOutputSpec

pub data ConversionMode : Type 0 where
  unset strict available_sources : ConversionMode
  other_conversion : Bytes → ConversionMode

pub record Policy : Type 0 where
  pub schema_version : ℤ
  pub mode : ConversionMode
  pub classifier_tags : List Bytes
  pub matched_profile : DesiredProfile
  pub unmatched_profile : DesiredProfile

abbrev pub profile_for : Policy → Partition → DesiredProfile
profile_for policy unmatched = policy.unmatched_profile
profile_for policy matched = policy.matched_profile

pub record GeneratedFacts : Type 0 where
  pub codec : Codec
  pub bitrate_kbps : ℤ
  pub mode : RateMode
  pub size : ℤ
  pub mtime : ℤ

pub record AudioEntry : Type 0 where
  pub path_posix : Bytes
  pub size : ℤ  -- int64
  pub mtime : ℤ  -- int64
  pub bitrate : ℤ  -- int64, 0 when no probe established it
  pub format : Bytes
  pub generated : Option GeneratedFacts

pub record GroupedFile : Type 0 where
  pub entry : AudioEntry
  pub open entry use *
  pub parent_path : Bytes
  pub stem : Bytes
  pub ext : Bytes
  pub codec : Codec
  pub lossless : Bool

pub record StemGroup : Type 0 where
  pub stem : Bytes
  pub files : List GroupedFile

pub record FileTuple : Type 0 where
  pub path : Bytes
  pub size : ℤ
  pub mtime : ℤ

-- The `switch` of `Matches` at a credential that is there.
abbrev credential_matches : GeneratedFacts → AudioOutputSpec → ℤ → ℤ → Bool
credential_matches g spec size mtime =
    if not (g.size == size) || not (g.mtime == mtime)
    then false
    else if not (g.codec == spec.codec)
    then false
    else elim (spec.quality) [
      | none ↦ false
      | some q ↦
          if is_bitrate q.kind
          then (g.bitrate_kbps == q.bitrate) && mode_beq g.mode (encoding_mode spec.codec)
          else false
    ]

unfoldable pub generated_matches : Option GeneratedFacts → AudioOutputSpec → ℤ → ℤ → Bool
generated_matches none spec size mtime = false
generated_matches (some g) spec size mtime = credential_matches g spec size mtime
