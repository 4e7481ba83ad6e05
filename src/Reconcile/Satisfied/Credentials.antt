-- ===== src/Reconcile/Satisfied/Credentials.antt =====
-- What the second entry of the gate, the generation credential, proves of an accepted file.
use dorganizer.Prelude.{true, false, Option, none, some, ◌≡◌, refl, ◌≢◌, arith, bytes_beq_iff}
use dorganizer.Prelude.Int.{ℤ, int_beq_iff}
use dorganizer.Reconcile.Types.{
  mp3, codec_beq_iff, RateMode, other_mode, mode_beq, encoding_mode, bitrate_kind, AudioOutputSpec,
  GeneratedFacts, GroupedFile, generated_matches,
}
use dorganizer.Reconcile.Satisfied.{measured_bitrate_satisfies, satisfied_encoded}

-- The credential is for exactly this target, and for exactly these bytes.
pub record IsProof (g : GeneratedFacts) (spec : AudioOutputSpec) (size mtime : ℤ) : Type 0 where
  pub same_size : g.size ≡ size
  pub same_mtime : g.mtime ≡ mtime
  pub same_codec : g.codec ≡ spec.codec
  pub written_for : spec.quality ≡ some (record { kind = bitrate_kind; bitrate = g.bitrate_kbps })
  pub same_mode : g.mode ≡ encoding_mode spec.codec

mode_beq_sound : (a b : RateMode) → mode_beq a b ≡ true → a ≡ b
mode_beq_sound (other_mode s) (other_mode t) h = ground (arith, bytes_beq_iff s t)
mode_beq_sound a b h = ground arith

matches-IsProof :
    (g : GeneratedFacts) (spec : AudioOutputSpec) (size mtime : ℤ)
    → generated_matches (some g) spec size mtime ≡ true
    → IsProof g spec size mtime
unfolding generated_matches
matches-IsProof g spec size mtime h = ground (
  arith,
  int_beq_iff g.size size,
  int_beq_iff g.mtime mtime,
  codec_beq_iff g.codec spec.codec,
  mode_beq_sound g.mode (encoding_mode spec.codec),
)

has-IsProof :
    (o : Option GeneratedFacts) (spec : AudioOutputSpec) (size mtime : ℤ)
    → generated_matches o spec size mtime ≡ true
    → (g : GeneratedFacts) × (o ≡ some g) × IsProof g spec size mtime
unfolding generated_matches
has-IsProof none spec size mtime h = cc
has-IsProof (some g) spec size mtime h = (g, refl, matches-IsProof g spec size mtime h)

-- A file that is accepted though its measured rate does not answer the target holds the target's
-- codec, which is not MP3, and carries a credential that was written for exactly this target and
-- binds the file's size and modification time.
pub satisfied-IsProof :
    (f : GroupedFile) (spec : AudioOutputSpec)
    → satisfied_encoded f spec ≡ true
    → measured_bitrate_satisfies f.bitrate spec ≡ false
    → (f.codec ≡ spec.codec)
      × (spec.codec ≢ mp3)
      × ((g : GeneratedFacts) × (f.generated ≡ some g) × IsProof g spec f.size f.mtime)
unfolding satisfied_encoded
satisfied-IsProof f spec h m = (
  ground (arith, codec_beq_iff f.codec spec.codec),
  ground arith,
  has-IsProof f.generated spec f.size f.mtime (ground arith),
)
