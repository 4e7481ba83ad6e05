-- ===== src/Reconcile/Satisfied.antt =====
-- conversion/reconcile/reconcile.go: when an observed encoded file satisfies a declared output.
pub mod Bands
pub mod Credentials
use dorganizer.Prelude.{ℕ, Bool, true, false, ◌&&◌, none, some, ◌==◌, if◌then◌else◌}
use dorganizer.Prelude.Int.{ℤ, pos, leb_ℤ, ltb_ℤ, mul64, sub64, quot64}
use dorganizer.Reconcile.Types.{
  Codec, wav, flac, mp3, aac, opus, other_codec, codec_eq, AudioOutputSpec, GroupedFile,
  generated_matches,
}

abbrev pub bitrate_tolerance : ℕ
bitrate_tolerance = 1000

abbrev aac_tight_floor : ℕ
aac_tight_floor = 95

abbrev aac_saturated_floor : ℕ
aac_saturated_floor = 60

abbrev aac_ceiling : ℕ
aac_ceiling = 110

abbrev aac_exact_above : ℤ
aac_exact_above = pos 192000

-- The `switch` over the codec, at the target rate in bits per second.
unfoldable pub answers_target : Codec → ℤ → ℤ → Bool
answers_target mp3 rate target = leb_ℤ (sub64 target bitrate_tolerance) rate
answers_target opus rate target = leb_ℤ (sub64 target bitrate_tolerance) rate
answers_target aac rate target =
    let floor = if ltb_ℤ aac_exact_above target then aac_saturated_floor else aac_tight_floor in
    leb_ℤ (quot64 (mul64 target floor) 100) rate
    && leb_ℤ rate (quot64 (mul64 target aac_ceiling) 100)
answers_target wav rate target = false
answers_target flac rate target = false
answers_target (other_codec _) rate target = false

unfoldable pub measured_bitrate_satisfies : ℤ → AudioOutputSpec → Bool
unfolding answers_target
measured_bitrate_satisfies rate spec = elim (spec.quality) [
  | none ↦ false
  | some q ↦
      if leb_ℤ q.bitrate (pos 0)
      then false
      else answers_target spec.codec rate (mul64 q.bitrate 1000)
]

abbrev is_mp3 : Codec → Bool
is_mp3 mp3 = true
is_mp3 _ = false

unfoldable pub satisfied_encoded : GroupedFile → AudioOutputSpec → Bool
unfolding measured_bitrate_satisfies
satisfied_encoded f spec =
    if f.codec == spec.codec
    then if measured_bitrate_satisfies f.bitrate spec
      then true
      else if is_mp3 spec.codec
      then false
      else generated_matches f.generated spec f.size f.mtime
    else false
