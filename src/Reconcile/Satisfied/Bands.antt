-- ===== src/Reconcile/Satisfied/Bands.antt =====
-- The acceptance bands of a measured rate, restated in whole kbps without machine integers.
use dorganizer.Prelude.{ℕ, ◌+◌, ◌*◌, Bool, false, ◌&&◌, some, leb, if◌then◌else◌}
use dorganizer.Prelude.Int.{pos}
use dorganizer.Reconcile.Types.{
  Codec, wav, flac, mp3, aac, opus, other_codec, bitrate_kind, AudioOutputSpec,
}

-- A target of `kbps` in the codec.
abbrev pub bitrate_spec : Codec → ℕ → AudioOutputSpec
bitrate_spec codec kbps = record {
  codec = codec;
  quality = some (record { kind = bitrate_kind; bitrate = pos kbps });
}

-- The band in bits per second around a target of `kbps`.
abbrev pub in_band : Codec → ℕ → ℕ → Bool
in_band mp3 kbps rate = leb (1000 * kbps) (rate + 1000)
in_band opus kbps rate = leb (1000 * kbps) (rate + 1000)
in_band aac kbps rate =
    leb ((if leb kbps 192 then 950 else 600) * kbps) rate && leb rate (1100 * kbps)
in_band wav _ _ = false
in_band flac _ _ = false
in_band (other_codec _) _ _ = false
