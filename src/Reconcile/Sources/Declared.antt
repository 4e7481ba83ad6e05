-- ===== src/Reconcile/Sources/Declared.antt =====
-- The encodes of the strict table read observed lossless files.
use dorganizer.Prelude.{
  true, false, List, [], ◌∷◌, Option, none, some, Bytes, bytes_beq_iff, any_b, is_nil, ◌≡◌, arith,
  Option-cases, inl, inr,
}
use dorganizer.Reconcile.Types.{AudioOutputSpec, DesiredProfile, GroupedFile, StemGroup, wav, flac}
use dorganizer.Reconcile.Effects.{observed, observed-filter}
use dorganizer.Reconcile.Strict.{
  GroupPlan, codec_is, source_candidates, first_file, start_plan, lossless_lane, encoded_lane,
}
use dorganizer.Reconcile.Strict.Lanes.{rebuild_target, target_at}

pub observed-source_candidates :
    (p : Bytes) (profile : DesiredProfile) (fs : List GroupedFile)
    → observed p (source_candidates profile fs) ≡ true
    → observed p fs ≡ true
unfolding source_candidates any_b
observed-source_candidates p profile fs h = elim (Option-cases profile.lossless) [
  | inl e ↦ ground (
    arith,
    rw (e, source_candidates) at h,
    observed-filter p (codec_is wav) fs,
    observed-filter p (codec_is flac) fs,
  )
  | inr (spec, e) ↦ ground (
    arith,
    rw (e, source_candidates) at h,
    observed-filter p (codec_is spec.codec) fs,
    observed-filter p (codec_is wav) fs,
    observed-filter p (codec_is flac) fs,
  )
]

-- What a plan reads are paths of the files, and it encodes only what has a source.
pub record IsSourced (files : List GroupedFile) (p : GroupPlan) : Type 0 where
  pub source_seen : is_nil p.source ≡ false → observed p.source files ≡ true
  pub encode_src_seen :
      (s : GroupedFile) → p.lossless_encode_src ≡ some s → observed s.path_posix files ≡ true
  pub has_source : is_nil p.encoded_target_path ≡ false → is_nil p.source ≡ false

head_seen :
    (fs : List GroupedFile) (s : GroupedFile)
    → first_file fs ≡ some s
    → observed s.path_posix fs ≡ true
unfolding any_b
head_seen [] s h = cc
head_seen (f ∷ fs) s h = ground (arith, bytes_beq_iff f.path_posix s.path_posix)

module _ (files : List GroupedFile) where
  pub start_plan-IsSourced :
      (g : StemGroup) (cs : List GroupedFile)
      → ((p : Bytes) → observed p cs ≡ true → observed p files ≡ true)
      → IsSourced files (start_plan g cs)
  unfolding start_plan any_b
  start_plan-IsSourced g [] h = record {
    source_seen = λ e. cc;
    encode_src_seen = λ s e. cc;
    has_source = λ e. e;
  }
  start_plan-IsSourced g (c ∷ []) h = record {
    source_seen = λ e. h c.path_posix (ground (arith, bytes_beq_iff c.path_posix c.path_posix));
    encode_src_seen = λ s e. cc;
    has_source = λ e. cc;
  }
  start_plan-IsSourced g (c ∷ c' ∷ cs) h = record {
    source_seen = λ e. cc;
    encode_src_seen = λ s e. cc;
    has_source = λ e. e;
  }

  pub lossless_lane-IsSourced :
      (spec : Option AudioOutputSpec) (fs cs : List GroupedFile) (p : GroupPlan)
      → ((q : Bytes) → observed q cs ≡ true → observed q files ≡ true)
      → p.lossless_encode_src ≡ none
      → IsSourced files p
      → IsSourced files (lossless_lane spec fs cs p)
  unfolding lossless_lane
  lossless_lane-IsSourced none fs cs p h n i = record {
    source_seen = i.source_seen;
    encode_src_seen = i.encode_src_seen;
    has_source = i.has_source;
  }
  lossless_lane-IsSourced (some spec) fs cs p h n i = record {
    source_seen = λ e. ground (arith, i.source_seen);
    encode_src_seen = λ s e. h s.path_posix (head_seen cs s (first_read e));
    has_source = λ e. ground (arith, i.has_source);
  }
    where
      first_read :
          {s : GroupedFile}
          → (lossless_lane (some spec) fs cs p).lossless_encode_src ≡ some s
          → first_file cs ≡ some s
      first_read e = ground arith

  pub encoded_lane-IsSourced :
      (spec : Option AudioOutputSpec) (fs : List GroupedFile) (p : GroupPlan)
      → IsSourced files p
      → IsSourced files (encoded_lane spec fs p)
  unfolding encoded_lane
  encoded_lane-IsSourced none fs p i = record {
    source_seen = i.source_seen;
    encode_src_seen = i.encode_src_seen;
    has_source = i.has_source;
  }
  encoded_lane-IsSourced (some spec) fs p i = record {
    source_seen = λ e. ground (arith, i.source_seen);
    encode_src_seen = λ s e. i.encode_src_seen s (ground arith);
    has_source = λ e. ground (arith, i.has_source);
  }

pub rebuild_target-source :
    (spec : AudioOutputSpec) (groups : List StemGroup) (occupied : List Bytes) (p : GroupPlan)
    (path : Bytes)
    → rebuild_target spec groups occupied p ≡ target_at path
    → is_nil p.source ≡ false
unfolding rebuild_target
rebuild_target-source spec groups occupied p path h = ground arith
