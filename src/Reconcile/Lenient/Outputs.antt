-- ===== src/Reconcile/Lenient/Outputs.antt =====
-- What the relaxed table adds for a stem that can reach its declared shape, in closed form.
use dorganizer.Prelude.{
  Bool, true, false, ◌&&◌, not, List, [], ◌∷◌, ◌++◌, map, Option, none, some, Bytes, filter_b, ◌≡◌,
  refl, append_assoc, append-nil, if◌then◌else◌, arith, is_some,
}
use dorganizer.Prelude.Member.{elem}
use dorganizer.Reconcile.Types.{
  AudioOutputSpec, DesiredProfile, GroupedFile, StemGroup, ext_for_codec,
}
use dorganizer.Reconcile.Outcome.{
  Reason, keep_lossless_target, keep_encoded_satisfied, materialize_lossless, materialize_encoded,
  target_path_conflict, encode, FileDecision, op_encode, materialize_outputs, Operation,
  same_stem_path,
}
use dorganizer.Reconcile.Lenient.{
  StemDecision, add_encode, unmet_reason, stem_owns, lossless_kept, encoded_kept, encoded_below,
  needs_lossless, needs_encoded, replaced_path, encode_lossless, encode_encoded, delete_rest,
  new_stem, paths_of,
}
use dorganizer.Reconcile.Lenient.Steps.{
  keep_decision, delete_decision, with_decisions, spared, delete_rest_lem,
}

-- An output that the stem encodes.
pub record Output : Type 0 where
  pub source : Bytes
  pub target : Bytes
  pub reason : Reason

abbrev pub encode_decision : Output → FileDecision
encode_decision o = record {
  path = o.target;
  resolution = encode;
  reason_code = o.reason;
  target_path = o.target;
}

abbrev pub encode_op : Bytes → Output → Operation
encode_op stem o = record {
  kind = op_encode;
  phase = materialize_outputs;
  component_id = [];
  variant_stem = stem;
  source_path = o.source;
  target_path = o.target;
  depends_on = [];
}

abbrev pub lossless_output : Bool → Option AudioOutputSpec → Option GroupedFile → List Output
lossless_output true (some spec) (some src) =
    record {
      source = src.path_posix;
      target = same_stem_path src.path_posix (ext_for_codec spec.codec);
      reason = materialize_lossless;
    }
    ∷ []
lossless_output _ _ _ = []

abbrev pub replaced_by :
    Bool → Option AudioOutputSpec → Option GroupedFile → List GroupedFile → Bytes
replaced_by true (some spec) (some src) below = replaced_path src spec.codec below
replaced_by _ _ _ _ = []

abbrev pub encoded_output :
    Bool → Option AudioOutputSpec → Option GroupedFile → List GroupedFile → List Output
encoded_output true (some spec) (some src) below =
    record {
      source = src.path_posix;
      target = replaced_path src spec.codec below;
      reason = materialize_encoded;
    }
    ∷ []
encoded_output _ _ _ _ = []

module _ (g : StemGroup) (profile : DesiredProfile) where
  abbrev pub kept_paths : List Bytes
  kept_paths = paths_of (lossless_kept g profile) ++ paths_of (encoded_kept g profile)

  abbrev pub keep_decisions : List FileDecision
  keep_decisions =
      map (λ f. keep_decision f.path_posix keep_lossless_target) (lossless_kept g profile)
      ++ map (λ f. keep_decision f.path_posix keep_encoded_satisfied) (encoded_kept g profile)

  abbrev pub removed_files : Bytes → List GroupedFile
  removed_files replaced = filter_b (λ f. not (spared kept_paths replaced f)) g.files

  -- The stem with these outputs, one of which may replace a file in place.
  abbrev pub reached_with : List Output → Bytes → StemDecision
  reached_with outs replaced = record {
    stem = g.stem;
    decisions =
        keep_decisions
        ++ (map encode_decision outs ++ map delete_decision (removed_files replaced));
    ops = map (encode_op g.stem) outs;
    targets = map (λ o. o.target) outs;
    block_code = none;
    panicked = false;
  }

  module _ (src : Option GroupedFile) where
    abbrev pub outputs : List Output
    outputs =
        lossless_output (needs_lossless g profile) profile.lossless src
        ++ encoded_output (needs_encoded g profile) profile.encoded src (encoded_below g profile)

    abbrev pub replaced : Bytes
    replaced = replaced_by (needs_encoded g profile) profile.encoded src (encoded_below g profile)

  abbrev pub unmet_stem : StemDecision
  unmet_stem =
      with_decisions (new_stem g)
        (map (λ f. keep_decision f.path_posix (unmet_reason f profile)) g.files)

-- The encoded lane where a source is at hand and its path is free or the stem's own.
encode_encoded_lem :
    (g : StemGroup) (occupied kept : List Bytes) (spec : AudioOutputSpec) (src : GroupedFile)
    (below : List GroupedFile) (d : StemDecision)
    → (elem (replaced_path src spec.codec below) occupied
        && not (stem_owns g (replaced_path src spec.codec below)))
      ≡ false
    → encode_encoded g occupied kept (some spec) (some src) below d
      ≡ with_decisions
          (add_encode src.path_posix (replaced_path src spec.codec below) materialize_encoded d)
          (map delete_decision
            (filter_b (λ f. not (spared kept (replaced_path src spec.codec below) f)) g.files))
unfolding encode_encoded
encode_encoded_lem g occupied kept spec src below d free = rw free (rw delete_rest_lem)

abbrev pub is_free : StemGroup → List Bytes → Bool → Bytes → Bool
is_free g occupied needs target = not (needs && (elem target occupied && not (stem_owns g target)))

-- Both lanes over a decision so far: what they add to it.
module _ (g : StemGroup) (occupied kept : List Bytes) (below : List GroupedFile) where
  abbrev pub finish :
      Bool
      → Option AudioOutputSpec
      → Bool
      → Option AudioOutputSpec
      → Option GroupedFile
      → StemDecision
      → StemDecision
  finish nl lossless ne encoded src d =
      let d' = if nl then encode_lossless lossless src d else d in
      if ne
      then encode_encoded g occupied kept encoded src below d'
      else delete_rest kept [] g.files d'

  abbrev pub added : List Output → Bytes → StemDecision → StemDecision
  added outs replaced d = record d {
    decisions =
        d.decisions
        ++ (map encode_decision outs
            ++ map delete_decision (filter_b (λ f. not (spared kept replaced f)) g.files));
    ops = d.ops ++ map (encode_op d.stem) outs;
    targets = d.targets ++ map (λ o. o.target) outs;
  }

  pub finish_closed :
      (nl : Bool) (lossless : Option AudioOutputSpec) (ne : Bool) (encoded : Option AudioOutputSpec)
      (src : Option GroupedFile) (d : StemDecision)
      → (nl ≡ true → is_some lossless && is_some src ≡ true)
      → (ne ≡ true → is_some encoded && is_some src ≡ true)
      → is_free g occupied ne (replaced_by ne encoded src below) ≡ true
      → finish nl lossless ne encoded src d
        ≡ added
            (lossless_output nl lossless src ++ encoded_output ne encoded src below)
            (replaced_by ne encoded src below)
            d
  unfolding encode_lossless add_encode
  finish_closed false lossless false encoded src d hl he free =
      rw delete_rest_lem (simp (append_assoc, append-nil))
  finish_closed true none ne encoded src d hl he free = cc (hl refl)
  finish_closed true (some l) ne encoded none d hl he free = cc (hl refl)
  finish_closed true (some l) false encoded (some s) d hl he free =
      rw delete_rest_lem (simp (append_assoc, append-nil))
  finish_closed false lossless true none src d hl he free = cc (he refl)
  finish_closed false lossless true (some e) none d hl he free = cc (he refl)
  finish_closed false lossless true (some e) (some s) d hl he free =
      rw (encode_encoded_lem g occupied kept e s below d (ground arith))
        (simp (append_assoc, append-nil))
  finish_closed true (some l) true none src d hl he free = cc (he refl)
  finish_closed true (some l) true (some e) (some s) d hl he free =
      rw (encode_encoded_lem g occupied kept e s below _ (ground arith))
        (simp (append_assoc, append-nil))

  pub finish_conflict :
      (nl : Bool) (lossless : Option AudioOutputSpec) (ne : Bool) (encoded : Option AudioOutputSpec)
      (src : Option GroupedFile) (d : StemDecision)
      → (ne ≡ true → is_some encoded && is_some src ≡ true)
      → is_free g occupied ne (replaced_by ne encoded src below) ≡ false
      → ((finish nl lossless ne encoded src d).block_code ≡ some target_path_conflict)
        × ((finish nl lossless ne encoded src d).panicked ≡ d.panicked)
  unfolding encode_lossless add_encode encode_encoded
  finish_conflict nl lossless false encoded src d he taken = cc
  finish_conflict nl lossless true none src d he taken = cc (he refl)
  finish_conflict nl lossless true (some e) none d he taken = cc (he refl)
  finish_conflict false lossless true (some e) (some s) d he taken = ground arith
  finish_conflict true none true (some e) (some s) d he taken = ground arith
  finish_conflict true (some l) true (some e) (some s) d he taken = ground arith
