-- ===== src/Reconcile/Sources/Relaxed.antt =====
-- The encodes of the relaxed table read observed lossless files.
use dorganizer.Prelude.{
  Bool, true, false, not, List, [], ◌∷◌, ◌++◌, map, Option, none, some, Bytes, bytes_beq_iff, any_b,
  any_b-append, ◌≡◌, refl, arith, Option-cases, inl, inr,
}
use dorganizer.Reconcile.Types.{
  Codec, codec_beq, AudioOutputSpec, DesiredProfile, GroupedFile, StemGroup,
}
use dorganizer.Reconcile.Outcome.{FileDecision, VariantDecision, ComponentOutcome}
use dorganizer.Reconcile.Effects.{observed, observed-filter}
use dorganizer.Reconcile.Grouping.{group_at}
use dorganizer.Reconcile.Lenient.{
  of_codec, first_candidates, source_codecs, qualified_sources, single, sources, needs_lossless,
  needs_encoded, encoded_below, lenient_stem,
}
use dorganizer.Reconcile.Lenient.Outputs.{
  Output, encode_op, lossless_output, encoded_output, outputs,
}
use dorganizer.Reconcile.Lenient.Cases.{ambiguous, conflict, unmet, reached, stem_cases}
use dorganizer.Reconcile.Lenient.Component.{
  Gathered, gather, owned_by, removals_of, removals, finish_component, nothing_gathered,
}
use dorganizer.Reconcile.Sources.{
  strays, lossless_of, strays-append, strays-sort_operations, strays-more, lossless_group,
}

observed-first_candidates :
    (p : Bytes) (cs : List Codec) (fs : List GroupedFile)
    → observed p (first_candidates cs fs) ≡ true
    → observed p fs ≡ true
unfolding first_candidates any_b of_codec
observed-first_candidates p [] fs h = cc
observed-first_candidates p (c ∷ cs) fs h =
    ground
      (arith, observed-first_candidates p cs fs, observed-filter p (λ f. codec_beq f.codec c) fs)

observed-single :
    (fs : List GroupedFile) (s : GroupedFile) → single fs ≡ some s → observed s.path_posix fs ≡ true
unfolding any_b
observed-single [] s h = cc
observed-single (f ∷ f' ∷ fs) s h = cc
observed-single (f ∷ []) s h = ground (arith, bytes_beq_iff f.path_posix s.path_posix)

lossless_output-read :
    (fs : List GroupedFile) (need : Bool) (spec : Option AudioOutputSpec) (src : Option GroupedFile)
    → ((s : GroupedFile) → src ≡ some s → observed s.path_posix fs ≡ true)
    → any_b (λ o. not (observed o.source fs)) (lossless_output need spec src) ≡ false
unfolding any_b
lossless_output-read fs true (some spec) (some s) h = ground (arith, h s refl)
lossless_output-read fs true (some spec) none h = refl
lossless_output-read fs true none src h = refl
lossless_output-read fs false spec src h = refl

encoded_output-read :
    (fs : List GroupedFile) (need : Bool) (spec : Option AudioOutputSpec) (src : Option GroupedFile)
    (below : List GroupedFile)
    → ((s : GroupedFile) → src ≡ some s → observed s.path_posix fs ≡ true)
    → any_b (λ o. not (observed o.source fs)) (encoded_output need spec src below) ≡ false
unfolding any_b
encoded_output-read fs true (some spec) (some s) below h = ground (arith, h s refl)
encoded_output-read fs true (some spec) none below h = refl
encoded_output-read fs true none src below h = refl
encoded_output-read fs false spec src below h = refl

strays-ops :
    (fs : List GroupedFile) (id stem : Bytes) (outs : List Output)
    → strays fs (map (owned_by id) (map (encode_op stem) outs))
      ≡ any_b (λ o. not (observed o.source fs)) outs
unfolding any_b
strays-ops fs id stem [] = refl
strays-ops fs id stem (o ∷ outs) = rw (strays-ops fs id stem outs) refl

module _ (id : Bytes) (profile : DesiredProfile) (occupied : List Bytes) where
  source-observed :
      (g : StemGroup) (s : GroupedFile)
      → single (sources g profile) ≡ some s
      → observed s.path_posix (lossless_of g.files) ≡ true
  unfolding qualified_sources
  source-observed g s h =
      observed-first_candidates s.path_posix (source_codecs profile) (lossless_of g.files)
        (observed-single (sources g profile) s h)

  strays-outputs :
      (g : StemGroup)
      → strays (lossless_of g.files) (
          map
            (owned_by id)
            (map (encode_op g.stem) (outputs g profile (single (sources g profile)))))
        ≡ false
  strays-outputs g =
      let src = single (sources g profile) in
      rw (strays-ops (lossless_of g.files) id g.stem, any_b-append)
        (rw
          (
            lossless_output-read (lossless_of g.files) (needs_lossless g profile) profile.lossless
                src (source-observed g),
            encoded_output-read (lossless_of g.files) (needs_encoded g profile) profile.encoded src
                (encoded_below g profile) (source-observed g),
          )
          refl)

  strays-stem :
      (g : StemGroup)
      → (lenient_stem g profile occupied).block_code ≡ none
      → strays (lossless_of g.files) (map (owned_by id) (lenient_stem g profile occupied).ops)
        ≡ false
  unfolding any_b
  strays-stem g open_ = elim (stem_cases g profile occupied) [
    | ambiguous n l code _ _ ↦ cc
    | conflict n t o code _ ↦ cc
    | unmet n s e ↦ rw e refl
    | reached have free e ↦ rw e (strays-outputs g)
  ]

  strays-gather :
      (files : List GroupedFile) (stems : List Bytes) (acc : Gathered)
      → strays (lossless_of files) acc.operations ≡ false
      → strays
          (lossless_of files)
          (gather id profile occupied acc (map (group_at files) stems)).operations
        ≡ false
  unfolding gather
  strays-gather files [] acc h = h
  strays-gather files (s ∷ ss) acc h =
      elim (Option-cases (lenient_stem (group_at files s) profile occupied).block_code) [
        | inl e ↦
            rw (e, gather)
              (strays-gather files ss _ (
                strays-append (lossless_of files) _ _ h (
                  strays-more (lossless_of (group_at files s).files) (lossless_of files) _
                    (λ p. lossless_group p files s) (strays-stem (group_at files s) e))))
        | inr (r, e) ↦ rw (e, gather) h
      ]

strays-removals_of :
    (files : List GroupedFile) (id : Bytes) (targets : List Bytes) (stem : Bytes)
    (ds : List FileDecision)
    → strays files (removals_of id targets stem ds) ≡ false
unfolding removals_of any_b
strays-removals_of files id targets stem [] = refl
strays-removals_of files id targets stem (d ∷ ds) =
    ground (arith, strays-removals_of files id targets stem ds)

strays-removals :
    (files : List GroupedFile) (id : Bytes) (targets : List Bytes) (vs : List VariantDecision)
    → strays files (removals id targets vs) ≡ false
unfolding removals any_b
strays-removals files id targets [] = refl
strays-removals files id targets (v ∷ vs) =
    strays-append files (removals_of id targets v.stem v.decisions) (removals id targets vs)
      (strays-removals_of files id targets v.stem v.decisions) (strays-removals files id targets vs)

pub strays-finish_component :
    (profile : DesiredProfile) (occupied : List Bytes) (files : List GroupedFile)
    (stems : List Bytes) (out : ComponentOutcome)
    → strays
        (lossless_of files)
        (finish_component out (
          gather out.component_id profile occupied nothing_gathered
            (map (group_at files) stems))).operations
      ≡ false
unfolding finish_component any_b
strays-finish_component profile occupied files stems out =
    let id = out.component_id in
    let r = gather id profile occupied nothing_gathered (map (group_at files) stems) in
    elim (Option-cases r.blocked) [
      | inr (reason, e) ↦ rw (e, finish_component) refl
      | inl e ↦
          rw (e, finish_component)
            (strays-sort_operations (lossless_of files)
              (r.operations ++ removals id r.targets r.variants)
              (strays-append (lossless_of files) r.operations (removals id r.targets r.variants)
                (strays-gather id profile occupied files stems nothing_gathered refl)
                (strays-removals (lossless_of files) id r.targets r.variants)))
    ]
