-- ===== src/Reconcile/Lenient/Cases.antt =====
-- The outcomes of one stem of the relaxed table.
use dorganizer.Prelude.{
  Bool, true, false, ◌||◌, List, [], ◌∷◌, Option, some, Bytes, ◌≡◌, refl, ◌<◌, Bool-cases, arith,
  inl, inr, is_some, length, ltb,
}
use dorganizer.Prelude.Member.{elem}
use dorganizer.Reconcile.Types.{DesiredProfile, GroupedFile, StemGroup}
use dorganizer.Reconcile.Outcome.{
  keep_lossless_target, keep_encoded_satisfied, source_ambiguous, target_path_conflict,
}
use dorganizer.Reconcile.Lenient.{
  StemDecision, add_keep, stem_owns, needs_lossless, needs_encoded, sources, single, keep_files,
  lossless_kept, encoded_kept, encoded_below, new_stem, reach_shape, lenient_stem,
}
use dorganizer.Reconcile.Lenient.Steps.{keep_files_lem, with_decisions}
use dorganizer.Reconcile.Lenient.Outputs.{
  kept_paths, keep_decisions, reached_with, outputs, replaced, unmet_stem, is_free, finish,
  finish_closed, finish_conflict,
}

abbrev pub needs_output : StemGroup → DesiredProfile → Bool
needs_output g profile = needs_lossless g profile || needs_encoded g profile

abbrev pub source_of : StemGroup → DesiredProfile → Option GroupedFile
source_of g profile = single (sources g profile)

abbrev pub reached_stem : StemGroup → DesiredProfile → StemDecision
reached_stem g profile =
    reached_with g profile (outputs g profile (source_of g profile))
      (replaced g profile (source_of g profile))

pub data StemCase (g : StemGroup) (profile : DesiredProfile) (occupied : List Bytes)
    (d : StemDecision) : Type 0 where
  ambiguous :
      needs_output g profile ≡ true
      → 1 < length (sources g profile)
      → d.block_code ≡ some source_ambiguous
      → d.ops ≡ []
      → d.panicked ≡ false
      → StemCase g profile occupied d
  conflict :
      needs_encoded g profile ≡ true
      → elem (replaced g profile (source_of g profile)) occupied ≡ true
      → stem_owns g (replaced g profile (source_of g profile)) ≡ false
      → d.block_code ≡ some target_path_conflict
      → d.panicked ≡ false
      → StemCase g profile occupied d
  unmet :
      needs_output g profile ≡ true
      → sources g profile ≡ []
      → d ≡ unmet_stem g profile
      → StemCase g profile occupied d
  reached :
      (needs_output g profile ≡ true → is_some (source_of g profile) ≡ true)
      → is_free g occupied (needs_encoded g profile) (replaced g profile (source_of g profile))
        ≡ true
      → d ≡ reached_stem g profile
      → StemCase g profile occupied d

-- Both keeping loops together.
kept_stem : (g : StemGroup) (profile : DesiredProfile) → StemDecision
kept_stem g profile =
    keep_files (λ _. keep_encoded_satisfied) (encoded_kept g profile)
      (keep_files (λ _. keep_lossless_target) (lossless_kept g profile) (new_stem g))

kept_stem_lem :
    (g : StemGroup) (profile : DesiredProfile)
    → kept_stem g profile ≡ with_decisions (new_stem g) (keep_decisions g profile)
unfolding kept_stem
kept_stem_lem g profile =
    rw (keep_files_lem (λ _. keep_lossless_target) (lossless_kept g profile) (new_stem g))
      (rw (keep_files_lem (λ _. keep_encoded_satisfied) (encoded_kept g profile)) refl)

reach_shape_lem :
    (g : StemGroup) (profile : DesiredProfile) (occupied : List Bytes) (src : Option GroupedFile)
    → reach_shape g profile occupied src
      ≡ finish g occupied
          (kept_paths g profile)
          (encoded_below g profile)
          (needs_lossless g profile)
          profile.lossless
          (needs_encoded g profile)
          profile.encoded
          src
          (kept_stem g profile)
unfolding reach_shape kept_stem
reach_shape_lem g profile occupied src = refl

module _ (g : StemGroup) (profile : DesiredProfile) (occupied : List Bytes)
    (src : Option GroupedFile) (have : needs_output g profile ≡ true → is_some src ≡ true) where
  reach_closed :
      is_free g occupied (needs_encoded g profile) (replaced g profile src) ≡ true
      → reach_shape g profile occupied src
        ≡ reached_with g profile (outputs g profile src) (replaced g profile src)
  reach_closed free =
      rw (reach_shape_lem g profile occupied src, kept_stem_lem g profile)
        (finish_closed g occupied (kept_paths g profile) (encoded_below g profile)
          (needs_lossless g profile) profile.lossless (needs_encoded g profile) profile.encoded src
          _ (ground arith) (ground arith) free)

  reach_conflict :
      is_free g occupied (needs_encoded g profile) (replaced g profile src) ≡ false
      → ((reach_shape g profile occupied src).block_code ≡ some target_path_conflict)
        × ((reach_shape g profile occupied src).panicked ≡ false)
  reach_conflict taken =
      rw (reach_shape_lem g profile occupied src, kept_stem_lem g profile)
        (finish_conflict g occupied (kept_paths g profile) (encoded_below g profile)
          (needs_lossless g profile) profile.lossless (needs_encoded g profile) profile.encoded src
          _ (ground arith) taken)

single_none :
    (fs : List GroupedFile) → is_some (single fs) ≡ false → ltb 1 (length fs) ≡ false → fs ≡ []
single_none [] h k = refl
single_none (f ∷ []) h k = cc
single_none (f ∷ f' ∷ fs) h k = ground arith

-- Every stem is ambiguous, in conflict, unmet or reached, and the planner never dereferences a
-- missing source.
pub stem_cases :
    (g : StemGroup) (profile : DesiredProfile) (occupied : List Bytes)
    → StemCase g profile occupied (lenient_stem g profile occupied)
unfolding lenient_stem add_keep
stem_cases g profile occupied = elim (Bool-cases (needs_output g profile)) [
  | inl need ↦ elim (Bool-cases (ltb 1 (length (sources g profile)))) [
    | inl many ↦ rw (need, many) (ambiguous need (ground arith) refl refl refl)
    | inr few ↦ elim (Bool-cases (is_some (source_of g profile))) [
      | inl one ↦ rw (need, few, one) (shaped (λ _. one))
      | inr lacks ↦
          rw (need, few, lacks)
            (unmet need (single_none (sources g profile) lacks few) (keep_files_lem _ _ _))
    ]
  ]
  | inr idle ↦ rw idle (shaped (λ need. cc))
]
  where
    shaped :
        (needs_output g profile ≡ true → is_some (source_of g profile) ≡ true)
        → StemCase g profile occupied (reach_shape g profile occupied (source_of g profile))
    shaped have =
        elim (Bool-cases (
          is_free g occupied (needs_encoded g profile)
            (replaced g profile (source_of g profile)))) [
              | inl free ↦ reached have free (reach_closed g profile occupied _ have free)
              | inr taken ↦
                  let (code, calm) =
                    reach_conflict g profile occupied (source_of g profile) have taken in
                  conflict (ground arith) (ground arith) (ground arith) code calm
            ]
