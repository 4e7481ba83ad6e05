-- ===== src/Reconcile/Lenient/Contract.antt =====
-- What an unblocked stem of the relaxed table promises of every path.
pub mod Free
use dorganizer.Prelude.{
  Bool, true, false, ◌&&◌, ◌||◌, not, List, [], ◌∷◌, Option, none, some, Bytes, bytes_beq,
  bytes_beq_iff, All, any_b, any_b-append, ◌≡◌, refl, ◌⊎◌, inl, inr, subst, sym, arith, is_some,
}
use dorganizer.Prelude.Member.{elem, elem-append}
use dorganizer.Reconcile.Types.{DesiredProfile, GroupedFile, StemGroup, AudioOutputSpec}
use dorganizer.Reconcile.Outcome.{Reason}
use dorganizer.Reconcile.Effects.{
  left, gone, observed, made, dropped, IsLocal, elem-paths, observed-filter, bytes_beq_comm,
}
use dorganizer.Reconcile.Lenient.{
  StemDecision, stem_owns, lossless_kept, encoded_kept, needs_lossless, needs_encoded,
  declared_lossless, declared_encoded, of_codec, encoded_below, lenient_stem, lossless_files,
  encoded_files, paths_of, unmet_reason, replaced_path,
}
use dorganizer.Reconcile.Lenient.Outputs.{
  Output, lossless_output, encoded_output, replaced_by, kept_paths, outputs, replaced, is_free,
  reached_with, unmet_stem,
}
use dorganizer.Reconcile.Lenient.Calculus.{
  left-keeps, gone-keeps, left-deletes, gone-deletes, writes, left-encodes, gone-encodes, made-ops,
  dropped-ops, observed-spared, unmet-IsLocal, reached-IsLocal,
}
use dorganizer.Reconcile.Lenient.Cases.{
  source_of, reached_stem, ambiguous, conflict, unmet, reached, stem_cases,
}

-- The outputs that a stem would encode for its lossless lane.
abbrev pub lossless_outputs : StemGroup → DesiredProfile → List Output
lossless_outputs g profile =
    lossless_output (needs_lossless g profile) profile.lossless (source_of g profile)

-- What the planner's skeleton grants a stem: its files have paths, all of them among the entries.
pub record Fits (g : StemGroup) (occupied : List Bytes) : Type 0 where
  pub named : observed [] g.files ≡ false
  pub listed : (p : Bytes) → observed p g.files ≡ true → elem p occupied ≡ true

-- The stem's lossless lane would write the path of an entry, which the code does not check.
abbrev pub overwrites : StemGroup → DesiredProfile → List Bytes → Bytes → Bool
overwrites g profile occupied p = writes p (lossless_outputs g profile) && elem p occupied

-- The effects of one stem agree at a path: unless the lossless lane writes over it, what the
-- decisions leave is what the operations and removals leave of the stem's files; the stem removes
-- only its own files; and what it writes is free, its own, or overwritten by the lossless lane.
pub record Agrees (g : StemGroup) (profile : DesiredProfile) (occupied : List Bytes)
    (d : StemDecision) (p : Bytes) : Type 0 where
  pub exact :
      overwrites g profile occupied p ≡ false
      → left p d.decisions ≡ ((observed p g.files || made p d.ops) && not (gone p d.decisions))
  pub removes_own : gone p d.decisions ≡ true → observed p g.files ≡ true
  pub writes_own :
      made p d.ops ≡ true
      → elem p occupied ≡ true
      → (observed p g.files || overwrites g profile occupied p) ≡ true
  pub keeps_only : dropped p d.ops ≡ false

module _ (p : Bytes) where
  encoded_writes :
      (ne : Bool) (spec : Option AudioOutputSpec) (src : Option GroupedFile)
      (below : List GroupedFile)
      → (ne ≡ true → is_some spec && is_some src ≡ true)
      → writes p (encoded_output ne spec src below)
        ≡ (ne && bytes_beq p (replaced_by ne spec src below))
  unfolding any_b
  encoded_writes false spec src below h = refl
  encoded_writes true none src below h = cc (h refl)
  encoded_writes true (some s) none below h = cc (h refl)
  encoded_writes true (some s) (some f) below h =
      ground (arith, bytes_beq_comm p (replaced_path f s.codec below))

  declared_lossless-observed :
      (spec : Option AudioOutputSpec) (fs : List GroupedFile)
      → observed p (declared_lossless spec fs) ≡ true
      → observed p fs ≡ true
  unfolding declared_lossless of_codec any_b
  declared_lossless-observed none fs h = cc
  declared_lossless-observed (some s) fs h = observed-filter p _ fs h

  declared_encoded-observed :
      (spec : Option AudioOutputSpec) (fs : List GroupedFile)
      → observed p (declared_encoded spec fs).0 ≡ true
      → observed p fs ≡ true
  unfolding declared_encoded of_codec any_b
  declared_encoded-observed none fs h = cc
  declared_encoded-observed (some s) fs h = observed-filter p _ fs (observed-filter p _ _ h)

  module _ (g : StemGroup) (profile : DesiredProfile) where
    kept_paths_lem :
        elem p (kept_paths g profile)
        ≡ (observed p (lossless_kept g profile) || observed p (encoded_kept g profile))
    kept_paths_lem =
        rw
          (
            elem-append p (paths_of (lossless_kept g profile)),
            elem-paths p (lossless_kept g profile),
            elem-paths p (encoded_kept g profile),
          )
          refl

    -- What is kept is observed.
    kept_observed :
        (observed p (lossless_kept g profile) || observed p (encoded_kept g profile)) ≡ true
        → observed p g.files ≡ true
    kept_observed h = ground (
      arith,
      declared_lossless-observed profile.lossless (lossless_files g profile),
      declared_encoded-observed profile.encoded (encoded_files g profile),
      observed-filter p (λ f. f.lossless) g.files,
      observed-filter p (λ f. not f.lossless) g.files,
    )

    left_reached :
        (outs : List Output) (target : Bytes)
        → left p (reached_with g profile outs target).decisions ≡ (
            (observed p (lossless_kept g profile) || observed p (encoded_kept g profile))
            || writes p outs)
    left_reached outs target =
        simp (any_b-append, left-keeps, left-encodes, left-deletes) (ground arith)

    gone_reached :
        (outs : List Output) (target : Bytes)
        → gone p (reached_with g profile outs target).decisions ≡ (
            observed p g.files
            && not (
                (observed p (lossless_kept g profile) || observed p (encoded_kept g profile))
                || bytes_beq p target))
    gone_reached outs target =
        simp (any_b-append, gone-keeps, gone-encodes, gone-deletes, observed-spared)
          (rw kept_paths_lem refl)

-- `k` kept, `o` observed, `l` written by the lossless lane, `n` the encoded lane writes, `t` its
-- target.
exact_core :
    (k o l n t : Bool)
    → (k ≡ true → o ≡ true)
    → (l ≡ true → o ≡ false)
    → (n ≡ false → t ≡ true → o ≡ false)
    → (k || (l || (n && t))) ≡ ((o || (l || (n && t))) && not (o && not (k || t)))
exact_core k o l n t kept fresh unnamed = ground arith

or_cases : (a b : Bool) → (a || b) ≡ true → (a ≡ true) ⊎ (b ≡ true)
or_cases a b h = ground arith

and_left : (a b : Bool) → (a && b) ≡ true → a ≡ true
and_left a b h = ground arith

and_right : (a b : Bool) → (a && b) ≡ true → b ≡ true
and_right a b h = ground arith

-- Without an encoded output the target is empty, and no file has the empty path.
no_target :
    (n : Bool) (spec : Option AudioOutputSpec) (src : Option GroupedFile) (below : List GroupedFile)
    (p : Bytes) (files : List GroupedFile)
    → observed [] files ≡ false
    → n ≡ false
    → bytes_beq p (replaced_by n spec src below) ≡ true
    → observed p files ≡ false
no_target true spec src below p files named e t = cc
no_target false spec src below p files named e t = ground (arith, bytes_beq_iff p [])

module _ (p : Bytes) (g : StemGroup) (profile : DesiredProfile) (occupied : List Bytes)
    (fits : Fits g occupied) where
  unmet-Agrees : Agrees g profile occupied (unmet_stem g profile) p
  unfolding any_b
  unmet-Agrees =
      let reason : GroupedFile → Reason = λ f. unmet_reason f profile in
      let l = left-keeps p reason g.files in
      let e = gone-keeps p reason g.files in
      record {
        exact = λ _. ground arith;
        removes_own = λ h. cc;
        writes_own = λ h. cc;
        keeps_only = refl;
      }

  module _
      (have : (needs_lossless g profile || needs_encoded g profile) ≡ true
        → is_some (source_of g profile) ≡ true)
      (free : is_free g occupied
          (needs_encoded g profile)
          (replaced g profile (source_of g profile))
        ≡ true) where
    abbrev target : Bytes
    target = replaced g profile (source_of g profile)

    writes_lem :
        writes p (outputs g profile (source_of g profile))
        ≡ (writes p (lossless_outputs g profile) || (needs_encoded g profile && bytes_beq p target))
    writes_lem = rw (any_b-append (λ o. bytes_beq o.target p) (lossless_outputs g profile)) (
        rw
          (encoded_writes p (needs_encoded g profile) profile.encoded (source_of g profile)
            (encoded_below g profile) (ground arith))
          refl)

    target_own :
        needs_encoded g profile ≡ true
        → elem target occupied ≡ true
        → observed target g.files ≡ true
    unfolding stem_owns
    target_own n e = ground arith

    fresh_lem :
        overwrites g profile occupied p ≡ false
        → writes p (lossless_outputs g profile) ≡ true
        → observed p g.files ≡ false
    fresh_lem clear w = ground (arith, fits.listed p)

    reached-Agrees : Agrees g profile occupied (reached_stem g profile) p
    reached-Agrees =
        let outs = outputs g profile (source_of g profile) in
        let l = left_reached p g profile outs target in
        let e = gone_reached p g profile outs target in
        let m = made-ops p g.stem outs in
        record {
          exact = λ clear.
              rw (l, e, m, writes_lem)
                (exact_core _ _ _ _ _ (kept_observed p g profile) (fresh_lem clear) (
                  no_target (needs_encoded g profile) profile.encoded (source_of g profile)
                    (encoded_below g profile) p g.files fits.named));
          removes_own = λ h. ground (arith, e);
          writes_own = λ w k.
              let both : (writes p (lossless_outputs g profile)
                    || (needs_encoded g profile && bytes_beq p target))
                  ≡ true =
                rw (m, writes_lem) at w in
              elim (or_cases (writes p (lossless_outputs g profile)) _ both) [
                | inl lane ↦ ground (arith, lane, k)
                | inr own ↦
                    let same = (bytes_beq_iff p target).0 (and_right _ _ own) in
                    let mine : observed p g.files ≡ true =
                      rw same (target_own (and_left _ _ own) (rw same at k)) in
                    rw mine refl
              ];
          keeps_only = dropped-ops p g.stem outs;
        }

-- For an unblocked stem whose files have paths among the entries, at every path: unless the
-- lossless lane would write over an entry there, the decisions leave it exactly when it is an
-- observed file or output of the stem and they do not remove it; only the stem's own files are
-- removed; and an operation writes an entry's path only where it is the path of one of the stem's
-- own files or where the lossless lane writes over it.
pub stem-Agrees :
    (p : Bytes) (g : StemGroup) (profile : DesiredProfile) (occupied : List Bytes)
    → Fits g occupied
    → (lenient_stem g profile occupied).block_code ≡ none
    → Agrees g profile occupied (lenient_stem g profile occupied) p
stem-Agrees p g profile occupied fits open_ = elim (stem_cases g profile occupied) [
  | ambiguous n l code _ _ ↦ cc
  | conflict n t o code _ ↦ cc
  | unmet n s e ↦
      subst (λ d. Agrees g profile occupied d p) (sym e) (unmet-Agrees p g profile occupied fits)
  | reached have free e ↦
      subst (λ d. Agrees g profile occupied d p) (sym e)
        (reached-Agrees p g profile occupied fits have free)
]

pub stem-IsLocal :
    (g : StemGroup) (profile : DesiredProfile) (occupied : List Bytes)
    → (lenient_stem g profile occupied).block_code ≡ none
    → All IsLocal (lenient_stem g profile occupied).decisions
stem-IsLocal g profile occupied open_ = elim (stem_cases g profile occupied) [
  | ambiguous n l code _ _ ↦ cc
  | conflict n t o code _ ↦ cc
  | unmet n s e ↦ rw e (unmet-IsLocal g profile)
  | reached have free e ↦ rw e (
      reached-IsLocal g profile (outputs g profile (source_of g profile))
        (replaced g profile (source_of g profile)))
]
