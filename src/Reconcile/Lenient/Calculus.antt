-- ===== src/Reconcile/Lenient/Calculus.antt =====
-- The effects on one path of the decisions and operations of a stem of the relaxed table.
use dorganizer.Prelude.{
  Bool, false, ◌&&◌, ◌||◌, not, List, [], ◌∷◌, Bytes, bytes_beq, bytes_beq_iff, All, All-append,
  any_b, filter_b, map, ◌≡◌, refl, arith,
}
use dorganizer.Prelude.Member.{elem}
use dorganizer.Reconcile.Types.{DesiredProfile, GroupedFile, StemGroup}
use dorganizer.Reconcile.Outcome.{keep_lossless_target, Reason}
use dorganizer.Reconcile.Effects.{leaves, removes, left, gone, observed, made, dropped, IsLocal}
use dorganizer.Reconcile.Lenient.{lossless_kept, encoded_kept, unmet_reason}
use dorganizer.Reconcile.Lenient.Steps.{keep_decision, delete_decision, spared}
use dorganizer.Reconcile.Lenient.Outputs.{
  Output, encode_decision, encode_op, removed_files, reached_with, keep_decisions, unmet_stem,
}

leaves-encode : (p : Bytes) (o : Output) → leaves p (encode_decision o) ≡ bytes_beq o.target p
unfolding leaves
leaves-encode p o = ground arith

module _ (p : Bytes) where
  pub left-keeps :
      (reason : GroupedFile → Reason) (fs : List GroupedFile)
      → left p (map (λ f. keep_decision f.path_posix (reason f)) fs) ≡ observed p fs
  unfolding any_b leaves
  left-keeps reason [] = refl
  left-keeps reason (f ∷ fs) = rw (left-keeps reason fs) refl

  pub gone-keeps :
      (reason : GroupedFile → Reason) (fs : List GroupedFile)
      → gone p (map (λ f. keep_decision f.path_posix (reason f)) fs) ≡ false
  unfolding any_b removes
  gone-keeps reason [] = refl
  gone-keeps reason (f ∷ fs) = gone-keeps reason fs

  pub left-deletes : (fs : List GroupedFile) → left p (map delete_decision fs) ≡ false
  unfolding any_b leaves
  left-deletes [] = refl
  left-deletes (f ∷ fs) = left-deletes fs

  pub gone-deletes : (fs : List GroupedFile) → gone p (map delete_decision fs) ≡ observed p fs
  unfolding any_b removes
  gone-deletes [] = refl
  gone-deletes (f ∷ fs) = rw (gone-deletes fs) refl

  abbrev pub writes : List Output → Bool
  writes outs = any_b (λ o. bytes_beq o.target p) outs

  pub left-encodes : (outs : List Output) → left p (map encode_decision outs) ≡ writes outs
  unfolding any_b
  left-encodes [] = refl
  left-encodes (o ∷ outs) = rw (left-encodes outs, leaves-encode p o) refl

  pub gone-encodes : (outs : List Output) → gone p (map encode_decision outs) ≡ false
  unfolding any_b removes
  gone-encodes [] = refl
  gone-encodes (o ∷ outs) = gone-encodes outs

  pub made-ops :
      (stem : Bytes) (outs : List Output) → made p (map (encode_op stem) outs) ≡ writes outs
  unfolding any_b
  made-ops stem [] = refl
  made-ops stem (o ∷ outs) = rw (made-ops stem outs) refl

  pub dropped-ops :
      (stem : Bytes) (outs : List Output) → dropped p (map (encode_op stem) outs) ≡ false
  unfolding any_b
  dropped-ops stem [] = refl
  dropped-ops stem (o ∷ outs) = dropped-ops stem outs

  -- The removed files are the stem's, but for the spared paths.
  pub observed-spared :
      (kept : List Bytes) (target : Bytes) (fs : List GroupedFile)
      → observed p (filter_b (λ f. not (spared kept target f)) fs)
        ≡ (observed p fs && not (elem p kept || bytes_beq p target))
  unfolding any_b filter_b
  observed-spared kept target [] = refl
  observed-spared kept target (f ∷ fs) =
      ground (arith, bytes_beq_iff f.path_posix p, observed-spared kept target fs)

module _ (reason : GroupedFile → Reason) where
  keeps-IsLocal :
      (fs : List GroupedFile) → All IsLocal (map (λ f. keep_decision f.path_posix (reason f)) fs)
  unfolding leaves
  keeps-IsLocal [] = tt
  keeps-IsLocal (f ∷ fs) = (λ p. refl, keeps-IsLocal fs)

encodes-IsLocal : (outs : List Output) → All IsLocal (map encode_decision outs)
encodes-IsLocal [] = tt
encodes-IsLocal (o ∷ outs) = (λ p. leaves-encode p o, encodes-IsLocal outs)

deletes-IsLocal : (fs : List GroupedFile) → All IsLocal (map delete_decision fs)
unfolding leaves
deletes-IsLocal [] = tt
deletes-IsLocal (f ∷ fs) = (λ p. refl, deletes-IsLocal fs)

pub reached-IsLocal :
    (g : StemGroup) (profile : DesiredProfile) (outs : List Output) (target : Bytes)
    → All IsLocal (reached_with g profile outs target).decisions
reached-IsLocal g profile outs target =
    All-append IsLocal (keep_decisions g profile) _
      (All-append IsLocal
        (map (λ f. keep_decision f.path_posix keep_lossless_target) (lossless_kept g profile)) _
        (keeps-IsLocal _ (lossless_kept g profile)) (keeps-IsLocal _ (encoded_kept g profile)))
      (All-append IsLocal (map encode_decision outs) _ (encodes-IsLocal outs)
        (deletes-IsLocal (removed_files g profile target)))

pub unmet-IsLocal :
    (g : StemGroup) (profile : DesiredProfile) → All IsLocal (unmet_stem g profile).decisions
unmet-IsLocal g profile = keeps-IsLocal (λ f. unmet_reason f profile) g.files
