-- ===== src/Reconcile/Lenient/Contract/Free.antt =====
-- The contract of a stem of the relaxed table where its lossless lane writes over no entry.
use dorganizer.Prelude.{
  true, false, ◌&&◌, ◌||◌, not, List, [], ◌∷◌, none, Bytes, bytes_beq_iff, any_b, ◌≡◌, arith,
}
use dorganizer.Prelude.Member.{elem}
use dorganizer.Reconcile.Types.{DesiredProfile, StemGroup}
use dorganizer.Reconcile.Effects.{left, gone, observed, made, dropped}
use dorganizer.Reconcile.Lenient.{StemDecision, lenient_stem}
use dorganizer.Reconcile.Lenient.Outputs.{Output}
use dorganizer.Reconcile.Lenient.Calculus.{writes}
use dorganizer.Reconcile.Lenient.Contract.{lossless_outputs, overwrites, Fits, stem-Agrees}

-- A stem that fits and, which the code does not check, finds the targets of its lossless lane free.
pub record FitsFree (g : StemGroup) (profile : DesiredProfile) (occupied : List Bytes)
    : Type 0 where
  pub fits : Fits g occupied
  pub fresh : any_b (λ o. elem o.target occupied) (lossless_outputs g profile) ≡ false

-- The effects of a stem agree, without a reservation for the lossless lane.
pub record AgreesFully (g : StemGroup) (occupied : List Bytes) (d : StemDecision) (p : Bytes)
    : Type 0 where
  pub exact :
      left p d.decisions ≡ ((observed p g.files || made p d.ops) && not (gone p d.decisions))
  pub removes_own : gone p d.decisions ≡ true → observed p g.files ≡ true
  pub writes_own : made p d.ops ≡ true → elem p occupied ≡ true → observed p g.files ≡ true
  pub keeps_only : dropped p d.ops ≡ false

writes_fresh :
    (p : Bytes) (occupied : List Bytes) (outs : List Output)
    → any_b (λ o. elem o.target occupied) outs ≡ false
    → writes p outs ≡ true
    → elem p occupied ≡ false
unfolding any_b
writes_fresh p occupied [] h w = cc
writes_fresh p occupied (o ∷ outs) h w =
    ground (arith, bytes_beq_iff o.target p, writes_fresh p occupied outs)

clear_lem :
    (p : Bytes) (g : StemGroup) (profile : DesiredProfile) (occupied : List Bytes)
    → FitsFree g profile occupied
    → overwrites g profile occupied p ≡ false
clear_lem p g profile occupied f =
    ground (arith, writes_fresh p occupied (lossless_outputs g profile) f.fresh)

pub stem-AgreesFully :
    (p : Bytes) (g : StemGroup) (profile : DesiredProfile) (occupied : List Bytes)
    → FitsFree g profile occupied
    → (lenient_stem g profile occupied).block_code ≡ none
    → AgreesFully g occupied (lenient_stem g profile occupied) p
stem-AgreesFully p g profile occupied f open_ =
    let a = stem-Agrees p g profile occupied f.fits open_ in
    let clear = clear_lem p g profile occupied f in
    record {
      exact = a.exact clear;
      removes_own = a.removes_own;
      writes_own = λ m e. ground (arith, a.writes_own m e);
      keeps_only = a.keeps_only;
    }
