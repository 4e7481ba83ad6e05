-- ===== src/Reconcile/Lenient/Component/Exact.antt =====
-- The projected inventory of an actionable component is what its operations leave of its files.
use dorganizer.Prelude.{
  Bool, true, false, ◌&&◌, ◌||◌, not, List, [], ◌∷◌, Option, none, some, Bytes, All, any_b, ◌≡◌,
  refl, arith,
}
use dorganizer.Prelude.Member.{elem, elem-sort_strings}
use dorganizer.Reconcile.Types.{DesiredProfile, StemGroup}
use dorganizer.Reconcile.Outcome.{
  FileDecision, VariantDecision, projected_path, note_path, collect_paths, all_decisions,
  projected_inventory_of,
}
use dorganizer.Reconcile.Effects.{elem-append_unique, left, observed, leaves, is_path}
use dorganizer.Reconcile.Grouping.Stems.{observed_in, Apart}
use dorganizer.Reconcile.Lenient.{lenient_stem}
use dorganizer.Reconcile.Lenient.Contract.{stem-IsLocal}
use dorganizer.Reconcile.Lenient.Contract.Free.{FitsFree, AgreesFully, stem-AgreesFully}
use dorganizer.Reconcile.Lenient.Component.Loop.{IsTidy, planned, cleared, written, lost}

elem-note_path :
    (p : Bytes) (paths : List Bytes) (o : Option Bytes)
    → elem p (note_path paths o) ≡ (elem p paths || is_path p o)
unfolding note_path
elem-note_path p paths none = ground arith
elem-note_path p paths (some q) = elem-append_unique p q paths

or_step : (a b c d e : Bool) → a ≡ (d || e) → d ≡ (b || c) → a ≡ (b || (c || e))
or_step a b c d e h k = ground arith

elem-collect_paths :
    (p : Bytes) (paths : List Bytes) (ds : List FileDecision)
    → elem p (collect_paths paths ds) ≡ (elem p paths || left p ds)
unfolding collect_paths any_b leaves
elem-collect_paths p paths [] = ground arith
elem-collect_paths p paths (d ∷ ds) =
    or_step _ _ _ _ _ (elem-collect_paths p (note_path paths (projected_path d)) ds)
      (elem-note_path p paths (projected_path d))

-- The projected inventory holds exactly the paths that the decisions leave.
pub elem-projected :
    (p : Bytes) (vs : List VariantDecision)
    → elem p (projected_inventory_of vs) ≡ left p (all_decisions vs)
unfolding projected_inventory_of elem
elem-projected p vs =
    rw (elem-sort_strings p (collect_paths [] (all_decisions vs)))
      (elem-collect_paths p [] (all_decisions vs))

-- One stem and the others: what each leaves, observes, writes and removes of one path.
exact_core :
    (l o m k l' o' m' k' e : Bool)
    → l ≡ ((o || m) && not k)
    → (k ≡ true → o ≡ true)
    → (m ≡ true → e ≡ true → o ≡ true)
    → l' ≡ ((o' || m') && not k')
    → (k' ≡ true → o' ≡ true)
    → (m' ≡ true → e ≡ true → o' ≡ true)
    → (o ≡ true → e ≡ true)
    → (o' ≡ true → e ≡ true)
    → (o ≡ true → o' ≡ false)
    → (l || l') ≡ (((o || o') || (m || m')) && not (k || k'))
exact_core l o m k l' o' m' k' e x r w x' r' w' i i' a = ground arith

never_both : (a b c : Bool) → a ≡ (c && not b) → (a && b) ≡ false
never_both a b c h = ground arith

module _ (id : Bytes) (profile : DesiredProfile) (occupied : List Bytes) (p : Bytes) where
  -- All stems together agree as each does.
  pub record Together (gs : List StemGroup) : Type 0 where
    pub exact : any_b (planned id profile occupied p) gs ≡ (
        (observed_in p gs || any_b (written id profile occupied p) gs)
        && not (any_b (cleared id profile occupied p) gs))
    pub removes_own : any_b (cleared id profile occupied p) gs ≡ true → observed_in p gs ≡ true
    pub writes_own :
        any_b (written id profile occupied p) gs ≡ true
        → elem p occupied ≡ true
        → observed_in p gs ≡ true
    pub keeps_only : any_b (lost id profile occupied p) gs ≡ false
    pub listed : observed_in p gs ≡ true → elem p occupied ≡ true

  Together-cons :
      (g : StemGroup) (gs : List StemGroup)
      → (observed p g.files ≡ true → elem p occupied ≡ true)
      → (observed p g.files ≡ true → observed_in p gs ≡ false)
      → AgreesFully g occupied (lenient_stem g profile occupied) p
      → Together gs
      → Together (g ∷ gs)
  unfolding any_b
  Together-cons g gs listed apart a t = record {
    exact =
        exact_core _ _ _ _ _ _ _ _ (elem p occupied) a.exact a.removes_own a.writes_own t.exact
          t.removes_own t.writes_own listed t.listed apart;
    removes_own = ground arith;
    writes_own = ground arith;
    keeps_only = ground arith;
    listed = ground arith;
  }

  Together-nil : Together []
  unfolding any_b
  Together-nil = record {
    exact = refl;
    removes_own = λ h. cc;
    writes_own = λ h _. cc;
    keeps_only = refl;
    listed = λ h. cc;
  }

  pub together :
      (gs : List StemGroup)
      → All (λ g. FitsFree g profile occupied) gs
      → Apart p gs
      → All (λ g. (lenient_stem g profile occupied).block_code ≡ none) gs
      → Together gs
  together [] fits apart open_ = Together-nil
  together (g ∷ gs) (f, fits) (a, apart) (o, open_) =
      Together-cons g gs (f.fits.listed p) a (stem-AgreesFully p g profile occupied f o)
        (together gs fits apart open_)

  pub tidy :
      (gs : List StemGroup)
      → All (λ g. FitsFree g profile occupied) gs
      → All
          (λ g.
            (lenient_stem g profile occupied).block_code ≡ none
            → IsTidy p (lenient_stem g profile occupied).decisions)
          gs
  tidy [] fits = tt
  tidy (g ∷ gs) (f, fits) = (
    λ o. record {
      local = stem-IsLocal g profile occupied o;
      clean = never_both _ _ _ (stem-AgreesFully p g profile occupied f o).exact;
    },
    tidy gs fits,
  )
