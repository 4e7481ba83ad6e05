-- ===== src/Reconcile/Lenient/Component/Loop.antt =====
-- The loop over the stems of a component, as sums over its groups.
use dorganizer.Prelude.{
  Bool, false, ◌&&◌, ◌||◌, List, [], ◌∷◌, ◌++◌, map, none, Bytes, All, any_b, any_b-append, ◌≡◌,
  refl, arith, Option-cases, inl, inr, append_assoc, append-nil,
}
use dorganizer.Reconcile.Types.{DesiredProfile, StemGroup}
use dorganizer.Reconcile.Outcome.{
  FileDecision, VariantDecision, Operation, dedupe_decisions, all_decisions,
}
use dorganizer.Reconcile.Effects.{left, gone, made, dropped, IsLocal, dedupe_same, removes}
use dorganizer.Reconcile.Lenient.{lenient_stem}
use dorganizer.Reconcile.Lenient.Component.{
  Gathered, gather, owned_by, append_targets, removals_of, removals,
}

all_decisions-append :
    (vs ws : List VariantDecision) → all_decisions (vs ++ ws) ≡ all_decisions vs ++ all_decisions ws
unfolding all_decisions
all_decisions-append [] ws = refl
all_decisions-append (v ∷ vs) ws = simp (all_decisions-append vs ws, append_assoc)

-- The removals drop exactly the paths that the decisions remove, and write nothing.
dropped-removals_of :
    (p id : Bytes) (targets : List Bytes) (stem : Bytes) (ds : List FileDecision)
    → (dropped p (removals_of id targets stem ds) ≡ gone p ds)
      × (made p (removals_of id targets stem ds) ≡ false)
unfolding removals_of any_b removes
dropped-removals_of p id targets stem [] = (refl, refl)
dropped-removals_of p id targets stem (d ∷ ds) =
    ground (arith, dropped-removals_of p id targets stem ds)

pub dropped-removals :
    (p id : Bytes) (targets : List Bytes) (vs : List VariantDecision)
    → (dropped p (removals id targets vs) ≡ gone p (all_decisions vs))
      × (made p (removals id targets vs) ≡ false)
unfolding removals all_decisions any_b
dropped-removals p id targets [] = (refl, refl)
dropped-removals p id targets (v ∷ vs) =
    let (a, b) = dropped-removals_of p id targets v.stem v.decisions in
    let (c, d) = dropped-removals p id targets vs in
    (rw (any_b-append, any_b-append) (rw (a, c) refl), rw any_b-append (rw (b, d) refl))

made-owned_by : (p id : Bytes) (ops : List Operation) → made p (map (owned_by id) ops) ≡ made p ops
unfolding any_b
made-owned_by p id [] = refl
made-owned_by p id (o ∷ ops) = rw (made-owned_by p id ops) refl

dropped-owned_by :
    (p id : Bytes) (ops : List Operation) → dropped p (map (owned_by id) ops) ≡ dropped p ops
unfolding any_b
dropped-owned_by p id [] = refl
dropped-owned_by p id (o ∷ ops) = rw (dropped-owned_by p id ops) refl

-- The decisions of a stem act on their own paths, and do not both leave and remove this one.
pub record IsTidy (p : Bytes) (ds : List FileDecision) : Type 0 where
  pub local : All IsLocal ds
  pub clean : (left p ds && gone p ds) ≡ false

chain : (r x y a b : Bool) → y ≡ (x || a) → r ≡ (y || b) → r ≡ (x || (a || b))
chain r x y a b h k = ground arith

module _ (id : Bytes) (profile : DesiredProfile) (occupied : List Bytes) (p : Bytes) where
  abbrev pub planned : StemGroup → Bool
  planned g = left p (lenient_stem g profile occupied).decisions

  abbrev pub cleared : StemGroup → Bool
  cleared g = gone p (lenient_stem g profile occupied).decisions

  abbrev pub written : StemGroup → Bool
  written g = made p (lenient_stem g profile occupied).ops

  abbrev pub lost : StemGroup → Bool
  lost g = dropped p (lenient_stem g profile occupied).ops

  -- What the loop adds to what it had gathered.
  pub record Sums (acc : Gathered) (gs : List StemGroup) (r : Gathered) : Type 0 where
    pub all_open : All (λ g. (lenient_stem g profile occupied).block_code ≡ none) gs
    pub left_sum :
        left p (all_decisions r.variants)
        ≡ (left p (all_decisions acc.variants) || any_b planned gs)
    pub gone_sum :
        gone p (all_decisions r.variants)
        ≡ (gone p (all_decisions acc.variants) || any_b cleared gs)
    pub made_sum : made p r.operations ≡ (made p acc.operations || any_b written gs)
    pub dropped_sum : dropped p r.operations ≡ (dropped p acc.operations || any_b lost gs)

  abbrev advance : Gathered → StemGroup → Gathered
  advance acc g =
      let d = lenient_stem g profile occupied in
      record {
        blocked = none;
        variants =
            acc.variants ++ record { stem = d.stem; decisions = dedupe_decisions d.decisions } ∷ [];
        operations = acc.operations ++ map (owned_by id) d.ops;
        targets = append_targets acc.targets d.targets;
      }

  gather_open :
      (acc : Gathered) (g : StemGroup) (gs : List StemGroup)
      → (gather id profile occupied acc (g ∷ gs)).blocked ≡ none
      → ((lenient_stem g profile occupied).block_code ≡ none)
        × (gather id profile occupied acc (g ∷ gs) ≡ gather id profile occupied (advance acc g) gs)
  unfolding gather
  gather_open acc g gs h = elim (Option-cases (lenient_stem g profile occupied).block_code) [
    | inl e ↦ (e, rw (e, gather) refl)
    | inr (r, e) ↦ cc (rw (e, gather) at h)
  ]

  Sums-advance :
      (acc : Gathered) (g : StemGroup)
      → IsTidy p (lenient_stem g profile occupied).decisions
      → (left p (all_decisions (advance acc g).variants)
          ≡ (left p (all_decisions acc.variants) || planned g))
        × (gone p (all_decisions (advance acc g).variants)
            ≡ (gone p (all_decisions acc.variants) || cleared g))
        × (made p (advance acc g).operations ≡ (made p acc.operations || written g))
        × (dropped p (advance acc g).operations ≡ (dropped p acc.operations || lost g))
  unfolding all_decisions
  Sums-advance acc g tidy =
      let (l, e) =
        dedupe_same p (lenient_stem g profile occupied).decisions tidy.local tidy.clean in
      (
        simp (all_decisions-append, any_b-append, append-nil, l) refl,
        simp (all_decisions-append, any_b-append, append-nil, e) refl,
        simp (any_b-append, made-owned_by) refl,
        simp (any_b-append, dropped-owned_by) refl,
      )

  Sums-nil : (acc : Gathered) → Sums acc [] (gather id profile occupied acc [])
  unfolding gather any_b
  Sums-nil acc = record {
    all_open = tt;
    left_sum = ground arith;
    gone_sum = ground arith;
    made_sum = ground arith;
    dropped_sum = ground arith;
  }

  Sums-cons :
      (acc : Gathered) (g : StemGroup) (gs : List StemGroup) {r : Gathered}
      → (lenient_stem g profile occupied).block_code ≡ none
      → IsTidy p (lenient_stem g profile occupied).decisions
      → Sums (advance acc g) gs r
      → Sums acc (g ∷ gs) r
  unfolding any_b
  Sums-cons acc g gs e tidy ih =
      let (l, c, m, d) = Sums-advance acc g tidy in
      record {
        all_open = (e, ih.all_open);
        left_sum = chain _ _ _ (planned g) _ l ih.left_sum;
        gone_sum = chain _ _ _ (cleared g) _ c ih.gone_sum;
        made_sum = chain _ _ _ (written g) _ m ih.made_sum;
        dropped_sum = chain _ _ _ (lost g) _ d ih.dropped_sum;
      }

  -- A loop that no stem ended adds what each stem contributes.
  pub gather-Sums :
      (acc : Gathered) (gs : List StemGroup)
      → All
          (λ g.
            (lenient_stem g profile occupied).block_code ≡ none
            → IsTidy p (lenient_stem g profile occupied).decisions)
          gs
      → (gather id profile occupied acc gs).blocked ≡ none
      → Sums acc gs (gather id profile occupied acc gs)
  gather-Sums acc [] tidy h = Sums-nil acc
  gather-Sums acc (g ∷ gs) (t, tidy) h =
      let (e, step) = gather_open acc g gs h in
      rw step (Sums-cons acc g gs e (t e) (gather-Sums (advance acc g) gs tidy (rw step at h)))
