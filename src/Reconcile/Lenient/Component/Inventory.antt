-- ===== src/Reconcile/Lenient/Component/Inventory.antt =====
-- The projected inventory of an actionable component is what its operations leave of its files.
use dorganizer.Prelude.{
  Bool, true, false, ◌&&◌, ◌||◌, not, List, [], ◌∷◌, ◌++◌, map, none, Bytes, bytes_beq, All, any_b,
  any_b-append, ◌≡◌, refl, arith, Option-cases, inl, inr, Bool-cases,
}
use dorganizer.Prelude.Member.{elem}
use dorganizer.Prelude.Sorting.{any_b-sort_by}
use dorganizer.Reconcile.Types.{Partition, DesiredProfile, StemGroup}
use dorganizer.Reconcile.Outcome.{
  status_ok, Operation, ComponentOutcome, all_decisions, projected_inventory_of, sort_operations,
  operation_less,
}
use dorganizer.Reconcile.Effects.{left, gone, made, dropped, observed, observed-filter}
use dorganizer.Reconcile.Grouping.{
  Runtime, Component, group_at, stems_of, stem_groups, component_id_of,
}
use dorganizer.Reconcile.Grouping.Stems.{SamePath, observed-stem_groups, stem_groups-Apart}
use dorganizer.Reconcile.Lenient.Contract.{lossless_outputs}
use dorganizer.Reconcile.Lenient.Contract.Free.{FitsFree}
use dorganizer.Reconcile.Lenient.Component.{
  Gathered, nothing_gathered, gather, removals, finish_component, lenient_component,
}
use dorganizer.Reconcile.Lenient.Component.Loop.{
  planned, cleared, written, lost, Sums, gather-Sums, dropped-removals,
}
use dorganizer.Reconcile.Lenient.Component.Exact.{elem-projected, together, tidy}

-- What a plan is exact for. The skeleton grants that every file has a path, which is among the
-- entries and determines its stem; that no entry stands where a stem's lossless lane would write is
-- a condition, which the code does not check.
pub record IsPlannable (profile : DesiredProfile) (c : Component) (occupied : List Bytes)
    : Type 0 where
  pub named : observed [] c.files ≡ false
  pub listed : (p : Bytes) → observed p c.files ≡ true → elem p occupied ≡ true
  pub same : SamePath c.files
  pub fresh :
      All
        (λ g. any_b (λ o. elem o.target occupied) (lossless_outputs g profile) ≡ false)
        (stem_groups c)

module _ (profile : DesiredProfile) (c : Component) (occupied : List Bytes) where
  FitsFree-at :
      (stems : List Bytes)
      → observed [] c.files ≡ false
      → ((p : Bytes) → observed p c.files ≡ true → elem p occupied ≡ true)
      → All
          (λ g. any_b (λ o. elem o.target occupied) (lossless_outputs g profile) ≡ false)
          (map (group_at c.files) stems)
      → All (λ g. FitsFree g profile occupied) (map (group_at c.files) stems)
  FitsFree-at [] named listed fresh = tt
  FitsFree-at (s ∷ ss) named listed (f, fresh) = (
    record {
      fits = record { named = unnamed; listed = λ p h. listed p (observed-filter p _ c.files h) };
      fresh = f;
    },
    FitsFree-at ss named listed fresh,
  )
    where
      unnamed : observed [] (group_at c.files s).files ≡ false
      unnamed = elim (Bool-cases (observed [] (group_at c.files s).files)) [
        | inl e ↦ cc (observed-filter [] (λ f. bytes_beq f.stem s) c.files e)
        | inr e ↦ e
      ]

  FitsFree-All :
      IsPlannable profile c occupied → All (λ g. FitsFree g profile occupied) (stem_groups c)
  unfolding stem_groups
  FitsFree-All h = FitsFree-at (stems_of c.files) h.named h.listed h.fresh

module _ (p : Bytes) (ops more : List Operation) where
  made-sort_operations : made p (sort_operations (ops ++ more)) ≡ (made p ops || made p more)
  unfolding sort_operations
  made-sort_operations = rw (any_b-sort_by operation_less, any_b-append) refl

  dropped-sort_operations :
      dropped p (sort_operations (ops ++ more)) ≡ (dropped p ops || dropped p more)
  unfolding sort_operations
  dropped-sort_operations = rw (any_b-sort_by operation_less, any_b-append) refl

-- A loop that starts with nothing gathers the sums themselves.
from_nothing :
    (id : Bytes) (profile : DesiredProfile) (occupied : List Bytes) (p : Bytes)
    (gs : List StemGroup) (r : Gathered)
    → Sums id profile occupied p nothing_gathered gs r
    → (left p (all_decisions r.variants) ≡ any_b (planned id profile occupied p) gs)
      × (gone p (all_decisions r.variants) ≡ any_b (cleared id profile occupied p) gs)
      × (made p r.operations ≡ any_b (written id profile occupied p) gs)
      × (dropped p r.operations ≡ any_b (lost id profile occupied p) gs)
unfolding any_b all_decisions
from_nothing id profile occupied p gs r s = (s.left_sum, s.gone_sum, s.made_sum, s.dropped_sum)

exact_at_end :
    (l g m d planned_ cleared_ written_ lost_ seen observed_ rm rd : Bool)
    → (l ≡ planned_) × (g ≡ cleared_) × (m ≡ written_) × (d ≡ lost_)
    → planned_ ≡ ((seen || written_) && not cleared_)
    → lost_ ≡ false
    → seen ≡ observed_
    → rd ≡ g
    → rm ≡ false
    → l ≡ ((observed_ || (m || rm)) && not (d || rd))
exact_at_end l g m d x c w y s o rm rd h e k q u v = ground arith

module _ (rt : Runtime) (root : Bytes) (partition : Partition) (profile : DesiredProfile)
    (c : Component) (occupied : List Bytes) where
  abbrev outcome : ComponentOutcome
  outcome = lenient_component rt root partition profile c occupied

  abbrev gathered : Gathered
  gathered =
      gather (component_id_of rt root partition c) profile occupied nothing_gathered (stem_groups c)

  -- An actionable outcome ends the loop without a block.
  outcome_open :
      outcome.status ≡ status_ok
      → (gathered.blocked ≡ none)
        × (outcome.projected_inventory ≡ projected_inventory_of gathered.variants)
        × (outcome.operations
            ≡ sort_operations (
                gathered.operations
                ++ removals
                    (component_id_of rt root partition c)
                    gathered.targets
                    gathered.variants))
  unfolding lenient_component
  outcome_open ok = elim (Option-cases gathered.blocked) [
    | inl e ↦ (e, rw (e, finish_component) refl, rw (e, finish_component) refl)
    | inr (r, e) ↦ cc (rw (e, finish_component) at ok)
  ]

  -- In an actionable outcome of the relaxed table for a component whose files are listed and whose
  -- lossless targets are free, a path is in the projected inventory exactly when it is an observed
  -- file or an encode writes it, and no operation removes it.
  pub lenient_exact :
      IsPlannable profile c occupied
      → outcome.status ≡ status_ok
      → (p : Bytes)
      → elem p outcome.projected_inventory
        ≡ ((observed p c.files || made p outcome.operations) && not (dropped p outcome.operations))
  lenient_exact h ok p =
      let (open_, inventory, operations) = outcome_open ok in
      let id = component_id_of rt root partition c in
      let sums =
        gather-Sums id profile occupied p nothing_gathered (stem_groups c)
          (tidy id profile occupied p (stem_groups c) (FitsFree-All profile c occupied h)) open_ in
      let all =
        together id profile occupied p (stem_groups c) (FitsFree-All profile c occupied h)
          (stem_groups-Apart p c h.same) sums.all_open in
      let (d, m) = dropped-removals p id gathered.targets gathered.variants in
      rw
        (
          inventory,
          operations,
          elem-projected p gathered.variants,
          made-sort_operations p gathered.operations,
          dropped-sort_operations p gathered.operations,
        )
        (exact_at_end _ _ _ _ _ _ _ _ _ _ _ _
          (from_nothing id profile occupied p (stem_groups c) gathered sums) all.exact
          all.keeps_only (observed-stem_groups p c) d m)
