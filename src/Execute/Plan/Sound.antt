-- ===== src/Execute/Plan/Sound.antt =====
-- The checks on conflicts and dependencies, against what they mean.
use dorganizer.Prelude.{
  Bool, true, false, ◌&&◌, ◌||◌, not, List, [], ◌∷◌, map, Bytes, bytes_beq_iff, any_b, ◌≡◌, refl,
  arith,
}
use dorganizer.Prelude.Member.{elem, nodup_b}
use dorganizer.Execute.Plan.{
  posix_form, target_of, PlannedEncode, PlannedRemove, PlannedComponent, Result, ok, refuse, ◌>>=◌,
  ◌>>◌, distinct_targets, sources_free, distinct_removals, validate_conflicts, depends_within,
  removals_depend, validate_dependencies,
}

abbrev pub passes : {A : Type 0} → Result A → Bool
passes (ok _) = true
passes (refuse _) = false

abbrev pub targets : PlannedComponent → List Bytes
targets p = map target_of p.encodes

abbrev pub removal_path : PlannedRemove → Bytes
removal_path r = posix_form r.source

any-elem-cons :
    (x : Bytes) (seen ts : List Bytes)
    → any_b (λ t. elem t (x ∷ seen)) ts ≡ (elem x ts || any_b (λ t. elem t seen) ts)
unfolding any_b elem
any-elem-cons x seen [] = refl
any-elem-cons x seen (t ∷ ts) =
    ground (arith, any-elem-cons x seen ts, bytes_beq_iff t x, bytes_beq_iff x t)

passes-distinct_targets :
    (seen : List Bytes) (encs : List PlannedEncode)
    → passes (distinct_targets seen encs)
      ≡ (nodup_b (map target_of encs) && not (any_b (λ t. elem t seen) (map target_of encs)))
unfolding distinct_targets nodup_b any_b
passes-distinct_targets seen [] = refl
passes-distinct_targets seen (enc ∷ encs) = ground (
  arith,
  passes-distinct_targets (target_of enc ∷ seen) encs,
  any-elem-cons (target_of enc) seen (map target_of encs),
)

-- The set that the first loop fills.
filled :
    (t : Bytes) (seen : List Bytes) (encs : List PlannedEncode) (ts : List Bytes)
    → distinct_targets seen encs ≡ ok ts
    → elem t ts ≡ (elem t seen || elem t (map target_of encs))
unfolding distinct_targets elem
filled t seen [] ts h = ground arith
filled t seen (enc ∷ encs) ts h = ground (arith, filled t (target_of enc ∷ seen) encs ts)

passes-sources_free :
    (ts : List Bytes) (encs : List PlannedEncode)
    → passes (sources_free ts encs) ≡ not (any_b (λ enc. elem (posix_form enc.source) ts) encs)
unfolding sources_free any_b
passes-sources_free ts [] = refl
passes-sources_free ts (enc ∷ encs) = ground (arith, passes-sources_free ts encs)

passes-distinct_removals :
    (ts seen : List Bytes) (rs : List PlannedRemove)
    → passes (distinct_removals ts seen rs) ≡ (
        not (any_b (λ r. elem (removal_path r) ts) rs)
        && (nodup_b (map removal_path rs) && not (any_b (λ t. elem t seen) (map removal_path rs))))
unfolding distinct_removals nodup_b any_b
passes-distinct_removals ts seen [] = refl
passes-distinct_removals ts seen (r ∷ rs) = ground (
  arith,
  passes-distinct_removals ts (removal_path r ∷ seen) rs,
  any-elem-cons (removal_path r) seen (map removal_path rs),
)

any-same {ℓ} :
    {A : Type ℓ} (f : A → Bytes) (ts us : List Bytes) (xs : List A)
    → ((t : Bytes) → elem t ts ≡ elem t us)
    → any_b (λ x. elem (f x) ts) xs ≡ any_b (λ x. elem (f x) us) xs
unfolding any_b
any-same f ts us [] h = refl
any-same f ts us (x ∷ xs) h = rw (h (f x), any-same f ts us xs h) refl

never-empty : (ts : List Bytes) → any_b (λ t. elem t []) ts ≡ false
unfolding any_b elem
never-empty [] = refl
never-empty (t ∷ ts) = never-empty ts

conflict_core :
    (p : PlannedComponent) (r : Result (List Bytes))
    → distinct_targets [] p.encodes ≡ r
    → passes (do ts ← r; sources_free ts p.encodes; distinct_removals ts [] p.removes) ≡ (
        nodup_b (targets p)
        && (not (any_b (λ enc. elem (posix_form enc.source) (targets p)) p.encodes)
            && (not (any_b (λ r. elem (removal_path r) (targets p)) p.removes)
                && nodup_b (map removal_path p.removes))))
unfolding elem
conflict_core p (refuse c) h =
    ground (arith, passes-distinct_targets [] p.encodes, never-empty (targets p))
conflict_core p (ok ts) h =
    let same : (t : Bytes) → elem t ts ≡ elem t (targets p) = λ t. filled t [] p.encodes ts h in
    ground (
      arith,
      passes-distinct_targets [] p.encodes,
      never-empty (targets p),
      passes-sources_free ts p.encodes,
      passes-distinct_removals ts [] p.removes,
      never-empty (map removal_path p.removes),
      any-same (λ (enc : PlannedEncode). posix_form enc.source) ts (targets p) p.encodes same,
      any-same removal_path ts (targets p) p.removes same,
    )

-- The conflict check passes exactly when no target occurs twice, no encode reads a target, no
-- removal takes a target, and no file is removed twice.
pub validate_conflicts_lem :
    (p : PlannedComponent)
    → passes (validate_conflicts p) ≡ (
        nodup_b (targets p)
        && (not (any_b (λ enc. elem (posix_form enc.source) (targets p)) p.encodes)
            && (not (any_b (λ r. elem (removal_path r) (targets p)) p.removes)
                && nodup_b (map removal_path p.removes))))
unfolding validate_conflicts
validate_conflicts_lem p = conflict_core p (distinct_targets [] p.encodes) refl

passes-depends_within :
    (ts deps : List Bytes)
    → passes (depends_within ts deps) ≡ not (any_b (λ d. not (elem d ts)) deps)
unfolding depends_within any_b
passes-depends_within ts [] = refl
passes-depends_within ts (d ∷ deps) = ground (arith, passes-depends_within ts deps)

-- A removal that depends on a path outside the list.
abbrev pub depends_outside : List Bytes → PlannedRemove → Bool
depends_outside ts r = any_b (λ d. not (elem d ts)) r.depends_on

passes-removals_depend :
    (ts : List Bytes) (rs : List PlannedRemove)
    → passes (removals_depend ts rs) ≡ not (any_b (depends_outside ts) rs)
unfolding removals_depend any_b
passes-removals_depend ts [] = refl
passes-removals_depend ts (r ∷ rs) =
    ground (arith, passes-depends_within ts r.depends_on, passes-removals_depend ts rs)

-- The dependency check passes exactly when every removal depends on targets only.
pub validate_dependencies_lem :
    (p : PlannedComponent)
    → passes (validate_dependencies p) ≡ not (any_b (depends_outside (targets p)) p.removes)
unfolding validate_dependencies
validate_dependencies_lem p = passes-removals_depend (targets p) p.removes
