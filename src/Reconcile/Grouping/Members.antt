-- ===== src/Reconcile/Grouping/Members.antt =====
-- What holds of every file that the search starts with holds of every file of the components.
use dorganizer.Prelude.{
  ℕ, zero, suc, Bool, not, List, [], ◌∷◌, ◌++◌, Option, none, some, length, filter_b, All,
  All-append, All-mem, Option-cases, Bool-cases, inl, inr, Memᴰ,
}
use dorganizer.Prelude.Counting.{All-sort_by}
use dorganizer.Reconcile.Types.{AudioEntry, GroupedFile}
use dorganizer.Reconcile.Grouping.{Runtime, Component, parse_files}
use dorganizer.Reconcile.Grouping.Components.{
  same_parent, same_stem, after_parents, found_by, still_unvisited, search_from, path_less,
  components_from, build_components,
}

module _ (P : GroupedFile → Type 0) where
  All-filter_b : (q : GroupedFile → Bool) (fs : List GroupedFile) → All P fs → All P (filter_b q fs)
  unfolding filter_b
  All-filter_b q [] h = tt
  All-filter_b q (f ∷ fs) (h, hs) = elim (Bool-cases (q f)) [
    | inl e ↦ rw (filter_b, e) (h, All-filter_b q fs hs)
    | inr e ↦ rw (filter_b, e) (All-filter_b q fs hs)
  ]

  -- Both lists that a search answers, if it does.
  abbrev Within : Option (List GroupedFile × List GroupedFile) → Type 0
  Within none = Unit
  Within (some r) = All P r.0 × All P r.1

  search_from-Within :
      (fuel : ℕ) (queue unvisited found : List GroupedFile)
      → All P queue
      → All P unvisited
      → All P found
      → Within (search_from fuel queue unvisited found)
  unfolding search_from
  search_from-Within fuel [] us fs hq hu hf = (hf, hu)
  search_from-Within zero (f ∷ queue) us fs hq hu hf = tt
  search_from-Within (suc fuel) (f ∷ queue) us fs (h, hq) hu hf =
      let left = All-filter_b (λ g. not (same_parent f g)) us hu in
      search_from-Within fuel (queue ++ found_by f us) (still_unvisited f us) (fs ++ f ∷ [])
        (All-append P queue (found_by f us) hq (
          All-append P _ _ (All-filter_b (same_parent f) us hu)
            (All-filter_b (same_stem f) (after_parents f us) left)))
        (All-filter_b (λ g. not (same_stem f g)) (after_parents f us) left)
        (All-append P fs (f ∷ []) hf (h, tt))

  components_from-All :
      (fuel : ℕ) (files : List GroupedFile)
      → All P files
      → All (λ c. All P c.files) (components_from fuel files)
  unfolding components_from
  components_from-All fuel [] h = tt
  components_from-All zero (f ∷ fs) h = tt
  components_from-All (suc fuel) (f ∷ fs) (h, hs) =
      let w = search_from-Within (suc (length fs)) (f ∷ []) fs [] (h, tt) hs tt in
      elim (Option-cases (search_from (suc (length fs)) (f ∷ []) fs [])) [
        | inl e ↦ rw (components_from, e) tt
        | inr ((found, rest), e) ↦
            let (a, b) = rw e at w in
            rw (components_from, e)
              (All-sort_by path_less P found a, components_from-All fuel rest b)
      ]

  pub build_components-All :
      (rt : Runtime) (entries : List AudioEntry) (c : Component)
      → All P (parse_files rt entries)
      → Memᴰ c (build_components rt entries)
      → All P c.files
  unfolding build_components
  build_components-All rt entries c h m =
      All-mem (λ c. All P c.files) (build_components rt entries)
        (components_from-All (length (parse_files rt entries)) (parse_files rt entries) h) m
