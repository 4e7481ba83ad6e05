-- ===== src/Reconcile/Grouping/Components.antt =====
-- conversion/reconcile/grouping.go, `BuildComponents`: breadth-first search over the relation
-- "same parent or same stem". `visited` is kept as the list of files that are not visited yet, in
-- their order, so a queue round takes out of it the files that `byParent` and `byStem` would find.
use dorganizer.Prelude.{
  ℕ, zero, suc, Bool, not, List, [], ◌∷◌, ◌++◌, Option, none, some, bytes_beq, bytes_ltb, length,
  filter_b,
}
use dorganizer.Prelude.Sorting.{sort_by}
use dorganizer.Reconcile.Types.{AudioEntry, GroupedFile}
use dorganizer.Reconcile.Grouping.{Runtime, Component, parse_files}

abbrev pub same_parent : GroupedFile → GroupedFile → Bool
same_parent f g = bytes_beq g.parent_path f.parent_path

abbrev pub same_stem : GroupedFile → GroupedFile → Bool
same_stem f g = bytes_beq g.stem f.stem

-- Both inner loops of one round: what they enqueue, and what stays unvisited.
abbrev pub after_parents : GroupedFile → List GroupedFile → List GroupedFile
after_parents f unvisited = filter_b (λ g. not (same_parent f g)) unvisited

abbrev pub found_by : GroupedFile → List GroupedFile → List GroupedFile
found_by f unvisited =
    filter_b (same_parent f) unvisited ++ filter_b (same_stem f) (after_parents f unvisited)

abbrev pub still_unvisited : GroupedFile → List GroupedFile → List GroupedFile
still_unvisited f unvisited = filter_b (λ g. not (same_stem f g)) (after_parents f unvisited)

-- `for len(queue) > 0`: the component's files in the order found, and the files left over. The
-- fuel counts the rounds; `none` means that it ran out.
unfoldable pub search_from :
    ℕ
    → List GroupedFile
    → List GroupedFile
    → List GroupedFile
    → Option (List GroupedFile × List GroupedFile)
search_from fuel [] unvisited found = some (found, unvisited)
search_from zero (f ∷ queue) unvisited found = none
search_from (suc fuel) (f ∷ queue) unvisited found =
    search_from fuel (queue ++ found_by f unvisited) (still_unvisited f unvisited) (found ++ f ∷ [])

abbrev pub path_less : GroupedFile → GroupedFile → Bool
path_less f g = bytes_ltb f.path_posix g.path_posix

-- The outer loop: each unvisited file opens a component.
unfoldable pub components_from : ℕ → List GroupedFile → List Component
components_from fuel [] = []
components_from zero (f ∷ fs) = []
components_from (suc fuel) (f ∷ fs) = elim (search_from (suc (length fs)) (f ∷ []) fs []) [
  | none ↦ []
  | some (found, rest) ↦ record { files = sort_by path_less found } ∷ components_from fuel rest
]

unfoldable pub build_components : Runtime → List AudioEntry → List Component
unfolding search_from components_from
build_components rt entries =
    let files = parse_files rt entries in components_from (length files) files
