-- ===== src/Workset/Selection.antt =====
-- normalizeSelection of workset/execution.go: the folders that an execution is scoped to, as frozen.
use dorganizer.Prelude.{
  true, ◌&&◌, ◌||◌, not, List, [], ◌∷◌, Bytes, bytes_beq_iff, is_nil, any_b, if◌then◌else◌, ◌==◌,
  bytes_eq, ◌≡◌, refl, ◌∙◌, arith, Bool-cases, inl, inr,
}
use dorganizer.Prelude.Member.{elem, nodup_b, elem-sort_strings, nodup-sort_strings}
use dorganizer.Prelude.Sorting.{sort_strings}

module _ (trim_space : Bytes → Bytes) where
  -- The loop, with the texts seen so far, which are those of the result so far.
  unfoldable pub select : List Bytes → List Bytes → List Bytes
  select seen [] = []
  select seen (path ∷ paths) =
      let trimmed = trim_space path in
      let skipped = select seen paths in
      let taken = trimmed ∷ select (trimmed ∷ seen) paths in
      if is_nil trimmed || elem trimmed seen then skipped else taken

  unfoldable pub normalize_selection : List Bytes → List Bytes
  unfolding select
  normalize_selection paths = sort_strings (select [] paths)

  elem-select :
      (t : Bytes) (seen paths : List Bytes)
      → elem t (select seen paths)
        ≡ (not (is_nil t) && (not (elem t seen) && any_b (λ p. trim_space p == t) paths))
  unfolding select elem any_b
  elem-select t seen [] = ground arith
  elem-select t seen (p ∷ ps) = elim (Bool-cases (trim_space p == t)) [
    | inl e ↦
        let same : trim_space p ≡ t = ground (arith, bytes_beq_iff (trim_space p) t) in
        rw same
          (ground (arith, elem-select t seen ps, elem-select t (t ∷ seen) ps, bytes_beq_iff t t))
    | inr e ↦ ground (
      arith,
      elem-select t seen ps,
      elem-select t (trim_space p ∷ seen) ps,
      bytes_beq_iff t (trim_space p),
      bytes_beq_iff (trim_space p) t,
    )
  ]

  nodup-select : (seen paths : List Bytes) → nodup_b (select seen paths) ≡ true
  unfolding select nodup_b elem
  nodup-select seen [] = refl
  nodup-select seen (p ∷ ps) = ground (
    arith,
    nodup-select seen ps,
    nodup-select (trim_space p ∷ seen) ps,
    elem-select (trim_space p) (trim_space p ∷ seen) ps,
    bytes_beq_iff (trim_space p) (trim_space p),
  )

  -- The frozen selection holds each text once that some listed path trims to, and nothing else; a
  -- blank path adds nothing.
  pub normalize_selection_lem :
      (paths : List Bytes)
      → (nodup_b (normalize_selection paths) ≡ true)
        × ((t : Bytes)
            → elem t (normalize_selection paths)
              ≡ (not (is_nil t) && any_b (λ p. trim_space p == t) paths))
  unfolding normalize_selection elem
  normalize_selection_lem paths = (
    nodup-sort_strings (select [] paths) (nodup-select [] paths),
    λ t. elem-sort_strings t (select [] paths) ∙ elem-select t [] paths,
  )
