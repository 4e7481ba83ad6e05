-- ===== src/Reconcile/Effects.antt =====
-- What a plan does to the set of files, independently of how it was made: the decisions say which
-- paths stay, the operations say which paths are written and removed.
use dorganizer.Prelude.{
  Bool, true, false, ◌&&◌, not, List, [], ◌∷◌, Option, none, some, Bytes, bytes_beq, bytes_beq_iff,
  All, any_b, filter_b, map, ◌≡◌, refl, arith, ◌||◌,
}
use dorganizer.Prelude.Member.{elem, elem-append}
use dorganizer.Reconcile.Types.{GroupedFile}
use dorganizer.Reconcile.Outcome.{
  delete, FileDecision, op_encode, op_remove_obsolete, OpKind, Operation, Resolution,
  projected_path, dedupe_from, dedupe_decisions, append_unique,
}

abbrev pub is_delete : Resolution → Bool
is_delete delete = true
is_delete _ = false

abbrev pub is_encode : OpKind → Bool
is_encode op_encode = true
is_encode op_remove_obsolete = false

abbrev pub is_path : Bytes → Option Bytes → Bool
is_path p none = false
is_path p (some q) = bytes_beq q p

-- The decision keeps or produces the path.
unfoldable pub leaves : Bytes → FileDecision → Bool
unfolding projected_path
leaves p d = is_path p (projected_path d)

unfoldable pub removes : Bytes → FileDecision → Bool
removes p d = is_delete d.resolution && bytes_beq d.path p

abbrev pub left : Bytes → List FileDecision → Bool
left p ds = any_b (leaves p) ds

abbrev pub gone : Bytes → List FileDecision → Bool
gone p ds = any_b (removes p) ds

-- The path is that of an observed file.
abbrev pub observed : Bytes → List GroupedFile → Bool
observed p files = any_b (λ f. bytes_beq f.path_posix p) files

-- An operation writes the path, or removes it.
abbrev pub made : Bytes → List Operation → Bool
made p ops = any_b (λ o. is_encode o.kind && bytes_beq o.target_path p) ops

abbrev pub dropped : Bytes → List Operation → Bool
dropped p ops = any_b (λ o. not (is_encode o.kind) && bytes_beq o.source_path p) ops

-- Decisions whose only effect is on their own path, as every decision of the relaxed table is.
abbrev pub IsLocal : FileDecision → Type 0
IsLocal d = (p : Bytes) → leaves p d ≡ (not (is_delete d.resolution) && bytes_beq d.path p)

module _ (p : Bytes) where
  dedupe_from_hidden :
      (seen : List Bytes) (ds : List FileDecision)
      → elem p seen ≡ true
      → All IsLocal ds
      → (left p (dedupe_from seen ds) ≡ false) × (gone p (dedupe_from seen ds) ≡ false)
  unfolding dedupe_from any_b removes elem
  dedupe_from_hidden seen [] h loc = (refl, refl)
  dedupe_from_hidden seen (d ∷ ds) h (l, loc) = ground (
    arith,
    l p,
    bytes_beq_iff d.path p,
    dedupe_from_hidden seen ds h loc,
    dedupe_from_hidden (d.path ∷ seen) ds,
  )

  dedupe_from_same :
      (seen : List Bytes) (ds : List FileDecision)
      → elem p seen ≡ false
      → All IsLocal ds
      → (left p ds && gone p ds) ≡ false
      → (left p (dedupe_from seen ds) ≡ left p ds) × (gone p (dedupe_from seen ds) ≡ gone p ds)
  unfolding dedupe_from any_b removes elem
  dedupe_from_same seen [] h loc clean = (refl, refl)
  dedupe_from_same seen (d ∷ ds) h (l, loc) clean = ground (
    arith,
    l p,
    bytes_beq_iff d.path p,
    bytes_beq_iff p d.path,
    dedupe_from_same seen ds h loc,
    dedupe_from_same (d.path ∷ seen) ds,
    dedupe_from_hidden (d.path ∷ seen) ds,
  )

  -- Dropping repeated decisions changes no effect, where no path is both left and removed.
  pub dedupe_same :
      (ds : List FileDecision)
      → All IsLocal ds
      → (left p ds && gone p ds) ≡ false
      → (left p (dedupe_decisions ds) ≡ left p ds) × (gone p (dedupe_decisions ds) ≡ gone p ds)
  unfolding dedupe_decisions elem
  dedupe_same ds loc clean = dedupe_from_same [] ds refl loc clean

pub bytes_beq_comm : (s t : Bytes) → bytes_beq s t ≡ bytes_beq t s
bytes_beq_comm s t = ground (arith, bytes_beq_iff s t, bytes_beq_iff t s)

pub elem-paths :
    (p : Bytes) (files : List GroupedFile)
    → elem p (map (λ f. f.path_posix) files) ≡ observed p files
unfolding elem any_b
elem-paths p [] = refl
elem-paths p (f ∷ files) = rw (elem-paths p files, bytes_beq_comm p f.path_posix) refl

pub observed-filter :
    (p : Bytes) (q : GroupedFile → Bool) (files : List GroupedFile)
    → observed p (filter_b q files) ≡ true
    → observed p files ≡ true
unfolding any_b filter_b
observed-filter p q [] h = h
observed-filter p q (f ∷ files) h = ground (arith, observed-filter p q files)

pub elem-append_unique :
    (p q : Bytes) (l : List Bytes) → elem p (append_unique l q) ≡ (elem p l || bytes_beq q p)
unfolding append_unique elem
elem-append_unique p q l =
    ground (arith, bytes_beq_iff q p, bytes_beq_iff p q, elem-append p l (q ∷ []))
