-- ===== src/Reconcile/Sources.antt =====
-- What the encodes of a plan read: observed lossless files.
use dorganizer.Prelude.{
  Bool, true, false, ◌&&◌, ◌||◌, not, List, [], ◌∷◌, ◌++◌, Bytes, bytes_beq, any_b, any_b-append,
  filter_b, ◌≡◌, refl, arith,
}
use dorganizer.Prelude.Sorting.{any_b-sort_by}
use dorganizer.Reconcile.Types.{GroupedFile, StemGroup}
use dorganizer.Reconcile.Outcome.{Operation, operation_less, sort_operations}
use dorganizer.Reconcile.Effects.{is_encode, observed}
use dorganizer.Reconcile.Grouping.{group_at}
mod Relaxed
mod Declared
mod Lanes
pub mod Tables

-- An encode whose source is not the path of one of the files.
abbrev pub is_stray : List GroupedFile → Operation → Bool
is_stray files o = is_encode o.kind && not (observed o.source_path files)

abbrev pub strays : List GroupedFile → List Operation → Bool
strays files ops = any_b (is_stray files) ops

abbrev pub lossless_of : List GroupedFile → List GroupedFile
lossless_of files = filter_b (λ f. f.lossless) files

pub strays-append :
    (files : List GroupedFile) (xs ys : List Operation)
    → strays files xs ≡ false
    → strays files ys ≡ false
    → strays files (xs ++ ys) ≡ false
strays-append files xs ys h k = rw any_b-append (rw (h, k) refl)

pub strays-sort_operations :
    (files : List GroupedFile) (ops : List Operation)
    → strays files ops ≡ false
    → strays files (sort_operations ops) ≡ false
unfolding sort_operations
strays-sort_operations files ops h = rw (any_b-sort_by operation_less) h

pub strays-more :
    (small files : List GroupedFile) (ops : List Operation)
    → ((p : Bytes) → observed p small ≡ true → observed p files ≡ true)
    → strays small ops ≡ false
    → strays files ops ≡ false
unfolding any_b
strays-more small files [] h k = refl
strays-more small files (o ∷ ops) h k =
    ground (arith, h o.source_path, strays-more small files ops h)

-- The lossless files of a stem are lossless files of its component.
pub lossless_group :
    (p : Bytes) (files : List GroupedFile) (s : Bytes)
    → observed p (lossless_of (group_at files s).files) ≡ true
    → observed p (lossless_of files) ≡ true
unfolding any_b filter_b
lossless_group p [] s h = h
lossless_group p (f ∷ files) s h = ground (arith, lossless_group p files s)
