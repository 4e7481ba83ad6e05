-- ===== src/Reconcile/Grouping/Search.antt =====
-- The breadth-first search of `BuildComponents`: its fuel is enough, it loses no file, and it
-- leaves no file that is linked to one it found.
use dorganizer.Prelude.{
  ℕ, zero, suc, ◌+◌, ◌≤◌, Bool, true, false, ◌||◌, List, [], ◌∷◌, ◌++◌, some, length, length-append,
  All, All-append, Memᴰ, Bool-cases, inl, inr, filter_b, any_b, any_b-append, ◌≡◌, refl, arith,
}
use dorganizer.Prelude.Counting.{count_b, count_b-append, count_b-filter_b, length-count_b}
use dorganizer.Reconcile.Types.{GroupedFile}
use dorganizer.Reconcile.Grouping.Components.{
  same_parent, same_stem, after_parents, found_by, still_unvisited, search_from,
}

-- Two files of one directory or of one stem.
abbrev pub linked : GroupedFile → GroupedFile → Bool
linked f g = same_parent f g || same_stem f g

-- No file of the first list is linked to one of the second.
abbrev pub cut : List GroupedFile → List GroupedFile → Bool
cut fs gs = any_b (λ f. any_b (linked f) gs) fs

-- A file is reached from another by links, every step of which leads to a file of the list.
pub data Chain (among : List GroupedFile) (from_file : GroupedFile) : GroupedFile → Type 0 where
  no_link : Chain among from_file from_file
  more :
      {f : GroupedFile} (g : GroupedFile)
      → Memᴰ g among
      → Chain among from_file f
      → linked f g ≡ true
      → Chain among from_file g

-- Every file of the second list is in the first.
abbrev pub Contains : List GroupedFile → List GroupedFile → Type 0
Contains among fs = All (λ f. Memᴰ f among) fs

All-append_inv :
    (P : GroupedFile → Type 0) (xs ys : List GroupedFile) → All P (xs ++ ys) → All P xs × All P ys
All-append_inv P [] ys h = (tt, h)
All-append_inv P (x ∷ xs) ys (h, hs) = let (k, ks) = All-append_inv P xs ys hs in ((h, k), ks)

module _ (among : List GroupedFile) (s : GroupedFile) where
  chained_filter :
      (q : GroupedFile → Bool)
      → ((g : GroupedFile) → Memᴰ g among → q g ≡ true → Chain among s g)
      → (us : List GroupedFile) → Contains among (filter_b q us)
      → All (Chain among s) (filter_b q us)
  unfolding filter_b
  chained_filter q h [] m = tt
  chained_filter q h (u ∷ us) m = elim (Bool-cases (q u)) [
    | inl e ↦
        let (here, there) = rw e at m in rw (filter_b, e) (h u here e, chained_filter q h us there)
    | inr e ↦ rw (filter_b, e) (chained_filter q h us (rw e at m))
  ]

  chained_found :
      (f : GroupedFile) (us : List GroupedFile)
      → Chain among s f
      → Contains among (found_by f us)
      → All (Chain among s) (found_by f us)
  chained_found f us c m =
      let (near, far) = All-append_inv (λ g. Memᴰ g among) _ _ m in
      All-append (Chain among s) _ _
        (chained_filter (same_parent f) (λ g i e. more g i c (ground arith)) us near)
        (chained_filter (same_stem f) (λ g i e. more g i c (ground arith)) (after_parents f us) far)

count-found_by :
    (q : GroupedFile → Bool) (f : GroupedFile) (us : List GroupedFile)
    → count_b q (found_by f us) + count_b q (still_unvisited f us) ≡ count_b q us
count-found_by q f us = ground (
  arith,
  count_b-append q (filter_b (same_parent f) us) (filter_b (same_stem f) (after_parents f us)),
  count_b-filter_b q (same_parent f) us,
  count_b-filter_b q (same_stem f) (after_parents f us),
)

unlinked :
    (f : GroupedFile) (us : List GroupedFile) → any_b (linked f) (still_unvisited f us) ≡ false
unfolding any_b filter_b
unlinked f [] = refl
unlinked f (u ∷ us) = ground (arith, unlinked f us)

any_b-still_unvisited :
    (q : GroupedFile → Bool) (f : GroupedFile) (us : List GroupedFile)
    → any_b q us ≡ false
    → any_b q (still_unvisited f us) ≡ false
unfolding any_b filter_b
any_b-still_unvisited q f [] h = refl
any_b-still_unvisited q f (u ∷ us) h = ground (arith, any_b-still_unvisited q f us)

cut-still_unvisited :
    (f : GroupedFile) (us fs : List GroupedFile)
    → cut fs us ≡ false
    → cut fs (still_unvisited f us) ≡ false
unfolding any_b
cut-still_unvisited f us [] h = refl
cut-still_unvisited f us (g ∷ fs) h =
    ground (arith, any_b-still_unvisited (linked g) f us, cut-still_unvisited f us fs)

rounds_left :
    (f : GroupedFile) (queue us : List GroupedFile) (fuel : ℕ)
    → suc (length queue) + length us ≤ suc fuel
    → length (queue ++ found_by f us) + length (still_unvisited f us) ≤ fuel
rounds_left f queue us fuel h = ground (
  arith,
  length-append queue (found_by f us),
  count-found_by (λ _. true) f us,
  length-count_b (found_by f us),
  length-count_b (still_unvisited f us),
  length-count_b us,
)

cut-step :
    (f : GroupedFile) (found us : List GroupedFile)
    → cut found us ≡ false
    → cut (found ++ f ∷ []) (still_unvisited f us) ≡ false
unfolding any_b
cut-step f found us h = rw any_b-append (rw (cut-still_unvisited f us found h, unlinked f us) refl)

no_round : (m n : ℕ) → suc m + n ≤ 0 → ⊥
no_round m n h = omega arith

-- A search that ends with what it found and what it left.
pub record Searched (queue unvisited found : List GroupedFile) (fuel : ℕ) : Type 0 where
  pub all_found : List GroupedFile
  pub left_over : List GroupedFile
  pub ends : search_from fuel queue unvisited found ≡ some (all_found, left_over)
  pub counts :
      (q : GroupedFile → Bool)
      → count_b q all_found + count_b q left_over
        ≡ count_b q found + (count_b q queue + count_b q unvisited)
  pub shrinks : (q : GroupedFile → Bool) → count_b q left_over ≤ count_b q unvisited
  pub holds :
      (among : List GroupedFile)
      → Contains among all_found
      → Contains among queue × Contains among found
  pub chained :
      (among : List GroupedFile) (s : GroupedFile)
      → Contains among all_found
      → All (Chain among s) queue
      → All (Chain among s) found
      → All (Chain among s) all_found
  pub apart : cut all_found left_over ≡ false

pub search_from-Searched :
    (fuel : ℕ) (queue unvisited found : List GroupedFile)
    → length queue + length unvisited ≤ fuel
    → cut found unvisited ≡ false
    → Searched queue unvisited found fuel
unfolding search_from count_b
search_from-Searched fuel [] unvisited found h k = record {
  all_found = found;
  left_over = unvisited;
  ends = refl;
  counts = λ q. ground arith;
  shrinks = λ q. omega arith;
  holds = λ among m. (tt, m);
  chained = λ among s m hs ks. ks;
  apart = k;
}
search_from-Searched zero (f ∷ queue) unvisited found h k =
    elim (no_round (length queue) (length unvisited) h) [ ]
search_from-Searched (suc fuel) (f ∷ queue) unvisited found h k =
    let s =
      search_from-Searched fuel (queue ++ found_by f unvisited) (still_unvisited f unvisited)
        (found ++ f ∷ []) (rounds_left f queue unvisited fuel h) (cut-step f found unvisited k) in
    record {
      all_found = s.all_found;
      left_over = s.left_over;
      ends = s.ends;
      counts = λ q. ground (
        arith,
        s.counts q,
        count_b-append q found (f ∷ []),
        count_b-append q queue (found_by f unvisited),
        count-found_by q f unvisited,
      );
      shrinks = λ q. ground (arith, s.shrinks q, count-found_by q f unvisited);
      holds = λ among m.
          let (q, k) = s.holds among m in
          let (ks, (c, _)) = All-append_inv (λ g. Memᴰ g among) found (f ∷ []) k in
          ((c, (All-append_inv (λ g. Memᴰ g among) queue (found_by f unvisited) q).0), ks);
      chained = λ among t m (c, hs) ks.
          let (q, _) = s.holds among m in
          let (_, new) = All-append_inv (λ g. Memᴰ g among) queue (found_by f unvisited) q in
          s.chained among t m
            (All-append (Chain among t) queue (found_by f unvisited) hs
              (chained_found among t f unvisited c new))
            (All-append (Chain among t) found (f ∷ []) ks (c, tt));
      apart = s.apart;
    }
