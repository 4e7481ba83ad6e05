-- ===== src/Reconcile/Grouping/Stems.antt =====
-- The stem groups of a component share its files out.
use dorganizer.Prelude.{
  Memᴰ, any_b-elim, any_b-intro, mem-filter_b, Bool, true, false, ◌&&◌, ◌||◌, not, List, [], ◌∷◌,
  ◌++◌, Bytes, bytes_beq, bytes_beq_iff, any_b, map, ◌≡◌, refl, ◌∙◌, sym, arith, ◌==◌, bytes_eq,
  Bool-cases, inl, inr, mem-filter_b_of,
}
use dorganizer.Prelude.Member.{
  elem, elem-append, nodup_b, nodup-sort_strings, nodup-snoc, elem-sort_strings,
}
use dorganizer.Reconcile.Types.{GroupedFile, StemGroup}
use dorganizer.Reconcile.Outcome.{append_unique}
use dorganizer.Reconcile.Effects.{observed, observed-filter}
use dorganizer.Reconcile.Grouping.{Component, keys_from, stems_of, group_at, stem_groups}

elem-keys_from :
    (key : GroupedFile → Bytes) (seen : List Bytes) (files : List GroupedFile) (k : Bytes)
    → elem k (keys_from key seen files) ≡ (elem k seen || any_b (λ f. bytes_beq k (key f)) files)
unfolding keys_from append_unique any_b elem
elem-keys_from key seen [] k = ground arith
elem-keys_from key seen (f ∷ fs) k = ground (
  arith,
  bytes_beq_iff k (key f),
  elem-keys_from key seen fs k,
  elem-append k seen (key f ∷ []),
  elem-keys_from key (seen ++ key f ∷ []) fs k,
)

abbrev pub SamePath : List GroupedFile → Type 0
SamePath files =
    (f f' : GroupedFile)
    → Memᴰ f files
    → Memᴰ f' files
    → f.path_posix ≡ f'.path_posix
    → f.stem ≡ f'.stem

abbrev pub observed_in : Bytes → List StemGroup → Bool
observed_in p gs = any_b (λ g. observed p g.files) gs

-- No path stands in two groups.
abbrev pub Apart : Bytes → List StemGroup → Type 0
Apart p [] = Unit
Apart p (g ∷ gs) = (observed p g.files ≡ true → observed_in p gs ≡ false) × Apart p gs

and_not : (a b : Bool) → (not a && b) ≡ true → a ≡ false
and_not a b h = ground arith

module _ (p : Bytes) (files : List GroupedFile) where
  -- A file of the path, in a group and among all files.
  observed_group :
      (s : Bytes)
      → observed p (group_at files s).files ≡ true
      → (f : GroupedFile) × Memᴰ f files × (f.path_posix ≡ p) × (f.stem ≡ s)
  observed_group s h =
      let (f, m, e) = any_b-elim (λ f. bytes_beq f.path_posix p) (group_at files s).files h in
      let (m', e') = mem-filter_b (λ f. bytes_beq f.stem s) files m in
      (f, m', (bytes_beq_iff f.path_posix p).0 e, (bytes_beq_iff f.stem s).0 e')

  observed_in-all :
      (stems : List Bytes)
      → observed_in p (map (group_at files) stems) ≡ true
      → observed p files ≡ true
  unfolding any_b
  observed_in-all [] h = cc
  observed_in-all (s ∷ ss) h =
      ground (arith, observed-filter p (λ f. bytes_beq f.stem s) files, observed_in-all ss)

  observed_here :
      (f : GroupedFile) (s : Bytes)
      → Memᴰ f files
      → f.path_posix ≡ p
      → (f.stem == s) ≡ true
      → observed p (group_at files s).files ≡ true
  observed_here f s m e h =
      any_b-intro (λ f'. bytes_beq f'.path_posix p)
        (mem-filter_b_of (λ f'. bytes_beq f'.stem s) m h) ((bytes_beq_iff f.path_posix p).1 e)

  observed_in-stem :
      (f : GroupedFile) (stems : List Bytes)
      → Memᴰ f files
      → f.path_posix ≡ p
      → elem f.stem stems ≡ true
      → observed_in p (map (group_at files) stems) ≡ true
  unfolding any_b elem
  observed_in-stem f [] m e h = cc
  observed_in-stem f (s ∷ ss) m e h = elim (Bool-cases (f.stem == s)) [
    | inl here ↦ rw (observed_here f s m e here) refl
    | inr there ↦ ground (arith, observed_in-stem f ss m e (ground arith))
  ]

  observed_some :
      (stems : List Bytes)
      → observed_in p (map (group_at files) stems) ≡ true
      → (s : Bytes) × (elem s stems ≡ true) × (observed p (group_at files s).files ≡ true)
  unfolding any_b elem
  observed_some [] h = cc
  observed_some (s ∷ ss) h = elim (Bool-cases (observed p (group_at files s).files)) [
    | inl e ↦ (s, ground (arith, bytes_beq_iff s s), e)
    | inr e ↦ let (t, m, o) = observed_some ss (ground arith) in (t, ground arith, o)
  ]

  -- Two groups that hold the path have one stem.
  one_stem :
      SamePath files
      → (s t : Bytes) → observed p (group_at files s).files ≡ true
      → observed p (group_at files t).files ≡ true
      → s ≡ t
  one_stem same s t o o' =
      let (f, m, e, es) = observed_group s o in
      let (f', m', e', et) = observed_group t o' in cc (same f f' m m' (e ∙ sym e'))

  apart :
      SamePath files
      → (stems : List Bytes) → nodup_b stems ≡ true
      → Apart p (map (group_at files) stems)
  unfolding any_b nodup_b
  apart same [] h = tt
  apart same (s ∷ ss) h = (
    λ o. elim (Bool-cases (observed_in p (map (group_at files) ss))) [
      | inl e ↦
          let (t, m, o') = observed_some ss e in
          let twin : elem s ss ≡ true = rw (one_stem same s t o o') m in
          cc (and_not (elem s ss) (nodup_b ss) h)
      | inr e ↦ e
    ],
    apart same ss (ground arith),
  )

nodup-keys_from :
    (key : GroupedFile → Bytes) (seen : List Bytes) (files : List GroupedFile)
    → nodup_b seen ≡ true
    → nodup_b (keys_from key seen files) ≡ true
unfolding keys_from append_unique
nodup-keys_from key seen [] h = h
nodup-keys_from key seen (f ∷ fs) h =
    nodup-keys_from key (append_unique seen (key f)) fs (nodup-snoc seen (key f) h)

stem_listed :
    (files : List GroupedFile) (f : GroupedFile)
    → Memᴰ f files
    → elem f.stem (stems_of files) ≡ true
unfolding stems_of elem
stem_listed files f m =
    rw
      (
        elem-sort_strings f.stem (keys_from (λ g. g.stem) [] files),
        elem-keys_from (λ g. g.stem) [] files f.stem,
      )
      (any_b-intro (λ g. bytes_beq f.stem g.stem) m ((bytes_beq_iff f.stem f.stem).1 refl))

-- The groups of a component hold exactly its files' paths.
pub observed-stem_groups :
    (p : Bytes) (c : Component) → observed_in p (stem_groups c) ≡ observed p c.files
unfolding stem_groups stems_of
observed-stem_groups p c = elim (Bool-cases (observed p c.files)) [
  | inl e ↦
      let (f, m, q) = any_b-elim (λ f. bytes_beq f.path_posix p) c.files e in
      rw e (
        observed_in-stem p c.files f (stems_of c.files) m ((bytes_beq_iff f.path_posix p).0 q)
          (stem_listed c.files f m))
  | inr e ↦ elim (Bool-cases (observed_in p (map (group_at c.files) (stems_of c.files)))) [
    | inl some_group ↦ cc (observed_in-all p c.files (stems_of c.files) some_group)
    | inr no_group ↦ rw e no_group
  ]
]

-- No path stands in two groups of a component whose files of one path have one stem.
pub stem_groups-Apart : (p : Bytes) (c : Component) → SamePath c.files → Apart p (stem_groups c)
unfolding stem_groups stems_of nodup_b
stem_groups-Apart p c same =
    apart p c.files same (stems_of c.files)
      (nodup-sort_strings _ (nodup-keys_from (λ f. f.stem) [] c.files refl))
