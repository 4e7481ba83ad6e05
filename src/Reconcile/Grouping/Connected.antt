-- ===== src/Reconcile/Grouping/Connected.antt =====
-- The components that `BuildComponents` forms: what they hold, and how their files are linked.
use dorganizer.Prelude.{
  ℕ, zero, suc, ◌+◌, ◌≤◌, Bool, true, false, List, [], ◌∷◌, length, All, Memᴰ, any_b, ltb, ◌≡◌,
  refl, arith,
}
use dorganizer.Prelude.Sorting.{sort_by, any_b-sort_by}
use dorganizer.Prelude.Counting.{
  count_b, any_b-count_b, count_b-sort_by, length-count_b, All-sort_by, All-sort_by_inv, All-self,
}
use dorganizer.Reconcile.Types.{AudioEntry, GroupedFile}
use dorganizer.Reconcile.Grouping.{Runtime, Component, parse_files}
use dorganizer.Reconcile.Grouping.Components.{path_less, components_from, build_components}
use dorganizer.Reconcile.Grouping.Search.{
  linked, cut, Chain, Contains, no_link, Searched, search_from-Searched,
}

-- How many files of the components pass a test.
abbrev pub count_in : (GroupedFile → Bool) → List Component → ℕ
count_in q [] = 0
count_in q (c ∷ cs) = count_b q c.files + count_in q cs

-- Some component holds a file that passes the test.
abbrev pub any_in : (GroupedFile → Bool) → List Component → Bool
any_in q cs = any_b (λ c. any_b q c.files) cs

-- No file of a component is linked to a file of a later one.
abbrev pub IsSeparate : List Component → Type 0
IsSeparate [] = Unit
IsSeparate (c ∷ cs) = (any_b (λ f. any_in (linked f) cs) c.files ≡ false) × IsSeparate cs

-- All files of the component are reached from one of them by links through files of the component.
abbrev pub IsConnected : Component → Type 0
IsConnected c = (s : GroupedFile) × Memᴰ s c.files × All (Chain c.files s) c.files

-- What the outer loop promises of the files it starts with.
pub record IsPartition (files : List GroupedFile) (cs : List Component) : Type 0 where
  pub complete : (q : GroupedFile → Bool) → count_in q cs ≡ count_b q files
  pub separate : IsSeparate cs
  pub connected : All IsConnected cs

any_in-count_in :
    (q : GroupedFile → Bool) (cs : List Component) → any_in q cs ≡ ltb 0 (count_in q cs)
unfolding any_b
any_in-count_in q [] = refl
any_in-count_in q (c ∷ cs) = ground (arith, any_b-count_b q c.files, any_in-count_in q cs)

any_in_complete :
    (q : GroupedFile → Bool) (cs : List Component) (files : List GroupedFile)
    → count_in q cs ≡ count_b q files
    → any_in q cs ≡ any_b q files
any_in_complete q cs files h = ground (arith, any_in-count_in q cs, any_b-count_b q files)

cut_complete :
    (found : List GroupedFile) (cs : List Component) (files : List GroupedFile)
    → ((q : GroupedFile → Bool) → count_in q cs ≡ count_b q files)
    → any_b (λ f. any_in (linked f) cs) found ≡ cut found files
unfolding any_b
cut_complete [] cs files h = refl
cut_complete (f ∷ found) cs files h =
    rw (any_in_complete (linked f) cs files (h (linked f)), cut_complete found cs files h) refl

fuel_left :
    (fs rest : List GroupedFile) (fuel : ℕ)
    → suc (length fs) ≤ suc fuel
    → count_b (λ _. true) rest ≤ count_b (λ _. true) fs
    → length rest ≤ fuel
fuel_left fs rest fuel h k = ground (arith, length-count_b rest, length-count_b fs)

no_fuel : (n : ℕ) → suc n ≤ 0 → ⊥
no_fuel n h = omega arith

one_component :
    (f : GroupedFile) (fs : List GroupedFile) (s : Searched (f ∷ []) fs [] (suc (length fs)))
    → IsConnected (record { files = sort_by path_less s.all_found })
one_component f fs s =
    let files = sort_by path_less s.all_found in
    let within : Contains files s.all_found =
      All-sort_by_inv path_less (λ g. Memᴰ g files) s.all_found (All-self files) in
    let ((first, _), _) = s.holds files within in
    (
      f,
      first,
      All-sort_by path_less (Chain files f) s.all_found (s.chained files f within (no_link, tt) tt),
    )

IsPartition-cons :
    (f : GroupedFile) (fs : List GroupedFile) (cs : List Component)
    (s : Searched (f ∷ []) fs [] (suc (length fs)))
    → IsPartition s.left_over cs
    → IsPartition (f ∷ fs) (record { files = sort_by path_less s.all_found } ∷ cs)
unfolding count_b any_b
IsPartition-cons f fs cs s p = record {
  complete = λ q. ground (arith, count_b-sort_by path_less q s.all_found, p.complete q, s.counts q);
  separate = (
    rw (any_b-sort_by path_less, cut_complete s.all_found cs s.left_over p.complete) s.apart,
    p.separate,
  );
  connected = (one_component f fs s, p.connected);
}

components_from-IsPartition :
    (fuel : ℕ) (files : List GroupedFile)
    → length files ≤ fuel
    → IsPartition files (components_from fuel files)
unfolding components_from count_b any_b
components_from-IsPartition fuel [] h = record {
  complete = λ q. refl;
  separate = tt;
  connected = tt;
}
components_from-IsPartition zero (f ∷ fs) h = elim (no_fuel (length fs) h) [ ]
components_from-IsPartition (suc fuel) (f ∷ fs) h =
    let s = search_from-Searched (suc (length fs)) (f ∷ []) fs [] (omega arith) refl in
    rw (s.ends, components_from)
      (IsPartition-cons f fs (components_from fuel s.left_over) s (
        components_from-IsPartition fuel s.left_over
          (fuel_left fs s.left_over fuel h (s.shrinks (λ _. true)))))

-- The components of a list of entries hold each parsed file exactly as often as it was parsed, so
-- that the fuel loses none; no file is linked to a file of a later component; and the files of one
-- component are all reached from one of them by links.
pub build_components-IsPartition :
    (rt : Runtime) (entries : List AudioEntry)
    → IsPartition (parse_files rt entries) (build_components rt entries)
unfolding build_components
build_components-IsPartition rt entries =
    components_from-IsPartition (length (parse_files rt entries)) (parse_files rt entries)
      (omega arith)
