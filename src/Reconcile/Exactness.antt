-- ===== src/Reconcile/Exactness.antt =====
-- The relaxed plan of a whole root: the components that are formed meet what the skeleton grants,
-- and their plans are exact where the lossless targets are free.
use dorganizer.Prelude.{
  Bool, true, false, ◌&&◌, ◌||◌, not, List, [], ◌∷◌, map, Bytes, bytes_beq, bytes_beq_iff, All,
  Memᴰ, any_b, filter_b, ◌≡◌, refl, sym, ap, arith, Bool-cases, inl, inr, Option, none, some,
}
use dorganizer.Prelude.Member.{elem}
use dorganizer.Reconcile.Types.{Partition, available_sources, AudioEntry, GroupedFile, profile_for}
use dorganizer.Reconcile.Outcome.{status_ok}
use dorganizer.Reconcile.Effects.{observed, made, dropped}
use dorganizer.Reconcile.Grouping.{
  Runtime, Component, parse_file, add_parsed, parse_files, stem_groups, audio_entries,
}
use dorganizer.Reconcile.Grouping.Components.{build_components}
use dorganizer.Reconcile.Grouping.Members.{build_components-All}
use dorganizer.Reconcile.Grouping.Parsed.{
  Laws, IsParsed, parse_file_inv, parse_files-IsParsed, parsed-SamePath, parsed-named,
}
use dorganizer.Reconcile.Lenient.Contract.{lossless_outputs}
use dorganizer.Reconcile.Lenient.Component.Inventory.{IsPlannable, lenient_exact}
use dorganizer.Reconcile.Plan.{ReconcileInput, entries_of, plan_component}

-- The paths that the planner takes for occupied.
abbrev pub all_paths : List AudioEntry → List Bytes
all_paths entries = map (λ e. e.path_posix) entries

abbrev IsListed : List Bytes → GroupedFile → Type 0
IsListed occupied f = elem f.path_posix occupied ≡ true

listed_elem :
    (p : Bytes) (occupied : List Bytes) (files : List GroupedFile)
    → All (IsListed occupied) files
    → observed p files ≡ true
    → elem p occupied ≡ true
unfolding any_b
listed_elem p occupied [] h e = cc
listed_elem p occupied (f ∷ files) (h, hs) e = elim (Bool-cases (bytes_beq f.path_posix p)) [
  | inl q ↦ rw (sym ((bytes_beq_iff f.path_posix p).0 q)) h
  | inr q ↦ listed_elem p occupied files hs (rw q at e)
]

add_parsed-IsListed :
    (occupied : List Bytes) (o : Option GroupedFile) (rest : List GroupedFile)
    → ((f : GroupedFile) → o ≡ some f → IsListed occupied f)
    → All (IsListed occupied) rest
    → All (IsListed occupied) (add_parsed o rest)
add_parsed-IsListed occupied none rest h hs = hs
add_parsed-IsListed occupied (some f) rest h hs = (h f refl, hs)

parse_files-IsListed :
    (rt : Runtime) (occupied : List Bytes) (entries : List AudioEntry)
    → All (λ e. elem e.path_posix occupied ≡ true) entries
    → All (IsListed occupied) (parse_files rt entries)
unfolding parse_files
parse_files-IsListed rt occupied [] h = tt
parse_files-IsListed rt occupied (e ∷ es) (h, hs) =
    add_parsed-IsListed occupied (parse_file rt e) (parse_files rt es)
      (λ f k. rw (ap (λ (x : AudioEntry). x.path_posix) (parse_file_inv rt e f k).0) h)
      (parse_files-IsListed rt occupied es hs)

filtered-listed :
    (q : AudioEntry → Bool) (occupied : List Bytes) (entries : List AudioEntry)
    → All (λ e. elem e.path_posix occupied ≡ true) entries
    → All (λ e. elem e.path_posix occupied ≡ true) (filter_b q entries)
unfolding filter_b
filtered-listed q occupied [] h = tt
filtered-listed q occupied (e ∷ es) (h, hs) = elim (Bool-cases (q e)) [
  | inl k ↦ rw (filter_b, k) (h, filtered-listed q occupied es hs)
  | inr k ↦ rw (filter_b, k) (filtered-listed q occupied es hs)
]

listed-All :
    (more : List Bytes) (entries : List AudioEntry)
    → ((p : Bytes) → elem p (all_paths entries) ≡ true → elem p more ≡ true)
    → All (λ e. elem e.path_posix more ≡ true) entries
unfolding elem
listed-All more [] h = tt
listed-All more (e ∷ es) h = (
  h e.path_posix (ground (arith, bytes_beq_iff e.path_posix e.path_posix)),
  listed-All more es (λ p k. h p (ground arith)),
)

module _ (rt : Runtime) (input : ReconcileInput) (root : Bytes) (q : Partition) where
  abbrev pub occupied_paths : List Bytes
  occupied_paths = all_paths input.entries

  -- The components that the planner forms in one partition.
  abbrev pub formed : List Component
  formed = build_components rt (entries_of input.classifier root q (audio_entries rt input.entries))

  -- No entry stands where the lossless lane of one of the component's stems would write.
  abbrev pub IsFresh : Component → Type 0
  IsFresh c =
      All
        (λ g.
          any_b (λ o. elem o.target occupied_paths)
            (lossless_outputs g (profile_for input.policy q))
          ≡ false)
        (stem_groups c)

  formed-IsPlannable :
      Laws rt
      → (c : Component) → Memᴰ c formed
      → IsFresh c
      → IsPlannable (profile_for input.policy q) c occupied_paths
  unfolding entries_of audio_entries
  formed-IsPlannable laws c m fresh =
      let entries = entries_of input.classifier root q (audio_entries rt input.entries) in
      let parsed =
        build_components-All (IsParsed rt) rt entries c (parse_files-IsParsed rt entries) m in
      let listed =
        build_components-All (IsListed occupied_paths) rt entries c
          (parse_files-IsListed rt occupied_paths entries (
            filtered-listed _ occupied_paths _ (
              filtered-listed _ occupied_paths input.entries
                (listed-All occupied_paths input.entries (λ p h. h)))))
          m in
      record {
        named = parsed-named rt laws c.files parsed;
        listed = λ p h. listed_elem p occupied_paths c.files listed h;
        same = parsed-SamePath rt c.files parsed;
        fresh = fresh;
      }

  -- Where the lower case of the empty text is empty: under the relaxed table, for every component
  -- that the planner forms from its input in which no entry stands where a stem's lossless lane
  -- would write, if its outcome is actionable, a path is in the projected inventory exactly when it
  -- is an observed file of the component or an encode writes it, and no operation removes it.
  pub planned_exact :
      Laws rt
      → input.policy.mode ≡ available_sources
      → (c : Component) → Memᴰ c formed
      → IsFresh c
      → (plan_component rt input.policy root occupied_paths q c).status ≡ status_ok
      → (p : Bytes)
      → elem p (plan_component rt input.policy root occupied_paths q c).projected_inventory ≡ (
          (observed p c.files
            || made p (plan_component rt input.policy root occupied_paths q c).operations)
          && not (dropped p (plan_component rt input.policy root occupied_paths q c).operations))
  unfolding plan_component
  planned_exact laws mode c m fresh ok p = rw mode (
      lenient_exact rt root q (profile_for input.policy q) c occupied_paths
        (formed-IsPlannable laws c m fresh) (rw mode at ok) p)
