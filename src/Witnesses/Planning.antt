-- ===== src/Witnesses/Planning.antt =====
-- A whole root planned, at the sample.
use dorganizer.Prelude.{
  true, false, ◌&&◌, ◌||◌, not, List, [], ◌∷◌, some, none, Bytes, codes, Memᴰ, any_b, is_nil, ◌≡◌,
  refl, if◌then◌else◌,
}
use dorganizer.Prelude.Int.{pos}
use dorganizer.Prelude.Member.{elem}
use dorganizer.Prelude.Sorting.{sort_by}
use dorganizer.Prelude.Counting.{count_b}
use dorganizer.Reconcile.Types.{Policy, matched, AudioOutputSpec, profile_for, available_sources}
use dorganizer.Reconcile.Outcome.{status_ok, ComponentOutcome}
use dorganizer.Reconcile.Effects.{observed, made, dropped}
use dorganizer.Reconcile.Classifier.{
  TagRuntime, normalize_tags, classify, distinct_tags, validate_policy, validate_profile_output,
}
use dorganizer.Reconcile.Grouping.{Component, parse_files, audio_entries}
use dorganizer.Reconcile.Grouping.Components.{
  build_components, components_from, search_from, path_less,
}
use dorganizer.Reconcile.Grouping.Connected.{IsPartition, build_components-IsPartition}
use dorganizer.Reconcile.Plan.{ReconcileInput, plan_component, entries_of}
use dorganizer.Reconcile.Exactness.{occupied_paths, formed, IsFresh, planned_exact}
use dorganizer.Reconcile.Sources.{strays, lossless_of}
use dorganizer.Reconcile.Sources.Tables.{strays-plan_component}
use dorganizer.Reconcile.Waiting.{Orderly}
use dorganizer.Reconcile.Waiting.Tables.{plan_component-Orderly}
use dorganizer.Reconcile.Tags.{has_key, gives_key, normalize_tags_lem}
use dorganizer.Reconcile.Accepted.{IsOutput, validate_policy_lem}
use dorganizer.Witnesses.Samples.{
  ascii, ascii-Laws, entries, album, entry_paths, flac_and_mp3, program,
}

abbrev pub policy : Policy
policy = record {
  schema_version = pos 1;
  mode = available_sources;
  classifier_tags = codes "m" ∷ [];
  matched_profile = flac_and_mp3;
  unmatched_profile = flac_and_mp3;
}

abbrev input : ReconcileInput
input = record {
  root_path = codes "/m";
  entries = entries;
  policy = policy;
  classifier = record { tags = codes "m" ∷ []; hash = []; matcher = some (λ _. true) };
}

-- The one component that the planner forms, its files in the order of their paths.
abbrev listing : Component
listing = record { files = sort_by path_less album.files }

listing-formed : Memᴰ listing (formed ascii input (codes "/m") matched)
unfolding program build_components components_from search_from entries_of audio_entries classify
listing-formed = Memᴰ.head refl

listing-IsFresh : IsFresh ascii input (codes "/m") matched listing
unfolding program
listing-IsFresh = (refl, tt)

listing-planned :
    (plan_component ascii policy
      (codes "/m")
      (occupied_paths ascii input (codes "/m") matched)
      matched
      listing).status
    ≡ status_ok
unfolding program plan_component
listing-planned = refl

planned_exact_example :
    let out =
      plan_component ascii policy
        (codes "/m")
        (occupied_paths ascii input (codes "/m") matched)
        matched
        listing in
    elem (codes "/m/01.flac") out.projected_inventory ≡ (
      (observed (codes "/m/01.flac") listing.files || made (codes "/m/01.flac") out.operations)
      && not (dropped (codes "/m/01.flac") out.operations))
planned_exact_example =
    planned_exact ascii input (codes "/m") matched ascii-Laws refl listing listing-formed
      listing-IsFresh listing-planned (codes "/m/01.flac")

plan_component-Orderly_example :
    Orderly (plan_component ascii policy (codes "/m") entry_paths matched album)
plan_component-Orderly_example =
    plan_component-Orderly ascii policy (codes "/m") entry_paths matched album

build_components-IsPartition_example :
    IsPartition (parse_files ascii entries) (build_components ascii entries)
build_components-IsPartition_example = build_components-IsPartition ascii entries

-- Tags without spaces, in ASCII.
abbrev tag_runtime : TagRuntime
tag_runtime = record {
  trim_space = λ s. s;
  to_lower = ascii.to_lower;
  quote_meta = λ s. s;
  compile = λ _. some (λ _. true);
  sha256_hex = λ s. s;
}

normalize_tags_lem_example :
    (any_b (λ t. is_nil t) (normalize_tags tag_runtime (codes "SE" ∷ codes "se" ∷ [])) ≡ false)
    × ((key : Bytes)
        → count_b
            (has_key tag_runtime key)
            (normalize_tags tag_runtime (codes "SE" ∷ codes "se" ∷ []))
          ≡ (if any_b (gives_key tag_runtime key) (codes "SE" ∷ codes "se" ∷ []) then 1 else 0))
normalize_tags_lem_example = normalize_tags_lem tag_runtime (codes "SE" ∷ codes "se" ∷ [])

abbrev outcomes : List ComponentOutcome
outcomes = plan_component ascii policy (codes "/m") entry_paths matched album ∷ []

strays-plan_component_example :
    strays
      (lossless_of album.files)
      (plan_component ascii policy (codes "/m") entry_paths matched album).operations
    ≡ false
strays-plan_component_example =
    strays-plan_component ascii policy (codes "/m") entry_paths matched album

policy-accepted : validate_policy tag_runtime true policy ≡ none
unfolding program validate_policy normalize_tags distinct_tags validate_profile_output
policy-accepted = refl

validate_policy_lem_example :
    (is_nil (normalize_tags tag_runtime policy.classifier_tags) ≡ false)
    × ((spec : AudioOutputSpec) → (profile_for policy matched).lossless ≡ some spec → IsOutput spec)
    × ((spec : AudioOutputSpec) → (profile_for policy matched).encoded ≡ some spec → IsOutput spec)
validate_policy_lem_example = validate_policy_lem tag_runtime true policy matched policy-accepted
