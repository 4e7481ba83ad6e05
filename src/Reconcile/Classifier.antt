-- ===== src/Reconcile/Classifier.antt =====
-- conversion/reconcile/classifier.go: the tags, the partition of a path and the policy's shape.
use dorganizer.Prelude.{
  Bool, true, false, ◌&&◌, not, List, [], ◌∷◌, ◌++◌, Option, none, some, Bytes, bytes_ltb, codes,
  if◌then◌else◌, is_nil, map, ◌==◌,
}
use dorganizer.Prelude.Int.{pos, leb_ℤ, int_eq}
use dorganizer.Prelude.Member.{elem}
use dorganizer.Prelude.Sorting.{sort_by}
use dorganizer.GoPath.{join_with}
use dorganizer.Reconcile.Types.{
  Partition, matched, unmatched, Codec, mp3, aac, opus, is_lossless_codec, is_bitrate, Quality,
  AudioOutputSpec, DesiredProfile, ConversionMode, other_conversion, Policy,
}

-- What the classifier takes from Go's `strings` over Unicode, from `regexp` and from
-- `crypto/sha256`. `compile` answers the matcher of a pattern, or fails.
pub record TagRuntime : Type 0 where
  pub trim_space : Bytes → Bytes
  pub to_lower : Bytes → Bytes
  pub quote_meta : Bytes → Bytes
  pub compile : Bytes → Option (Bytes → Bool)
  pub sha256_hex : Bytes → Bytes

-- The loop of `NormalizeTags`, with the keys seen so far.
unfoldable pub distinct_tags : TagRuntime → List Bytes → List Bytes → List Bytes
distinct_tags rt seen [] = []
distinct_tags rt seen (raw ∷ raws) =
    let tag = rt.trim_space raw in
    let skip = distinct_tags rt seen raws in
    let take_tag = tag ∷ distinct_tags rt (rt.to_lower tag ∷ seen) raws in
    if is_nil tag then skip else if elem (rt.to_lower tag) seen then skip else take_tag

unfoldable pub normalize_tags : TagRuntime → List Bytes → List Bytes
unfolding distinct_tags
normalize_tags rt raw =
    sort_by (λ a b. bytes_ltb (rt.to_lower a) (rt.to_lower b)) (distinct_tags rt [] raw)

-- `matcher` is absent where the source holds a nil regular expression.
pub record Classifier : Type 0 where
  pub tags : List Bytes
  pub hash : Bytes
  pub matcher : Option (Bytes → Bool)

pub data ClassifierError : Type 0 where
  no_tags bad_pattern : ClassifierError

pub data Outcome (A : Type 0) : Type 0 where
  ok : A → Outcome A
  failed : ClassifierError → Outcome A

-- `(?i)(?:a|b|…)`
abbrev tag_pattern : TagRuntime → List Bytes → Bytes
tag_pattern rt tags = codes "(?i)(?:" ++ (join_with b'|' (map rt.quote_meta tags) ++ codes ")")

unfoldable pub new_tag_classifier : TagRuntime → List Bytes → Outcome Classifier
new_tag_classifier rt tags =
    if is_nil tags then failed no_tags else elim (rt.compile (tag_pattern rt tags)) [
      | none ↦ failed bad_pattern
      | some m ↦
          ok (record { tags = tags; hash = rt.sha256_hex (join_with 0 tags); matcher = some m })
    ]

unfoldable pub resolve_classifier : TagRuntime → List Bytes → Outcome Classifier
unfolding normalize_tags new_tag_classifier
resolve_classifier rt raw =
    let tags = normalize_tags rt raw in
    if is_nil tags then failed no_tags else new_tag_classifier rt tags

unfoldable pub classify : Classifier → Bytes → Partition
classify c rel = elim (c.matcher) [
  | none ↦ unmatched
  | some m ↦ if m rel then matched else unmatched
]

pub data PolicyError : Type 0 where
  bad_schema bad_mode no_policy_tags : PolicyError
  lossless_with_quality encoded_without_bitrate unsupported_codec : PolicyError

abbrev known_mode : ConversionMode → Bool
known_mode (other_conversion _) = false
known_mode _ = true

abbrev is_encoded_codec : Codec → Bool
is_encoded_codec mp3 = true
is_encoded_codec aac = true
is_encoded_codec opus = true
is_encoded_codec _ = false

abbrev pub positive_bitrate : Option Quality → Bool
positive_bitrate none = false
positive_bitrate (some q) = is_bitrate q.kind && not (leb_ℤ q.bitrate (pos 0))

abbrev has_quality : Option Quality → Bool
has_quality none = false
has_quality (some _) = true

unfoldable pub validate_profile_output : Option AudioOutputSpec → Option PolicyError
validate_profile_output none = none
validate_profile_output (some spec) =
    if is_lossless_codec spec.codec
    then if has_quality spec.quality then some lossless_with_quality else none
    else if is_encoded_codec spec.codec
    then if positive_bitrate spec.quality then none else some encoded_without_bitrate
    else some unsupported_codec

abbrev pub first_error : Option PolicyError → Option PolicyError → Option PolicyError
first_error (some e) _ = some e
first_error none other = other

abbrev pub validate_profile : DesiredProfile → Option PolicyError
validate_profile profile =
    first_error (validate_profile_output profile.lossless) (validate_profile_output profile.encoded)

-- The source visits the two profiles in the random order of a map; `matched_first` is that order.
unfoldable pub validate_policy : TagRuntime → Bool → Policy → Option PolicyError
unfolding normalize_tags validate_profile_output
validate_policy rt matched_first p =
    if not (p.schema_version == pos 1)
    then some bad_schema
    else if not (known_mode p.mode)
    then some bad_mode
    else if is_nil (normalize_tags rt p.classifier_tags)
    then some no_policy_tags
    else if matched_first
    then first_error (validate_profile p.matched_profile) (validate_profile p.unmatched_profile)
    else first_error (validate_profile p.unmatched_profile) (validate_profile p.matched_profile)
