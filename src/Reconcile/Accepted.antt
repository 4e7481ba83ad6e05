-- ===== src/Reconcile/Accepted.antt =====
-- conversion/reconcile/classifier.go, `ValidatePolicy`: what an accepted policy declares.
use dorganizer.Prelude.{
  ℕ, zero, suc, ◌&&◌, not, ap, Bool, true, false, Option, none, some, is_nil, ◌≡◌, refl, inl, inr,
  arith, Bool-cases, if◌then◌else◌,
}
use dorganizer.Prelude.Int.{ℤ, pos, negsuc, leb_ℤ}
use dorganizer.Reconcile.Types.{
  Partition, matched, unmatched, is_lossless_codec, QualityKind, bitrate_kind, other_kind,
  is_bitrate, Quality, AudioOutputSpec, DesiredProfile, Policy, profile_for,
}
use dorganizer.Reconcile.Classifier.{
  TagRuntime, normalize_tags, PolicyError, bad_schema, bad_mode, no_policy_tags, positive_bitrate,
  first_error, validate_profile_output, validate_profile, validate_policy,
}

-- A lossless output declares no quality, and an encoded one a positive bitrate.
pub data IsOutput (spec : AudioOutputSpec) : Type 0 where
  lossless_spec : is_lossless_codec spec.codec ≡ true → spec.quality ≡ none → IsOutput spec
  encoded_spec :
      (n : ℕ)
      → is_lossless_codec spec.codec ≡ false
      → spec.quality ≡ some (record { kind = bitrate_kind; bitrate = pos (suc n) })
      → IsOutput spec

abbrev quality_of : QualityKind → ℤ → Quality
quality_of k b = record { kind = k; bitrate = b }

positive_parts :
    (k : QualityKind) (b : ℤ)
    → (is_bitrate k && not (leb_ℤ b (pos 0))) ≡ true
    → (n : ℕ) × (quality_of k b ≡ quality_of bitrate_kind (pos (suc n)))
positive_parts bitrate_kind (pos (suc n)) h = (n, refl)
positive_parts bitrate_kind (pos zero) h = ground arith
positive_parts bitrate_kind (negsuc n) h = ground arith
positive_parts (other_kind s) b h = cc

positive_quality :
    (o : Option Quality)
    → positive_bitrate o ≡ true
    → (n : ℕ) × (o ≡ some (record { kind = bitrate_kind; bitrate = pos (suc n) }))
positive_quality none h = cc
positive_quality (some q) h = let (n, e) = positive_parts q.kind q.bitrate h in (n, ap some e)

validated-IsOutput :
    (spec : AudioOutputSpec) → validate_profile_output (some spec) ≡ none → IsOutput spec
unfolding validate_profile_output
validated-IsOutput spec h = elim (Bool-cases (is_lossless_codec spec.codec)) [
  | inl l ↦ lossless_spec l (ground arith)
  | inr l ↦ let (n, e) = positive_quality spec.quality (ground arith) in encoded_spec n l e
]

checks_passed :
    (s m t : Bool) (r : Option PolicyError)
    → (if not s
        then some bad_schema
        else if not m
        then some bad_mode
        else if t
        then some no_policy_tags
        else r)
      ≡ none
    → (t ≡ false) × (r ≡ none)
checks_passed true true false r h = (refl, h)
checks_passed true true true r h = cc
checks_passed true false t r h = cc
checks_passed false m t r h = cc

no_error : (a b : Option PolicyError) → first_error a b ≡ none → (a ≡ none) × (b ≡ none)
no_error none b h = (refl, h)
no_error (some e) b h = cc

both_profiles :
    (rt : TagRuntime) (first : Bool) (p : Policy)
    → validate_policy rt first p ≡ none
    → (is_nil (normalize_tags rt p.classifier_tags) ≡ false)
      × (validate_profile p.matched_profile ≡ none)
      × (validate_profile p.unmatched_profile ≡ none)
unfolding validate_policy
both_profiles rt true p h =
    let (t, r) = checks_passed _ _ _ _ h in let (a, b) = no_error _ _ r in (t, a, b)
both_profiles rt false p h =
    let (t, r) = checks_passed _ _ _ _ h in let (b, a) = no_error _ _ r in (t, a, b)

profile_outputs :
    (profile : DesiredProfile)
    → validate_profile profile ≡ none
    → ((spec : AudioOutputSpec) → profile.lossless ≡ some spec → IsOutput spec)
      × ((spec : AudioOutputSpec) → profile.encoded ≡ some spec → IsOutput spec)
profile_outputs profile h =
    let (a, b) =
      no_error (validate_profile_output profile.lossless) (validate_profile_output profile.encoded)
        h in
    (λ spec e. validated-IsOutput spec (rw e at a), λ spec e. validated-IsOutput spec (rw e at b))

-- Whichever profile the map of the source yields first, an accepted policy has a normalized tag,
-- and every output that it declares for a partition is a lossless codec without a quality or
-- another codec with a positive bitrate.
pub validate_policy_lem :
    (rt : TagRuntime) (first : Bool) (p : Policy) (q : Partition)
    → validate_policy rt first p ≡ none
    → (is_nil (normalize_tags rt p.classifier_tags) ≡ false)
      × ((spec : AudioOutputSpec) → (profile_for p q).lossless ≡ some spec → IsOutput spec)
      × ((spec : AudioOutputSpec) → (profile_for p q).encoded ≡ some spec → IsOutput spec)
validate_policy_lem rt first p matched h =
    let (t, a, b) = both_profiles rt first p h in
    let (l, e) = profile_outputs p.matched_profile a in (t, l, e)
validate_policy_lem rt first p unmatched h =
    let (t, a, b) = both_profiles rt first p h in
    let (l, e) = profile_outputs p.unmatched_profile b in (t, l, e)
