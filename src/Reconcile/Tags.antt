-- ===== src/Reconcile/Tags.antt =====
-- conversion/reconcile/classifier.go, `NormalizeTags`: what it keeps of the raw tags.
use dorganizer.Prelude.{
  Bool, false, ◌&&◌, not, List, [], ◌∷◌, Bytes, bytes_beq, bytes_beq_iff, bytes_ltb, any_b, is_nil,
  ◌≡◌, refl, arith, if◌then◌else◌,
}
use dorganizer.Prelude.Member.{elem}
use dorganizer.Prelude.Sorting.{any_b-sort_by}
use dorganizer.Prelude.Counting.{count_b, count_b-sort_by}
use dorganizer.Reconcile.Classifier.{TagRuntime, distinct_tags, normalize_tags}

module _ (rt : TagRuntime) where
  -- A tag of the key, and a raw input that trims to one.
  abbrev pub has_key : Bytes → Bytes → Bool
  has_key key tag = bytes_beq (rt.to_lower tag) key

  abbrev pub gives_key : Bytes → Bytes → Bool
  gives_key key raw = not (is_nil (rt.trim_space raw)) && has_key key (rt.trim_space raw)

  count-distinct_tags :
      (key : Bytes) (seen raws : List Bytes)
      → count_b (has_key key) (distinct_tags rt seen raws)
        ≡ (if not (elem key seen) && any_b (gives_key key) raws then 1 else 0)
  unfolding count_b distinct_tags any_b elem
  count-distinct_tags key seen [] = ground arith
  count-distinct_tags key seen (raw ∷ raws) = ground (
    arith,
    count-distinct_tags key seen raws,
    count-distinct_tags key (rt.to_lower (rt.trim_space raw) ∷ seen) raws,
    bytes_beq_iff (rt.to_lower (rt.trim_space raw)) key,
    bytes_beq_iff key (rt.to_lower (rt.trim_space raw)),
  )

  nil-distinct_tags :
      (seen raws : List Bytes) → any_b (λ t. is_nil t) (distinct_tags rt seen raws) ≡ false
  unfolding distinct_tags any_b
  nil-distinct_tags seen [] = refl
  nil-distinct_tags seen (raw ∷ raws) = ground (
    arith,
    nil-distinct_tags seen raws,
    nil-distinct_tags (rt.to_lower (rt.trim_space raw) ∷ seen) raws,
  )

  -- No normalized tag is empty, and of each lower-cased key there is exactly one tag if a raw input
  -- that is not blank has it, and none otherwise.
  pub normalize_tags_lem :
      (raws : List Bytes)
      → (any_b (λ t. is_nil t) (normalize_tags rt raws) ≡ false)
        × ((key : Bytes)
            → count_b (has_key key) (normalize_tags rt raws)
              ≡ (if any_b (gives_key key) raws then 1 else 0))
  unfolding normalize_tags elem
  normalize_tags_lem raws = (
    rw (any_b-sort_by (λ a b. bytes_ltb (rt.to_lower a) (rt.to_lower b)))
        (nil-distinct_tags [] raws),
    λ key.
        rw (count_b-sort_by (λ a b. bytes_ltb (rt.to_lower a) (rt.to_lower b)))
          (count-distinct_tags key [] raws),
  )
