-- ===== src/Pathnorm/Truncation.antt =====
-- The bound of truncateUTF8ToMaxBytes.
use dorganizer.Prelude.{
  ℕ, zero, suc, ◌+◌, ◌≤◌, true, List, [], ◌∷◌, Bytes, length, take, ltb, leb, has_prefix, ◌≡◌, refl,
  arith, Bool-cases, inl, inr,
}
use dorganizer.Pathnorm.{rune_cut, truncate_utf8_to_max_bytes}

rune_cut-bound : (max count : ℕ) (ns : List ℕ) → count ≤ max → rune_cut max count ns ≤ max
unfolding rune_cut
rune_cut-bound max count [] h = h
rune_cut-bound max count (n ∷ ns) h = elim (Bool-cases (ltb max (count + n))) [
  | inl e ↦ rw (rune_cut, e) h
  | inr e ↦ rw (rune_cut, e) (rune_cut-bound max (count + n) ns (ground arith))
]

length-take_bound : (n : ℕ) (s : Bytes) → length (take n s) ≤ n
length-take_bound zero s = ground arith
length-take_bound (suc n) [] = ground arith
length-take_bound (suc n) (x ∷ s) = ground (arith, length-take_bound n s)

take_is_prefix : (n : ℕ) (s : Bytes) → has_prefix s (take n s) ≡ true
unfolding has_prefix
take_is_prefix zero s = refl
take_is_prefix (suc n) [] = refl
take_is_prefix (suc n) (x ∷ s) = ground (arith, take_is_prefix n s)

prefix_refl : (s : Bytes) → has_prefix s s ≡ true
unfolding has_prefix
prefix_refl [] = refl
prefix_refl (x ∷ s) = ground (arith, prefix_refl s)

-- However the text divides into runes, its truncation is a prefix of it with at most the bytes that
-- are allowed, and a text that fits is not changed.
pub truncate_utf8_to_max_bytes_lem :
    (rune_lens : Bytes → List ℕ) (max : ℕ) (s : Bytes)
    → (length (truncate_utf8_to_max_bytes rune_lens max s) ≤ max)
      × (has_prefix s (truncate_utf8_to_max_bytes rune_lens max s) ≡ true)
      × (length s ≤ max → truncate_utf8_to_max_bytes rune_lens max s ≡ s)
unfolding truncate_utf8_to_max_bytes
truncate_utf8_to_max_bytes_lem rune_lens max s = elim (Bool-cases (leb (length s) max)) [
  | inl e ↦ rw e (ground arith, prefix_refl s, λ h. refl)
  | inr e ↦
      let cut = rune_cut max 0 (rune_lens s) in
      rw e (
        ground (arith, length-take_bound cut s, rune_cut-bound max 0 (rune_lens s)),
        take_is_prefix cut s,
        λ h. ground arith,
      )
]
