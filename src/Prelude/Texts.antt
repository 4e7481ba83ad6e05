-- ===== src/Prelude/Texts.antt =====
-- A Go string is the list of its bytes: comparison, membership, prefixes and splitting.
use Prim.Native.Nat.{ℕ, compare, Ordering}
use Prim.Native.Char.{code}
use Prim.Native.String.{String}
use mathlib.Core.Path.{◌≡◌, refl}
use mathlib.Core.Bool.{Bool, true, false, ◌&&◌}
use mathlib.Core.List.{List, [], ◌∷◌}
use mathlib.Core.Logic.{◌↔◌, ◌⊎◌, inl, inr}
use native.Mathlib.Omega.{arith}
use dorganizer.Prelude.Tests.{nat_beq, Equality}

abbrev pub Bytes : Type 0
Bytes = List ℕ

-- The bytes of an ASCII literal.
abbrev pub codes : String → Bytes
codes String.[] = []
codes (String.◌∷◌ c s) = code c ∷ codes s

unfoldable pub bytes_beq : Bytes → Bytes → Bool
bytes_beq [] [] = true
bytes_beq (a ∷ s) (b ∷ t) = nat_beq a b && bytes_beq s t
bytes_beq _ _ = false

bytes_beq_refl : (s : Bytes) → bytes_beq s s ≡ true
unfolding bytes_beq
bytes_beq_refl [] = refl
bytes_beq_refl (a ∷ s) = ground (arith, bytes_beq_refl s)

bytes_beq_sound : (s t : Bytes) → bytes_beq s t ≡ true → s ≡ t
unfolding bytes_beq
bytes_beq_sound [] [] h = refl
bytes_beq_sound [] (b ∷ t) h = cc
bytes_beq_sound (a ∷ s) [] h = cc
bytes_beq_sound (a ∷ s) (b ∷ t) h = ground (arith, bytes_beq_sound s t)

pub bytes_beq_iff : (s t : Bytes) → (bytes_beq s t ≡ true) ↔ (s ≡ t)
bytes_beq_iff s t = (bytes_beq_sound s t, λ e. rw e (bytes_beq_refl t))

instance abbrev pub bytes_eq : Equality Bytes
bytes_eq = record {
  same = bytes_beq;
  same_iff = λ x y. ((bytes_beq_iff x y).1, (bytes_beq_iff x y).0);
}

-- Go's `<` on strings: byte by byte.
unfoldable pub bytes_ltb : Bytes → Bytes → Bool
bytes_ltb [] [] = false
bytes_ltb [] (_ ∷ _) = true
bytes_ltb (_ ∷ _) [] = false
bytes_ltb (a ∷ s) (b ∷ t) =
    let rest = bytes_ltb s t in
    elim (compare a b) [ Ordering.lt ↦ true | Ordering.eq ↦ rest | Ordering.gt ↦ false ]

pub bytes_ltb_irrefl : (s : Bytes) → bytes_ltb s s ≡ false
unfolding bytes_ltb
bytes_ltb_irrefl [] = refl
bytes_ltb_irrefl (a ∷ s) = ground (arith, bytes_ltb_irrefl s)

pub bytes_ltb_trans :
    (s t u : Bytes) → bytes_ltb s t ≡ true → bytes_ltb t u ≡ true → bytes_ltb s u ≡ true
unfolding bytes_ltb
bytes_ltb_trans [] [] u p q = cc
bytes_ltb_trans [] (b ∷ t) [] p q = cc
bytes_ltb_trans [] (b ∷ t) (c ∷ u) p q = refl
bytes_ltb_trans (a ∷ s) [] u p q = cc
bytes_ltb_trans (a ∷ s) (b ∷ t) [] p q = cc
bytes_ltb_trans (a ∷ s) (b ∷ t) (c ∷ u) p q = ground (arith, bytes_ltb_trans s t u)

pub bytes_ltb_total : (s t : Bytes) → (bytes_ltb s t ≡ true) ⊎ ((s ≡ t) ⊎ (bytes_ltb t s ≡ true))
unfolding bytes_ltb
bytes_ltb_total [] [] = inr (inl refl)
bytes_ltb_total [] (b ∷ t) = inl refl
bytes_ltb_total (a ∷ s) [] = inr (inr refl)
bytes_ltb_total (a ∷ s) (b ∷ t) = ground (arith, bytes_ltb_total s t)

-- `strings.HasPrefix(s, p)`
unfoldable pub has_prefix : Bytes → Bytes → Bool
has_prefix s [] = true
has_prefix [] (_ ∷ _) = false
has_prefix (a ∷ s) (b ∷ p) = nat_beq a b && has_prefix s p
