-- ===== src/Prelude/Lists.antt =====
-- Lists measured by native numbers, Boolean filters and predicates over all elements.
use Prim.Native.Nat.{ℕ, zero, suc, ◌+◌}
use mathlib.Core.Path.{◌≡◌, refl, sym, subst}
use mathlib.Core.Logic.{inl, inr}
use mathlib.Core.Bool.{Bool, true, false, ◌&&◌, ◌||◌}
use mathlib.Core.List.{List, [], ◌∷◌, ◌++◌, map, Memᴰ}
use native.Mathlib.Omega.{arith}
use dorganizer.Prelude.Tests.{if◌then◌else◌, Bool-cases}

module _ {ℓ} {A : Type ℓ} where
  abbrev pub length : List A → ℕ
  length [] = 0
  length (x ∷ xs) = suc (length xs)

  abbrev pub is_nil : List A → Bool
  is_nil [] = true
  is_nil (_ ∷ _) = false

  abbrev pub take : ℕ → List A → List A
  take zero xs = []
  take (suc n) [] = []
  take (suc n) (x ∷ xs) = x ∷ take n xs

  abbrev pub drop : ℕ → List A → List A
  drop zero xs = xs
  drop (suc n) [] = []
  drop (suc n) (x ∷ xs) = drop n xs

  pub length-append : (xs ys : List A) → length (xs ++ ys) ≡ length xs + length ys
  length-append [] ys = omega arith
  length-append (x ∷ xs) ys = omega (arith, length-append xs ys)

  -- `for _, x := range xs { if p(x) { out = append(out, x) } }`
  unfoldable pub filter_b : (A → Bool) → List A → List A
  filter_b p [] = []
  filter_b p (x ∷ xs) = let rest = filter_b p xs in if p x then x ∷ rest else rest

  unfoldable pub any_b : (A → Bool) → List A → Bool
  any_b p [] = false
  any_b p (x ∷ xs) = p x || any_b p xs

  unfoldable pub all_b : (A → Bool) → List A → Bool
  all_b p [] = true
  all_b p (x ∷ xs) = p x && all_b p xs

module _ {ℓ} {A : Type ℓ} (p : A → Bool) where
  pub any_b-append : (xs ys : List A) → any_b p (xs ++ ys) ≡ (any_b p xs || any_b p ys)
  unfolding any_b
  any_b-append [] ys = refl
  any_b-append (x ∷ xs) ys = ground (arith, any_b-append xs ys)

  -- A filter only takes away.
  pub any_b-filter_b :
      (q : A → Bool) (xs : List A) → any_b p (filter_b q xs) ≡ any_b (λ x. p x && q x) xs
  unfolding any_b filter_b
  any_b-filter_b q [] = refl
  any_b-filter_b q (x ∷ xs) = ground (arith, any_b-filter_b q xs)

  pub any_b-map {κ} :
      {B : Type κ} (f : B → A) (xs : List B) → any_b p (map f xs) ≡ any_b (λ x. p (f x)) xs
  unfolding any_b
  any_b-map f [] = refl
  any_b-map f (x ∷ xs) = ground (arith, any_b-map f xs)

module _ {ℓ} {A : Type ℓ} where
  -- Where one test implies the other.
  pub any_b-imp :
      (p q : A → Bool)
      → ((x : A) → p x ≡ true → q x ≡ true)
      → (xs : List A) → any_b p xs ≡ true
      → any_b q xs ≡ true
  unfolding any_b
  any_b-imp p q h [] e = cc
  any_b-imp p q h (x ∷ xs) e = ground (arith, h x, any_b-imp p q h xs)

  pub any_b-never : (p : A → Bool) → ((x : A) → p x ≡ false) → (xs : List A) → any_b p xs ≡ false
  unfolding any_b
  any_b-never p h [] = refl
  any_b-never p h (x ∷ xs) = ground (arith, h x, any_b-never p h xs)

module _ {ℓ} {A : Type ℓ} (p : A → Bool) where
  -- The element that passes a test, and back.
  pub any_b-elim : (xs : List A) → any_b p xs ≡ true → (x : A) × Memᴰ x xs × (p x ≡ true)
  unfolding any_b
  any_b-elim [] h = cc
  any_b-elim (x ∷ xs) h = elim (Bool-cases (p x)) [
    | inl e ↦ (x, Memᴰ.head refl, e)
    | inr e ↦ let (y, m, q) = any_b-elim xs (ground arith) in (y, Memᴰ.tail m, q)
  ]

  pub any_b-intro : {x : A} {xs : List A} → Memᴰ x xs → p x ≡ true → any_b p xs ≡ true
  unfolding any_b
  any_b-intro (Memᴰ.head e) h = ground arith
  any_b-intro (Memᴰ.tail m) h = ground (arith, any_b-intro m h)

module _ {ℓ} {A : Type ℓ} (q : A → Bool) where
  pub mem-filter_b_of : {x : A} {xs : List A} → Memᴰ x xs → q x ≡ true → Memᴰ x (filter_b q xs)
  unfolding filter_b
  mem-filter_b_of (Memᴰ.head {x = y} e) h = let hy : q y ≡ true = cc in rw hy (Memᴰ.head e)
  mem-filter_b_of (Memᴰ.tail {x = y} m) h = elim (Bool-cases (q y)) [
    | inl e ↦ rw e (Memᴰ.tail (mem-filter_b_of m h))
    | inr e ↦ rw e (mem-filter_b_of m h)
  ]

  pub mem-filter_b : {x : A} (xs : List A) → Memᴰ x (filter_b q xs) → Memᴰ x xs × (q x ≡ true)
  unfolding filter_b
  mem-filter_b [] m = (m, elim m [ ])
  mem-filter_b (y ∷ ys) m = elim (Bool-cases (q y)) [
    | inl e ↦ first y ys (λ m'. mem-filter_b ys m') e (rw e at m)
    | inr e ↦ let (m', h) = mem-filter_b ys (rw e at m) in (Memᴰ.tail m', h)
  ]
    where
      first :
          {x : A} (y : A) (ys : List A)
          → (Memᴰ x (filter_b q ys) → Memᴰ x ys × (q x ≡ true))
          → q y ≡ true
          → Memᴰ x (y ∷ filter_b q ys)
          → Memᴰ x (y ∷ ys) × (q x ≡ true)
      first y ys ih e (Memᴰ.head s) = (Memᴰ.head s, cc)
      first y ys ih e (Memᴰ.tail t) = let (m', h) = ih t in (Memᴰ.tail m', h)

module _ {ℓ κ} {A : Type ℓ} (P : A → Type κ) where
  abbrev pub All : List A → Type κ
  All [] = Unit
  All (x ∷ xs) = P x × All xs

  pub All-append : (xs ys : List A) → All xs → All ys → All (xs ++ ys)
  All-append [] ys _ hy = hy
  All-append (x ∷ xs) ys (px, hx) hy = (px, All-append xs ys hx hy)

  pub All-mem : {x : A} (xs : List A) → All xs → Memᴰ x xs → P x
  All-mem [] h m = elim m [ ]
  All-mem (y ∷ ys) (h, hs) (Memᴰ.head e) = subst P (sym e) h
  All-mem (y ∷ ys) (h, hs) (Memᴰ.tail m) = All-mem ys hs m

  -- There is an element with the property, and where it stands.
  abbrev pub Exists : List A → Type (ℓ ⊔ κ)
  Exists xs = (x : A) × Memᴰ x xs × P x

module _ {ℓ κ} {A : Type ℓ} {P : A → Type κ} where
  pub All-of_forall : ((x : A) → P x) → (xs : List A) → All P xs
  All-of_forall h [] = tt
  All-of_forall h (x ∷ xs) = (h x, All-of_forall h xs)

module _ {ℓ κ μ} {A : Type ℓ} {P : A → Type κ} {Q : A → Type μ} where
  pub All-imp : ((x : A) → P x → Q x) → (xs : List A) → All P xs → All Q xs
  All-imp h [] _ = tt
  All-imp h (x ∷ xs) (px, hx) = (h x px, All-imp h xs hx)
