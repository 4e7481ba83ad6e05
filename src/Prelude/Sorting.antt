-- ===== src/Prelude/Sorting.antt =====
-- `sort.Slice`, `sort.SliceStable` and `sort.Strings` by insertion, which is stable: where the
-- order leaves elements equal, the unstable sorts of the library may answer another order.
use dorganizer.Prelude.{
  Bool, ◌||◌, List, [], ◌∷◌, if◌then◌else◌, Bytes, bytes_ltb, any_b, ◌≡◌, refl, arith,
}

module _ {ℓ} {A : Type ℓ} (less : A → A → Bool) where
  -- Into a sorted list, in front of the first element that is greater.
  unfoldable pub insert_by : A → List A → List A
  insert_by x [] = x ∷ []
  insert_by x (y ∷ ys) = let rest = insert_by x ys in if less x y then x ∷ y ∷ ys else y ∷ rest

  unfoldable pub insert_all : List A → List A → List A
  insert_all [] out = out
  insert_all (x ∷ xs) out = insert_all xs (insert_by x out)

  unfoldable pub sort_by : List A → List A
  unfolding insert_by insert_all
  sort_by xs = insert_all xs []

unfoldable pub sort_strings : List Bytes → List Bytes
sort_strings = sort_by bytes_ltb

-- Sorting keeps what is there.
module _ {ℓ} {A : Type ℓ} (less : A → A → Bool) (p : A → Bool) where
  any_b-insert_by : (x : A) (ys : List A) → any_b p (insert_by less x ys) ≡ (p x || any_b p ys)
  unfolding insert_by any_b
  any_b-insert_by x [] = refl
  any_b-insert_by x (y ∷ ys) = ground (arith, any_b-insert_by x ys)

  any_b-insert_all :
      (xs out : List A) → any_b p (insert_all less xs out) ≡ (any_b p xs || any_b p out)
  unfolding insert_all any_b
  any_b-insert_all [] out = refl
  any_b-insert_all (x ∷ xs) out =
      ground (arith, any_b-insert_by x out, any_b-insert_all xs (insert_by less x out))

  pub any_b-sort_by : (xs : List A) → any_b p (sort_by less xs) ≡ any_b p xs
  unfolding sort_by any_b
  any_b-sort_by xs = ground (arith, any_b-insert_all xs [])
