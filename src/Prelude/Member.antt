-- ===== src/Prelude/Member.antt =====
-- Membership of a text in a list of texts, as the Boolean that a Go set or a `range` loop answers.
use dorganizer.Prelude.{
  Bool, true, false, ◌||◌, ◌&&◌, not, bytes_ltb, bytes_beq_iff, List, [], ◌∷◌, ◌++◌, Bytes,
  if◌then◌else◌, Bool-cases, inl, inr, ◌==◌, bytes_eq, ◌≡◌, refl, arith,
}
use dorganizer.Prelude.Sorting.{insert_by, insert_all, sort_by, sort_strings}

unfoldable pub elem : Bytes → List Bytes → Bool
elem x [] = false
elem x (y ∷ ys) = x == y || elem x ys

pub elem-append : (x : Bytes) (xs ys : List Bytes) → elem x (xs ++ ys) ≡ (elem x xs || elem x ys)
unfolding elem
elem-append x [] ys = refl
elem-append x (y ∷ xs) ys = ground (arith, elem-append x xs ys)

-- No text twice.
unfoldable pub nodup_b : List Bytes → Bool
unfolding elem
nodup_b [] = true
nodup_b (x ∷ xs) = not (elem x xs) && nodup_b xs

module _ (x : Bytes) where
  elem-insert_by :
      (y : Bytes) (ys : List Bytes) → elem x (insert_by bytes_ltb y ys) ≡ (x == y || elem x ys)
  unfolding insert_by elem
  elem-insert_by y [] = refl
  elem-insert_by y (z ∷ ys) = ground (arith, elem-insert_by y ys)

  elem-insert_all :
      (xs out : List Bytes) → elem x (insert_all bytes_ltb xs out) ≡ (elem x xs || elem x out)
  unfolding insert_all elem
  elem-insert_all [] out = refl
  elem-insert_all (y ∷ xs) out =
      ground (arith, elem-insert_by y out, elem-insert_all xs (insert_by bytes_ltb y out))

  pub elem-sort_strings : (xs : List Bytes) → elem x (sort_strings xs) ≡ elem x xs
  unfolding sort_strings sort_by elem
  elem-sort_strings xs = ground (arith, elem-insert_all xs [])

nodup-insert_by :
    (x : Bytes) (ys : List Bytes)
    → nodup_b (insert_by bytes_ltb x ys) ≡ (not (elem x ys) && nodup_b ys)
unfolding insert_by nodup_b elem
nodup-insert_by x [] = refl
nodup-insert_by x (y ∷ ys) =
    ground
      (arith, bytes_beq_iff x y, bytes_beq_iff y x, elem-insert_by y x ys, nodup-insert_by x ys)

-- Sorting a list without repetitions gives one.
nodup-insert_all :
    (xs out : List Bytes)
    → nodup_b xs ≡ true
    → nodup_b out ≡ true
    → ((x : Bytes) → elem x xs ≡ true → elem x out ≡ false)
    → nodup_b (insert_all bytes_ltb xs out) ≡ true
unfolding insert_all nodup_b elem
nodup-insert_all [] out hx ho apart = ho
nodup-insert_all (x ∷ xs) out hx ho apart =
    nodup-insert_all xs (insert_by bytes_ltb x out) (ground arith)
      (ground (arith, nodup-insert_by x out, apart x, bytes_beq_iff x x))
      (λ y h. ground (arith, elem-insert_by y x out, apart y, bytes_beq_iff y x))

pub nodup-sort_strings : (xs : List Bytes) → nodup_b xs ≡ true → nodup_b (sort_strings xs) ≡ true
unfolding sort_strings sort_by elem
nodup-sort_strings xs h = nodup-insert_all xs [] h (unfold nodup_b in refl) (λ x _. refl)

-- `append` behind the test of a set.
pub nodup-snoc :
    (xs : List Bytes) (x : Bytes)
    → nodup_b xs ≡ true
    → nodup_b (if elem x xs then xs else xs ++ x ∷ []) ≡ true
unfolding nodup_b elem
nodup-snoc xs x h = elim (Bool-cases (elem x xs)) [ inl e ↦ rw e h | inr e ↦ rw e (snoc xs h e) ]
  where
    snoc : (ys : List Bytes) → nodup_b ys ≡ true → elem x ys ≡ false → nodup_b (ys ++ x ∷ []) ≡ true
    snoc [] h e = refl
    snoc (y ∷ ys) h e =
        ground (arith, bytes_beq_iff x y, bytes_beq_iff y x, elem-append y ys (x ∷ []), snoc ys)
