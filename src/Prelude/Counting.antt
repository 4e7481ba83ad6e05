-- ===== src/Prelude/Counting.antt =====
-- How often a test holds in a list: two lists hold the same elements equally often exactly when
-- every test counts the same in both.
use dorganizer.Prelude.{
  ℕ, ◌+◌, Bool, true, not, List, [], ◌∷◌, ◌++◌, if◌then◌else◌, filter_b, any_b, length, ltb, All,
  Memᴰ, ◌≡◌, refl, arith, Bool-cases, inl, inr,
}
use dorganizer.Prelude.Sorting.{insert_by, insert_all, sort_by}

unfoldable pub count_b {ℓ} : {A : Type ℓ} → (A → Bool) → List A → ℕ
count_b p [] = 0
count_b p (x ∷ xs) = let rest = count_b p xs in if p x then rest + 1 else rest

module _ {ℓ} {A : Type ℓ} where
  module _ (p : A → Bool) where
    pub count_b-append : (xs ys : List A) → count_b p (xs ++ ys) ≡ count_b p xs + count_b p ys
    unfolding count_b
    count_b-append [] ys = ground arith
    count_b-append (x ∷ xs) ys = ground (arith, count_b-append xs ys)

    -- What a filter keeps and what it drops.
    pub count_b-filter_b :
        (q : A → Bool) (xs : List A)
        → count_b p (filter_b q xs) + count_b p (filter_b (λ x. not (q x)) xs) ≡ count_b p xs
    unfolding count_b filter_b
    count_b-filter_b q [] = refl
    count_b-filter_b q (x ∷ xs) = ground (arith, count_b-filter_b q xs)

    pub any_b-count_b : (xs : List A) → any_b p xs ≡ ltb 0 (count_b p xs)
    unfolding count_b any_b
    any_b-count_b [] = refl
    any_b-count_b (x ∷ xs) = ground (arith, any_b-count_b xs)

  pub length-count_b : (xs : List A) → length xs ≡ count_b (λ _. true) xs
  unfolding count_b
  length-count_b [] = refl
  length-count_b (x ∷ xs) = ground (arith, length-count_b xs)

  module _ (less : A → A → Bool) (p : A → Bool) where
    count_b-insert_by : (x : A) (ys : List A) → count_b p (insert_by less x ys) ≡ count_b p (x ∷ ys)
    unfolding count_b insert_by
    count_b-insert_by x [] = refl
    count_b-insert_by x (y ∷ ys) = ground (arith, count_b-insert_by x ys)

    count_b-insert_all :
        (xs out : List A) → count_b p (insert_all less xs out) ≡ count_b p xs + count_b p out
    unfolding count_b insert_all
    count_b-insert_all [] out = ground arith
    count_b-insert_all (x ∷ xs) out =
        ground (arith, count_b-insert_by x out, count_b-insert_all xs (insert_by less x out))

    pub count_b-sort_by : (xs : List A) → count_b p (sort_by less xs) ≡ count_b p xs
    unfolding count_b sort_by
    count_b-sort_by xs = ground (arith, count_b-insert_all xs [])

-- What holds of every element holds of every element once sorted.
module _ {ℓ κ} {A : Type ℓ} (less : A → A → Bool) (P : A → Type κ) where
  All-insert_by : (x : A) (ys : List A) → P x → All P ys → All P (insert_by less x ys)
  unfolding insert_by
  All-insert_by x [] h hs = (h, tt)
  All-insert_by x (y ∷ ys) h (k, hs) = elim (Bool-cases (less x y)) [
    | inl e ↦ rw (insert_by, e) (h, (k, hs))
    | inr e ↦ rw (insert_by, e) (k, All-insert_by x ys h hs)
  ]

  All-insert_all : (xs out : List A) → All P xs → All P out → All P (insert_all less xs out)
  unfolding insert_all
  All-insert_all [] out hs ks = ks
  All-insert_all (x ∷ xs) out (h, hs) ks =
      All-insert_all xs (insert_by less x out) hs (All-insert_by x out h ks)

  pub All-sort_by : (xs : List A) → All P xs → All P (sort_by less xs)
  unfolding sort_by
  All-sort_by xs hs = All-insert_all xs [] hs tt

  All-insert_by_inv : (x : A) (ys : List A) → All P (insert_by less x ys) → P x × All P ys
  unfolding insert_by
  All-insert_by_inv x [] h = h
  All-insert_by_inv x (y ∷ ys) h = elim (Bool-cases (less x y)) [
    | inl e ↦ rw e at h
    | inr e ↦ let (k, hs) = rw e at h in let (hx, ks) = All-insert_by_inv x ys hs in (hx, (k, ks))
  ]

  All-insert_all_inv : (xs out : List A) → All P (insert_all less xs out) → All P xs × All P out
  unfolding insert_all
  All-insert_all_inv [] out h = (tt, h)
  All-insert_all_inv (x ∷ xs) out h =
      let (hs, ks) = All-insert_all_inv xs (insert_by less x out) h in
      let (k, rest) = All-insert_by_inv x out ks in ((k, hs), rest)

  -- What holds of every element of the sorted list held before.
  pub All-sort_by_inv : (xs : List A) → All P (sort_by less xs) → All P xs
  unfolding sort_by
  All-sort_by_inv xs h = (All-insert_all_inv xs [] h).0

-- Every element of a list is in it.
module _ {ℓ} {A : Type ℓ} where
  All-within : (ys xs : List A) → ((x : A) → Memᴰ x xs → Memᴰ x ys) → All (λ x. Memᴰ x ys) xs
  All-within ys [] h = tt
  All-within ys (x ∷ xs) h = (h x (Memᴰ.head refl), All-within ys xs (λ z m. h z (Memᴰ.tail m)))

  pub All-self : (xs : List A) → All (λ x. Memᴰ x xs) xs
  All-self xs = All-within xs xs (λ x m. m)
