-- ===== src/Sorting.antt =====
-- Go's `sort.Slice` on items that carry a number, by insertion. The order of items with equal
-- numbers, which `sort.Slice` leaves open, is never relied on.
use yellowstone_faithful.Prelude.{
  ℕ, ◌≤◌, ◌≡◌, refl, List, [], ◌∷◌, length, All, leb, if◌then◌else◌, arith, All-imp, ◌+◌,
  Bool-cases, inl, inr,
}
use yellowstone_faithful.Eytzinger.Search.{Sorted}

module _ {ℓ} {A : Type ℓ} (key : A → ℕ) where
  unfoldable pub insert_sorted : A → List A → List A
  insert_sorted x [] = x ∷ []
  insert_sorted x (y ∷ ys) =
      let rest : List A = insert_sorted x ys in
      if leb (key x) (key y) then x ∷ (y ∷ ys) else y ∷ rest

  unfoldable pub sort_by : List A → List A
  sort_by [] = []
  sort_by (x ∷ xs) = insert_sorted x (sort_by xs)

  insert_sorted-All {κ} :
      (P : A → Type κ) (x : A) (xs : List A) → P x → All P xs → All P (insert_sorted x xs)
  unfolding insert_sorted
  insert_sorted-All P x [] h hs = (h, tt)
  insert_sorted-All P x (y ∷ ys) h hs = elim (Bool-cases (leb (key x) (key y))) [
    | inl e ↦ rw e (h, hs)
    | inr e ↦ rw e (hs.0, insert_sorted-All P x ys h hs.1)
  ]

  All-insert_sorted {κ} :
      (P : A → Type κ) (x : A) (xs : List A) → All P (insert_sorted x xs) → P x × All P xs
  unfolding insert_sorted
  All-insert_sorted P x [] h = h
  All-insert_sorted P x (y ∷ ys) h = elim (Bool-cases (leb (key x) (key y))) [
    | inl e ↦ let h' = rw e at h in (h'.0, h'.1)
    | inr e ↦
        let h' = rw e at h in let (px, pys) = All-insert_sorted P x ys h'.1 in (px, (h'.0, pys))
  ]

  insert_sorted-Sorted : (x : A) (xs : List A) → Sorted key xs → Sorted key (insert_sorted x xs)
  unfolding insert_sorted
  insert_sorted-Sorted x [] s = (tt, tt)
  insert_sorted-Sorted x (y ∷ ys) s = elim (Bool-cases (leb (key x) (key y))) [
    | inl e ↦ rw e ((ground arith, All-imp _ _ (λ z h. ground arith) ys s.0), s)
    | inr e ↦ rw e (
      insert_sorted-All (λ z. key y ≤ key z) x ys (ground arith) s.0,
      insert_sorted-Sorted x ys s.1,
    )
  ]

  length-insert_sorted : (x : A) (xs : List A) → length (insert_sorted x xs) ≡ length xs + 1
  unfolding insert_sorted
  length-insert_sorted x [] = omega arith
  length-insert_sorted x (y ∷ ys) = ground (arith, length-insert_sorted x ys)

  -- Sorting orders the items and neither loses nor invents one.
  pub sort_by-Sorted : (xs : List A) → Sorted key (sort_by xs)
  unfolding sort_by
  sort_by-Sorted [] = tt
  sort_by-Sorted (x ∷ xs) = insert_sorted-Sorted x (sort_by xs) (sort_by-Sorted xs)

  pub sort_by-All {κ} : (P : A → Type κ) (xs : List A) → All P xs → All P (sort_by xs)
  unfolding sort_by
  sort_by-All P [] h = tt
  sort_by-All P (x ∷ xs) h = insert_sorted-All P x (sort_by xs) h.0 (sort_by-All P xs h.1)

  pub All-sort_by {κ} : (P : A → Type κ) (xs : List A) → All P (sort_by xs) → All P xs
  unfolding sort_by
  All-sort_by P [] h = tt
  All-sort_by P (x ∷ xs) h =
      let (px, pxs) = All-insert_sorted P x (sort_by xs) h in (px, All-sort_by P xs pxs)

  pub length-sort_by : (xs : List A) → length (sort_by xs) ≡ length xs
  unfolding sort_by
  length-sort_by [] = refl
  length-sort_by (x ∷ xs) = omega (arith, length-insert_sorted x (sort_by xs), length-sort_by xs)
