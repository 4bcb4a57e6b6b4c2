-- ===== src/Bucketteer/CleanSet.antt =====
-- bucketteer/write.go: the hashes that `getCleanSet` returns.
use yellowstone_faithful.Prelude.{
  ℕ, ◌≤◌, ◌<◌, ◌≡◌, ◌≢◌, ◌↔◌, refl, Bool, false, List, [], ◌∷◌, length, All, arith, ◌==◌,
  Bool-cases, inl, inr, All-imp, subst,
}
use yellowstone_faithful.Eytzinger.Search.{Sorted}
use yellowstone_faithful.Sorting.{sort_by, sort_by-Sorted, sort_by-All, All-sort_by, length-sort_by}
use yellowstone_faithful.Bucketteer.Writer.{has_hash, dedup, dedup_after, get_clean_set}

-- `has_hash` is false exactly on a list of other hashes.
pub has_hash-false : (xs : List ℕ) (h : ℕ) → (has_hash xs h ≡ false) ↔ All (λ y. y ≢ h) xs
unfolding has_hash
has_hash-false [] h = (λ _. tt, λ _. refl)
has_hash-false (x ∷ xs) h = ground (arith, has_hash-false xs h)

abbrev pub Increasing : List ℕ → Type 0
Increasing [] = Unit {0}
Increasing (x ∷ xs) = All (λ y. x < y) xs × Increasing xs

abbrev NumSorted : List ℕ → Type 0
NumSorted = Sorted (λ x. x)

module _ (P : ℕ → Type 0) where
  dedup_after-All : (p : ℕ) (xs : List ℕ) → All P xs → All P (dedup_after p xs)
  unfolding dedup_after
  dedup_after-All p [] h = tt
  dedup_after-All p (x ∷ xs) h = elim (Bool-cases (x == p)) [
    | inl e ↦ rw e (dedup_after-All x xs h.1)
    | inr e ↦ rw e (h.0, dedup_after-All x xs h.1)
  ]

  All-dedup_after : (p : ℕ) (xs : List ℕ) → P p → All P (dedup_after p xs) → All P xs
  unfolding dedup_after
  All-dedup_after p [] hp h = tt
  All-dedup_after p (x ∷ xs) hp h = elim (Bool-cases (x == p)) [
    | inl e ↦
        let h' = rw e at h in
        let px : P x = subst P (ground arith) hp in (px, All-dedup_after x xs px h')
    | inr e ↦ let h' = rw e at h in (h'.0, All-dedup_after x xs h'.0 h'.1)
  ]

  dedup-All : (xs : List ℕ) → All P xs → All P (dedup xs)
  unfolding dedup
  dedup-All [] h = tt
  dedup-All (x ∷ xs) h = (h.0, dedup_after-All x xs h.1)

  All-dedup : (xs : List ℕ) → All P (dedup xs) → All P xs
  unfolding dedup
  All-dedup [] h = tt
  All-dedup (x ∷ xs) h = (h.0, All-dedup_after x xs h.0 h.1)

dedup_after-Increasing :
    (p : ℕ) (xs : List ℕ)
    → All (λ y. p ≤ y) xs
    → NumSorted xs
    → All (λ y. p < y) (dedup_after p xs) × Increasing (dedup_after p xs)
unfolding dedup_after
dedup_after-Increasing p [] h s = (tt, tt)
dedup_after-Increasing p (x ∷ xs) h s =
    let (above, increasing) = dedup_after-Increasing x xs s.0 s.1 in
    elim (Bool-cases (x == p)) [
      | inl e ↦ rw e (All-imp _ _ (λ y q. ground arith) (dedup_after x xs) above, increasing)
      | inr e ↦ rw e (
        (ground arith, All-imp _ _ (λ y q. omega arith) (dedup_after x xs) above),
        (above, increasing),
      )
    ]

dedup-Increasing : (xs : List ℕ) → NumSorted xs → Increasing (dedup xs)
unfolding dedup
dedup-Increasing [] s = tt
dedup-Increasing (x ∷ xs) s = dedup_after-Increasing x xs s.0 s.1

pub Increasing-Sorted : (xs : List ℕ) → Increasing xs → Sorted (λ x. x) xs
Increasing-Sorted [] h = tt
Increasing-Sorted (x ∷ xs) h = (All-imp _ _ (λ y q. omega arith) xs h.0, Increasing-Sorted xs h.1)

dedup_after-length : (p : ℕ) (xs : List ℕ) → length (dedup_after p xs) ≤ length xs
unfolding dedup_after
dedup_after-length p [] = omega arith
dedup_after-length p (x ∷ xs) = ground (arith, dedup_after-length x xs)

dedup-length : (xs : List ℕ) → length (dedup xs) ≤ length xs
unfolding dedup
dedup-length [] = omega arith
dedup-length (x ∷ xs) = omega (arith, dedup_after-length x xs)

pub get_clean_set-All : (P : ℕ → Type 0) (xs : List ℕ) → All P xs → All P (get_clean_set xs)
unfolding get_clean_set
get_clean_set-All P xs h = dedup-All P (sort_by (λ x. x) xs) (sort_by-All (λ x. x) P xs h)

pub All-get_clean_set : (P : ℕ → Type 0) (xs : List ℕ) → All P (get_clean_set xs) → All P xs
unfolding get_clean_set
All-get_clean_set P xs h = All-sort_by (λ x. x) P xs (All-dedup P (sort_by (λ x. x) xs) h)

eq_of_false_iff : (a b : Bool) → ((a ≡ false) ↔ (b ≡ false)) → a ≡ b
eq_of_false_iff a b h = ground arith

-- `getCleanSet` returns its hashes strictly increasing: each hash of the bucket once, and no
-- other, so not more of them than there were.
pub get_clean_set_lem :
    (xs : List ℕ)
    → Increasing (get_clean_set xs)
      × ((h : ℕ) → has_hash (get_clean_set xs) h ≡ has_hash xs h)
      × (length (get_clean_set xs) ≤ length xs)
get_clean_set_lem xs = (
  unfold get_clean_set in dedup-Increasing (sort_by (λ x. x) xs) (sort_by-Sorted (λ x. x) xs),
  λ h. eq_of_false_iff _ _ (
    λ e. (has_hash-false xs h).1 (All-get_clean_set _ xs ((has_hash-false _ h).0 e)),
    λ e. (has_hash-false _ h).1 (get_clean_set-All _ xs ((has_hash-false xs h).0 e)),
  ),
  unfold get_clean_set in
      omega (arith, dedup-length (sort_by (λ x. x) xs), length-sort_by (λ x. x) xs),
)
