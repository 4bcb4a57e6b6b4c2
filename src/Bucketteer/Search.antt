-- ===== src/Bucketteer/Search.antt =====
-- bucketteer/read.go: `searchEytzinger` on a bucket that `sortWithCompare` laid out.
use yellowstone_faithful.Prelude.{
  ℕ, suc, ◌+◌, ◌≤◌, ◌<◌, ◌≡◌, ◌≢◌, ap, ◌∙◌, inl, inr, some, List, [], ◌∷◌, length, get_elem?, All,
  Result, ok, err, arith, ◌==◌, if◌then◌else◌, Bool-cases, Option-cases,
}
use yellowstone_faithful.Eytzinger.Search.{find, next_index}
use yellowstone_faithful.Eytzinger.Walk.{as_result, loop-find}
use yellowstone_faithful.Eytzinger.Lookup.{find-layout_some, find-layout_none, length-layout}
use yellowstone_faithful.Bucketteer.{BucketError, not_found, search_loop, search_eytzinger}
use yellowstone_faithful.Bucketteer.Writer.{has_hash, sort_with_compare}
use yellowstone_faithful.Bucketteer.CleanSet.{has_hash-false}
use yellowstone_faithful.Sorting.{sort_by, sort_by-Sorted, sort_by-All, All-sort_by}

-- `getter` reads the slice `out`.
abbrev pub Reads : List ℕ → (ℕ → Result BucketError ℕ) → Type 0
Reads out getter = (i v : ℕ) → get_elem? out i ≡ some v → getter i ≡ ok v

module _ (max x : ℕ) (getter : ℕ → Result BucketError ℕ) where
  loop_end : (f i : ℕ) → max ≤ i → search_loop (suc f) max x getter i ≡ err not_found
  unfolding search_loop
  loop_end f i h = ground arith

  loop_step :
      (f i k : ℕ)
      → i < max
      → getter i ≡ ok k
      → search_loop (suc f) max x getter i
        ≡ (if k == x then ok k else search_loop f max x getter (next_index k x i))
  unfolding search_loop
  loop_step f i k h e = ground arith

search_loop-find :
    (out : List ℕ) (x : ℕ) (getter : ℕ → Result BucketError ℕ)
    → Reads out getter
    → search_loop (length out + 1) (length out) x getter 0
      ≡ as_result (λ y. y) not_found (find (λ y. y) (length out + 1) out x 0)
search_loop-find out x getter r =
    loop-find (λ y. y) (λ y. y) not_found out x (λ f i. search_loop f (length out) x getter i)
      (loop_end (length out) x getter)
      (λ f i k e inside. loop_step (length out) x getter f i k inside (r i k e)) (length out + 1) 0
      (omega arith) (omega arith)

All-unit : (xs : List ℕ) → All (λ y. Unit {0}) xs
All-unit [] = tt
All-unit (x ∷ xs) = (tt, All-unit xs)

-- On the sorted and laid out hashes of a bucket, whatever they are, `searchEytzinger` ends: with the
-- hash that it looks for if the bucket has it, and with `ErrNotFound` if not.
pub search_eytzinger_lem :
    (hashes out : List ℕ) (x : ℕ) (getter : ℕ → Result BucketError ℕ)
    → sort_with_compare hashes ≡ ok out
    → Reads out getter
    → search_eytzinger (length out) x getter ≡ (if has_hash hashes x then ok x else err not_found)
unfolding search_eytzinger sort_with_compare
search_eytzinger_lem hashes out x getter e r = search_loop-find out x getter r ∙ answer
  where
    sorted : List ℕ
    sorted = sort_by (λ y. y) hashes

    same_length : length out ≡ length sorted
    same_length = length-layout (λ y. y) 0 sorted out (length sorted + 1) x e (omega arith)

    answer :
        as_result (λ y. y) not_found (find (λ y. y) (length out + 1) out x 0)
        ≡ (if has_hash hashes x then ok x else err not_found)
    answer = elim (Option-cases (find (λ y. y) (length out + 1) out x 0)) [
      | inl q ↦
          let missing =
            find-layout_none (λ y. y) 0 sorted out (length out + 1) x e (omega (arith, same_length))
              (sort_by-Sorted (λ y. y) hashes) q in
          rw (q, (has_hash-false hashes x).1 (All-sort_by (λ y. y) (λ y. y ≢ x) hashes missing))
      | inr (w, q) ↦ elim (Bool-cases (has_hash hashes x)) [
        | inl t ↦
            rw (q, t)
              (ap ok
                (find-layout_some (λ y. y) 0 sorted out (length out + 1) x e
                  (omega (arith, same_length)) (λ y. Unit {0}) w
                  (sort_by-All (λ y. y) (λ y. Unit {0}) hashes (All-unit hashes)) q).1)
        | inr f ↦
            let (ne, eq) =
              find-layout_some (λ y. y) 0 sorted out (length out + 1) x e
                (omega (arith, same_length)) (λ y. y ≢ x) w
                (sort_by-All (λ y. y) (λ y. y ≢ x) hashes ((has_hash-false hashes x).0 f)) q in
            absurd (ne eq)
      ]
    ]
