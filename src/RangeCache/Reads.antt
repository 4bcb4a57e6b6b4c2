-- ===== src/RangeCache/Reads.antt =====
-- range-cache/range-cache.go: what a read through the cache answers.
use yellowstone_faithful.Prelude.{
  ℕ, zero, suc, ◌+◌, ◌-◌, ◌^◌, ◌<◌, ◌≤◌, ◌≡◌, ◌⊎◌, ◌∙◌, refl, sym, ap, inl, inr, Bool, true, false,
  ◌&&◌, ◌==◌, List, [], ◌∷◌, length, take, drop, drop-drop, take_all, Result, ok, err, arith, All,
  Bool-cases, Option-cases, Option, none, some,
}
use yellowstone_faithful.Bytes.{slice, slice_checked}
use yellowstone_faithful.Bytes.Laws.{length-slice, slice_checked-ok}
use yellowstone_faithful.RangeCache.{
  Error, Range, CacheEntry, RangeCache, contains, sub64, int64_le, find_exact, superset_loop,
  get_range_from_cache, done_context,
}
use yellowstone_faithful.RangeCache.Validity.{Faithful, IsValid, both_same}

take-drop-take :
    (xs : List ℕ) (b m n : ℕ) → b + m ≤ n → take m (drop b (take n xs)) ≡ take m (drop b xs)
take-drop-take [] b m n h = ap (λ l. take m (drop b l)) (take_all [] n (omega arith))
take-drop-take (x ∷ xs) b zero zero h = refl
take-drop-take (x ∷ xs) b (suc m) zero h = absurd (omega arith)
take-drop-take (x ∷ xs) zero zero (suc n) h = refl
take-drop-take (x ∷ xs) zero (suc m) (suc n) h =
    ap (λ l. x ∷ l) (take-drop-take xs zero m n (omega arith))
take-drop-take (x ∷ xs) (suc b) m (suc n) h = take-drop-take xs b m n (omega arith)

slice-slice :
    (file : List ℕ) (a n b m : ℕ) → b + m ≤ n → slice (slice file a n) b m ≡ slice file (a + b) m
slice-slice file a n b m h = take-drop-take (drop a file) b m n h ∙ ap (take m) (drop-drop a b file)

both_true : (a b : Bool) → (a && b) ≡ true → (a ≡ true) × (b ≡ true)
both_true true b h = (refl, h)
both_true false b h = cc

pub contains_lem :
    (r r2 : Range)
    → r.start < 2 ^ 63
    → r.end < 2 ^ 63
    → r2.start < 2 ^ 63
    → r2.end < 2 ^ 63
    → contains r r2 ≡ true
    → (r.start ≤ r2.start) × (r2.end ≤ r.end)
unfolding contains
contains_lem r r2 h₁ h₂ h₃ h₄ e =
    let (lo, hi) = both_true (int64_le r.start r2.start) (int64_le r2.end r.end) e in
    (ground arith, ground arith)

some_injective : {a b : List ℕ} → ◌≡◌ {A = Option (List ℕ)} (some a) (some b) → a ≡ b
some_injective q = cc

module _ (file : List ℕ) (small : length file < 2 ^ 63) (done : ℕ → Bool) (start ln : ℕ)
    (inside : start + ln ≤ length file) where
  abbrev pub want : Range
  want = record { start = start; end = start + ln }

  -- What the cache can answer: nothing, the bytes of the file, or that the context is done.
  abbrev pub Answer : Result Error (Option (List ℕ)) → Type 0
  Answer o =
      (o ≡ ok none)
      ⊎ ((o ≡ ok (some (slice file start ln)))
          ⊎ ((o ≡ err done_context) × (k : ℕ) × (done k ≡ true)))

  pub find_exact-Faithful :
      (es : List CacheEntry) (v : List ℕ)
      → All (Faithful file) es
      → find_exact want es ≡ some v
      → v ≡ slice file start ln
  unfolding find_exact
  find_exact-Faithful [] v f e = cc
  find_exact-Faithful (o ∷ os) v f e =
      elim (Bool-cases ((o.range.start == start) && (o.range.end == start + ln))) [
        | inl same ↦
            let (e₁, e₂) = both_same o.range.start start o.range.end (start + ln) same in
            some_injective (sym (rw same at e))
            ∙ f.0.true_value
            ∙ ap (λ n. slice file n (o.range.end - n)) e₁
            ∙ ap (slice file start) (omega (arith, e₂))
        | inr other ↦ find_exact-Faithful os v f.1 (rw other at e)
      ]

  pub cut_entry :
      (o : CacheEntry)
      → Faithful file o
      → contains o.range want ≡ true
      → slice_checked {E = Error} o.value
          (sub64 start o.range.start)
          (sub64 (start + ln) o.range.start)
        ≡ ok (slice file start ln)
  cut_entry o f c =
      let (lo, hi) =
        contains_lem o.range want (omega (arith, f.ordered, f.inside)) (omega (arith, f.inside))
          (omega arith) (omega arith) c in
      let a : ℕ = o.range.start in
      let n : ℕ = o.range.end - a in
      let size = length-slice file a n (omega (arith, f.ordered, f.inside)) in
      ap (λ k. slice_checked o.value k (sub64 (start + ln) a)) {x = sub64 start a} {y = start - a}
        (omega (arith, f.inside))
      ∙ ap (slice_checked o.value (start - a)) {x = sub64 (start + ln) a} {y = start + ln - a}
          (omega (arith, f.inside))
      ∙ slice_checked-ok o.value (start - a) (start + ln - a) (omega arith)
          (omega (arith, ap length f.true_value))
      ∙ ap (λ k. ok (slice o.value (start - a) k)) {x = start + ln - a - (start - a)} {y = ln}
          (omega arith)
      ∙ ap (λ l. ok (slice l (start - a) ln)) f.true_value
      ∙ ap ok (slice-slice file a n (start - a) ln (omega arith))
      ∙ ap (λ k. ok (slice file k ln)) {x = a + (start - a)} {y = start} (omega arith)

  superset_loop-Answer :
      (i : ℕ) (es : List CacheEntry)
      → All (Faithful file) es
      → Answer (superset_loop done want i es)
  unfolding superset_loop
  superset_loop-Answer i [] f = inl refl
  superset_loop-Answer i (o ∷ os) f = elim (Bool-cases (done i)) [
    | inl stop ↦ rw stop (inr (inr (refl, i, stop)))
    | inr go ↦ elim (Bool-cases (contains o.range want)) [
      | inl covers ↦ rw (go, covers, cut_entry o f.0 covers) (inr (inl refl))
      | inr other ↦ rw (go, other) (superset_loop-Answer (i + 1) os f.1)
    ]
  ]

  pub get_range_from_cache-Answer :
      (rc : RangeCache) → IsValid file rc → Answer (get_range_from_cache done rc want)
  unfolding get_range_from_cache
  get_range_from_cache-Answer rc v = elim (Option-cases (find_exact want rc.cache)) [
    | inl none_exact ↦
        rw (none_exact, get_range_from_cache) (superset_loop-Answer 0 rc.cache v.faithful)
    | inr (bytes, found) ↦
        rw (found, get_range_from_cache)
          (inr (inl (ap (λ b. ok (some b)) (find_exact-Faithful rc.cache bytes v.faithful found))))
  ]
