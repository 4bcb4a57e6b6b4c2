-- ===== src/RangeCache/Hits.antt =====
-- range-cache/range-cache.go: reads that the cache answers on its own.
use yellowstone_faithful.Prelude.{
  if_true, ℕ, ◌+◌, ◌%◌, ◌^◌, ◌<◌, ◌≤◌, ◌≡◌, ◌⊎◌, ◌∙◌, refl, sym, ap, subst, inl, inr, Bool, true,
  false, List, [], ◌∷◌, ◌++◌, length, Result, ok, arith, All, Bool-cases, Option-cases, some,
}
use yellowstone_faithful.Bytes.{slice}
use yellowstone_faithful.Bytes.Laws.{length-slice}
use yellowstone_faithful.Streams.{ReaderAt}
use yellowstone_faithful.RangeCache.{
  Error, Range, CacheEntry, RangeCache, contains, sub64, set_loop, Ending, context_done, find_exact,
  already_cached, to_insert, finish_set, set_range, superset_loop, get_range_from_cache, or_miss,
  get_range, miss, checked_length,
}
use yellowstone_faithful.RangeCache.Invariant.{Clear, set_loop-Left}
use yellowstone_faithful.RangeCache.Validity.{
  Faithful, IsValid, assign-new, set_range_within, set_range-IsValid, from_zero, whole_length,
  same_length,
}
use yellowstone_faithful.RangeCache.Reads.{contains_lem, cut_entry, find_exact-Faithful}
use yellowstone_faithful.RangeCache.Transparency.{get_range_with-inside}

-- An entry whose range contains `ln` bytes from `start` on stands in the list.
abbrev Covered : ℕ → ℕ → List CacheEntry → Type 0
Covered start ln [] = ⊥
Covered start ln (o ∷ os) =
    ((o.range.start ≤ start) × (start + ln ≤ o.range.end)) ⊎ Covered start ln os

Covered-sub :
    (start ln start' ln' : ℕ) (es : List CacheEntry)
    → start ≤ start'
    → start' + ln' ≤ start + ln
    → Covered start ln es
    → Covered start' ln' es
Covered-sub start ln start' ln' [] h₁ h₂ c = elim c [ ]
Covered-sub start ln start' ln' (o ∷ os) h₁ h₂ (inl (lo, hi)) = inl (omega arith, omega arith)
Covered-sub start ln start' ln' (o ∷ os) h₁ h₂ (inr c) =
    inr (Covered-sub start ln start' ln' os h₁ h₂ c)

Covered-last :
    (start ln : ℕ) (es : List CacheEntry) (e : CacheEntry)
    → e.range.start ≤ start
    → start + ln ≤ e.range.end
    → Covered start ln (es ++ (e ∷ []))
Covered-last start ln [] e lo hi = inl (lo, hi)
Covered-last start ln (o ∷ os) e lo hi = inr (Covered-last start ln os e lo hi)

finish_set-Covered :
    (start ln : ℕ) (e : CacheEntry) (rc : RangeCache) (es : List CacheEntry) (occupied : ℕ)
    (ending : Ending)
    → e.range.start ≤ start
    → start + ln ≤ e.range.end
    → Clear e.range es ending
    → (ending ≡ to_insert) ⊎ ((ending ≡ already_cached) × Covered start ln es)
    → Covered start ln (RangeCache.cache (finish_set e rc (es, occupied, ending)).0)
unfolding finish_set
finish_set-Covered start ln e rc es occupied context_done lo hi c (inl q) = cc
finish_set-Covered start ln e rc es occupied context_done lo hi c (inr (q, k)) = cc
finish_set-Covered start ln e rc es occupied already_cached lo hi c (inl q) = cc
finish_set-Covered start ln e rc es occupied already_cached lo hi c (inr (q, k)) = k
finish_set-Covered start ln e rc es occupied to_insert lo hi c h =
    subst (Covered start ln) (sym (assign-new e es c)) (Covered-last start ln es e lo hi)

module _ (file : List ℕ) (small : length file < 2 ^ 63) (done : ℕ → Bool)
    (calm : (k : ℕ) → done k ≡ false) (start ln : ℕ) (inside : start + ln ≤ length file) where
  abbrev range_of : Range
  range_of = record { start = start; end = start + ln }

  covers_lem :
      (o : CacheEntry)
      → Faithful file o
      → contains o.range range_of ≡ true
      → (o.range.start ≤ start) × (start + ln ≤ o.range.end)
  covers_lem o f c =
      contains_lem o.range range_of (omega (arith, f.ordered, f.inside)) (omega (arith, f.inside))
        (omega arith) (omega arith) c

  covers_intro :
      (o : CacheEntry)
      → Faithful file o
      → o.range.start ≤ start
      → start + ln ≤ o.range.end
      → contains o.range range_of ≡ true
  unfolding contains
  covers_intro o f lo hi = let i = f.inside in ground arith

  set_loop-Covered :
      (i : ℕ) (es : List CacheEntry) (occupied : ℕ)
      → All (Faithful file) es
      → ((set_loop done range_of i es occupied).2 ≡ to_insert)
        ⊎ (((set_loop done range_of i es occupied).2 ≡ already_cached)
            × Covered start ln (set_loop done range_of i es occupied).0)
  unfolding set_loop
  set_loop-Covered i [] occupied f = inl refl
  set_loop-Covered i (e ∷ es) occupied f = elim (Bool-cases (contains e.range range_of)) [
    | inl covered ↦ rw (calm i, covered) (inr (refl, inl (covers_lem e f.0 covered)))
    | inr free ↦ elim (Bool-cases (contains range_of e.range)) [
      | inl within ↦
          rw (calm i, free, within)
            (set_loop-Covered (i + 1) es (sub64 occupied (length e.value)) f.1)
      | inr outside ↦
          rw (calm i, free, outside)
            (elim (set_loop-Covered (i + 1) es occupied f.1) [
              | inl q ↦ inl q
              | inr (q, c) ↦ inr (q, inr c)
            ])
    ]
  ]

  superset_loop-Covered :
      (i : ℕ) (es : List CacheEntry)
      → All (Faithful file) es
      → Covered start ln es
      → superset_loop done range_of i es ≡ ok (some (slice file start ln))
  unfolding superset_loop
  superset_loop-Covered i [] f c = elim c [ ]
  superset_loop-Covered i (o ∷ os) f c = elim (Bool-cases (contains o.range range_of)) [
    | inl covered ↦
        rw (calm i, covered, cut_entry file small done start ln inside o f.0 covered) refl
    | inr free ↦
        rw (calm i, free)
          (elim c [
            | inl (lo, hi) ↦ cc (free, covers_intro o f.0 lo hi)
            | inr later ↦ superset_loop-Covered (i + 1) os f.1 later
          ])
  ]

  get_range_from_cache-Covered :
      (rc : RangeCache)
      → IsValid file rc
      → Covered start ln rc.cache
      → get_range_from_cache done rc range_of ≡ ok (some (slice file start ln))
  unfolding get_range_from_cache
  get_range_from_cache-Covered rc v c = elim (Option-cases (find_exact range_of rc.cache)) [
    | inl none_exact ↦
        rw (none_exact, get_range_from_cache) (superset_loop-Covered 0 rc.cache v.faithful c)
    | inr (bytes, found) ↦
        rw (found, get_range_from_cache)
          (ap (λ b. ok (some b))
            (find_exact-Faithful file small done start ln inside rc.cache bytes v.faithful found))
  ]

  get_range-Covered :
      (fetcher : ReaderAt) (done_set : ℕ → Bool) (now : ℕ) (rc : RangeCache)
      → IsValid file rc
      → Covered start ln rc.cache
      → get_range fetcher done done_set now rc start ln ≡ (rc, ok (slice file start ln))
  unfolding get_range or_miss
  get_range-Covered fetcher done_set now rc v c =
      ap
        (λ (q : RangeCache × Result Error (List ℕ)).
          (q.0, checked_length (sub64 ((start + ln) % 2 ^ 64) start) q.1))
        (get_range_with-inside file small start ln inside done rc
            (miss fetcher done_set now rc start ln) v
          ∙ ap (λ o. or_miss rc o (miss fetcher done_set now rc start ln))
              (get_range_from_cache-Covered rc v c))
      ∙ ap (λ o. (rc, o))
          (if_true _ _ _ (
            same_length _ ln _ (length-slice file start ln inside)
              (whole_length start ln (length file) inside small)))

  set_range-Covered :
      (now : ℕ) (rc : RangeCache)
      → IsValid file rc
      → Covered start ln (RangeCache.cache (set_range done now rc start ln (slice file start ln)).0)
  set_range-Covered now rc v =
      let e : CacheEntry = record {
        range = range_of;
        value = slice file start ln;
        last_read = now;
      } in
      let (l, clear) =
        set_loop-Left done range_of 0 0 rc.cache rc.occupied_space (from_zero file rc v) in
      subst (λ q. Covered start ln q.0.cache)
        (sym (
          set_range_within done now rc start ln (slice file start ln) (omega arith) (omega arith)
            (omega (arith, v.size_same)) (omega (arith, v.size_same))
            (length-slice file start ln inside)))
        (finish_set-Covered start ln e rc _ _ _ (omega arith) (omega arith) clear
          (set_loop-Covered 0 rc.cache rc.occupied_space v.faithful))

-- A range of the file that `SetRange` was given its bytes for is in the cache: where the contexts are
-- not done, `GetRange` of any part of it answers the bytes of the file and leaves the cache as it is,
-- whatever the fetcher would do.
pub get_range-set_range :
    (file : List ℕ) (done : ℕ → Bool) (fetcher : ReaderAt) (done_set : ℕ → Bool)
    (now later start ln start' ln' : ℕ) (rc : RangeCache)
    → length file < 2 ^ 63
    → ((k : ℕ) → done k ≡ false)
    → start + ln ≤ length file
    → start ≤ start'
    → start' + ln' ≤ start + ln
    → IsValid file rc
    → get_range fetcher done done_set later
        (set_range done now rc start ln (slice file start ln)).0
        start'
        ln'
      ≡ ((set_range done now rc start ln (slice file start ln)).0, ok (slice file start' ln'))
get_range-set_range file done fetcher done_set now later start ln start' ln' rc small calm inside lo
      hi v =
    get_range-Covered file small done calm start' ln' (omega arith) fetcher done_set later _
      (set_range-IsValid file small done now rc start ln (slice file start ln) v (omega arith)
        (omega arith) refl)
      (Covered-sub start ln start' ln' _ lo hi
        (set_range-Covered file small done calm start ln inside now rc v))
