-- ===== src/RangeCache/Steps.antt =====
-- range-cache/range-cache.go: a cache that several goroutines use, as a relation on its states. Each
-- step is what one of them does while it holds the lock.
use yellowstone_faithful.Prelude.{
  ℕ, ◌+◌, ◌%◌, ◌^◌, ◌<◌, ◌≤◌, ◌≡◌, refl, sym, ap, subst, Bool, List, [], ◌∷◌, ◌++◌, length, arith,
  All,
}
use yellowstone_faithful.Bytes.{slice}
use yellowstone_faithful.Streams.{ReaderAt}
use yellowstone_faithful.RangeCache.{
  CacheEntry, RangeCache, new_range_cache, sub64, miss, get_range_with, set_range, checked_length,
  delete_old_entries,
}
use yellowstone_faithful.RangeCache.Invariant.{Antichain, total}
use yellowstone_faithful.RangeCache.Validity.{
  Faithful, IsValid, set_range-IsValid, delete_old_entries-IsValid,
}
use yellowstone_faithful.RangeCache.Transparency.{Serves, Read, miss_lem, get_range_with-Read}

-- `SetRange` with bytes of the file, `DeleteOldEntries`, the part of `GetRange` behind a miss, and
-- the map's next iteration in another order, two neighbours at a time.
pub data Step (file : List ℕ) (fetcher : ReaderAt) (rc : RangeCache) (rc' : RangeCache)
    : Type 0 where
  set :
      (done : ℕ → Bool) (now start ln : ℕ)
      → start < 2 ^ 64
      → ln < 2 ^ 64
      → rc' ≡ (set_range done now rc start ln (slice file start ln)).0
      → Step file fetcher rc rc'
  collect :
      (done : ℕ → Bool) (now : ℕ → ℕ) (max_age : ℕ)
      → rc' ≡ delete_old_entries done now max_age rc
      → Step file fetcher rc rc'
  fetch_missing :
      (done : ℕ → Bool) (now start ln : ℕ)
      → start + ln ≤ length file
      → rc' ≡ (miss fetcher done now rc start ln).0
      → Step file fetcher rc rc'
  reorder :
      (pre : List CacheEntry) (a b : CacheEntry) (post : List CacheEntry)
      → rc.cache ≡ pre ++ (a ∷ b ∷ post)
      → rc' ≡ record rc { cache = pre ++ (b ∷ a ∷ post) }
      → Step file fetcher rc rc'

-- The states that a new cache of the file gets into.
pub data Reach (file : List ℕ) (fetcher : ReaderAt) : RangeCache → Type 0 where
  new : Reach file fetcher (new_range_cache (length file))
  next :
      {rc rc' : RangeCache}
      → Reach file fetcher rc
      → Step file fetcher rc rc'
      → Reach file fetcher rc'

All-swap :
    (P : CacheEntry → Type 0) (pre : List CacheEntry) (a b : CacheEntry) (post : List CacheEntry)
    → All P (pre ++ (a ∷ b ∷ post))
    → All P (pre ++ (b ∷ a ∷ post))
All-swap P [] a b post h = (h.1.0, (h.0, h.1.1))
All-swap P (p ∷ pre) a b post h = (h.0, All-swap P pre a b post h.1)

Antichain-swap :
    (pre : List CacheEntry) (a b : CacheEntry) (post : List CacheEntry)
    → Antichain (pre ++ (a ∷ b ∷ post))
    → Antichain (pre ++ (b ∷ a ∷ post))
Antichain-swap [] a b post h = (((h.0.0.1, h.0.0.0), h.1.0), (h.0.1, h.1.1))
Antichain-swap (p ∷ pre) a b post h = (All-swap _ pre a b post h.0, Antichain-swap pre a b post h.1)

total-swap :
    (pre : List CacheEntry) (a b : CacheEntry) (post : List CacheEntry)
    → total (pre ++ (a ∷ b ∷ post)) ≡ total (pre ++ (b ∷ a ∷ post))
total-swap [] a b post = omega arith
total-swap (p ∷ pre) a b post = omega (arith, total-swap pre a b post)

module _ (file : List ℕ) (small : length file < 2 ^ 63) (fetcher : ReaderAt)
    (serves : Serves fetcher file) where
  new-IsValid : IsValid file (new_range_cache (length file))
  new-IsValid = record { size_same = refl; faithful = tt; antichain = tt; space = omega arith }

  Step-IsValid :
      (rc rc' : RangeCache) → Step file fetcher rc rc' → IsValid file rc → IsValid file rc'
  Step-IsValid rc rc' (set done now start ln hs hl e) v =
      subst (IsValid file) (sym e)
        (set_range-IsValid file small done now rc start ln (slice file start ln) v hs hl refl)
  Step-IsValid rc rc' (collect done now max_age e) v =
      subst (IsValid file) (sym e) (delete_old_entries-IsValid file done now max_age rc v)
  Step-IsValid rc rc' (fetch_missing done now start ln inside e) v =
      subst (IsValid file) (sym e)
        (miss_lem file small fetcher serves start ln inside done done now rc v).0
  Step-IsValid rc rc' (reorder pre a b post q e) v = subst (IsValid file) (sym e) (record {
    size_same = v.size_same;
    faithful = All-swap (Faithful file) pre a b post (subst (All (Faithful file)) q v.faithful);
    antichain = Antichain-swap pre a b post (subst Antichain q v.antichain);
    space = omega (arith, v.space, ap total q, total-swap pre a b post);
  })

  -- Whatever goroutines do with a new cache of a file of fewer than 2 ^ 63 bytes, whose remote serves
  -- it, as long as they set ranges to the file's own bytes: each entry holds the bytes of its range, no
  -- range contains another one, and the occupied space is the sum of the entries' lengths, in 64 bits.
  pub Reach-IsValid : (rc : RangeCache) → Reach file fetcher rc → IsValid file rc
  Reach-IsValid _ new = new-IsValid
  Reach-IsValid rc (next {rc = rc₀} r s) = Step-IsValid rc₀ rc s (Reach-IsValid rc₀ r)

  -- So the cache is no more than a faster reader of the file: a `GetRange` of a range within the file,
  -- which looks into the cache in one state that it gets into, and, on a miss, fetches and sets the
  -- range in any other one, answers the bytes of the file, or the error of its context if that is done,
  -- or the fetcher's error.
  pub get_range_with-Reach :
      (start ln : ℕ)
      → start + ln ≤ length file
      → (done done_set : ℕ → Bool) (now : ℕ) (rc rc₂ : RangeCache) → Reach file fetcher rc
      → Reach file fetcher rc₂
      → Read file small fetcher serves start ln done (
          checked_length
            (sub64 ((start + ln) % 2 ^ 64) start)
            (get_range_with done rc start
              ((start + ln) % 2 ^ 64)
              (miss fetcher done_set now rc₂ start ln)).1)
  get_range_with-Reach start ln inside done done_set now rc rc₂ r r₂ =
      (get_range_with-Read file small fetcher serves start ln inside done done_set now rc rc₂
        (Reach-IsValid rc r) (Reach-IsValid rc₂ r₂)).1
