-- ===== src/RangeCache.antt =====
-- range-cache/range-cache.go: a cache of ranges of a remote file. An `int64` is given by its 64 bits.
-- The map is a list of entries in the order of the iteration, which Go leaves open: the theorems are
-- about lists in any order. A context is a function that tells, by the number of entries that an
-- iteration has passed, whether it is done. A lock makes each of `set_range`, `delete_old_entries`,
-- `get_range_from_cache` and `miss` one step.
pub mod Invariant
pub mod Validity
pub mod Reads
pub mod Transparency
pub mod Steps
pub mod Hits
mod Examples
use yellowstone_faithful.Prelude.{
  ℕ, zero, suc, ◌+◌, ◌-◌, ◌%◌, ◌^◌, Bool, true, false, ◌&&◌, ◌||◌, ltb, leb, ◌==◌, if◌then◌else◌,
  List, [], ◌∷◌, length, replicate, Result, ok, err, panic, stuck, Option, none, some,
}
use yellowstone_faithful.Bytes.{slice_checked, copy_bytes}
use yellowstone_faithful.Streams.{ReaderAt, ReadResult, IoError}

pub data Error : Type 0 where
  invalid_range invalid_value_length range_too_large invalid_length done_context : Error
  fetch : IoError → Error

-- The order of `int64`, on the bits.
abbrev pub int64_lt : ℕ → ℕ → Bool
int64_lt a b = ltb ((a + 2 ^ 63) % 2 ^ 64) ((b + 2 ^ 63) % 2 ^ 64)

abbrev pub int64_le : ℕ → ℕ → Bool
int64_le a b = leb ((a + 2 ^ 63) % 2 ^ 64) ((b + 2 ^ 63) % 2 ^ 64)

abbrev pub sub64 : ℕ → ℕ → ℕ
sub64 a b = (a + 2 ^ 64 - b % 2 ^ 64) % 2 ^ 64

pub record Range : Type 0 where
  pub start : ℕ
  pub end : ℕ

-- `contains`
unfoldable pub contains : Range → Range → Bool
contains r r2 = int64_le r.start r2.start && int64_le r2.end r.end

-- An item of the map: the range and its `RangeCacheEntry`.
pub record CacheEntry : Type 0 where
  pub range : Range
  pub value : List ℕ
  pub last_read : ℕ

pub record RangeCache : Type 0 where
  pub size : ℕ
  pub occupied_space : ℕ
  pub cache : List CacheEntry

-- `NewRangeCache`
abbrev pub new_range_cache : ℕ → RangeCache
new_range_cache size = record { size = size; occupied_space = 0; cache = [] }

-- What `DeleteOldEntries` does from an entry on. `now` is the time at which an entry is looked at.
unfoldable pub delete_loop :
    (ℕ → Bool) → (ℕ → ℕ) → ℕ → ℕ → List CacheEntry → ℕ → List CacheEntry × ℕ
delete_loop done now max_age i [] occupied = ([], occupied)
delete_loop done now max_age i (e ∷ es) occupied =
    let deleted : List CacheEntry × ℕ =
      delete_loop done now max_age (i + 1) es (sub64 occupied (length e.value)) in
    let (rest, occupied') = delete_loop done now max_age (i + 1) es occupied in
    if done i
    then (e ∷ es, occupied)
    else if ltb max_age (now i - e.last_read)
    then deleted
    else (e ∷ rest, occupied')

-- `DeleteOldEntries`
unfoldable pub delete_old_entries : (ℕ → Bool) → (ℕ → ℕ) → ℕ → RangeCache → RangeCache
delete_old_entries done now max_age rc =
    let (cache, occupied) = delete_loop done now max_age 0 rc.cache rc.occupied_space in
    record rc { cache = cache; occupied_space = occupied }

-- How the iteration of `setRange` ends: by its context, at an entry that contains the range, or
-- behind the last one.
pub data Ending : Type 0 where
  context_done already_cached to_insert : Ending

unfoldable pub set_loop :
    (ℕ → Bool) → Range → ℕ → List CacheEntry → ℕ → List CacheEntry × ℕ × Ending
set_loop done r i [] occupied = ([], occupied, to_insert)
set_loop done r i (e ∷ es) occupied =
    let deleted : List CacheEntry × ℕ × Ending =
      set_loop done r (i + 1) es (sub64 occupied (length e.value)) in
    let (rest, occupied', ending) = set_loop done r (i + 1) es occupied in
    if done i
    then (e ∷ es, occupied, context_done)
    else if contains e.range r
    then (e ∷ es, occupied, already_cached)
    else if contains r e.range
    then deleted
    else (e ∷ rest, occupied', ending)

-- `rc.cache[r] = e`
unfoldable pub assign : CacheEntry → List CacheEntry → List CacheEntry
assign e [] = e ∷ []
assign e (o ∷ os) =
    let rest = assign e os in
    if (o.range.start == e.range.start) && (o.range.end == e.range.end) then e ∷ os else o ∷ rest

-- The end of `setRange`, behind the iteration.
unfoldable pub finish_set :
    CacheEntry → RangeCache → List CacheEntry × ℕ × Ending → RangeCache × Result Error (Unit {0})
finish_set e rc (cache, occupied, context_done) =
    (record rc { cache = cache; occupied_space = occupied }, err done_context)
finish_set e rc (cache, occupied, already_cached) =
    (record rc { cache = cache; occupied_space = occupied }, ok tt)
finish_set e rc (cache, occupied, to_insert) = (
  record rc { cache = assign e cache; occupied_space = (occupied + length e.value) % 2 ^ 64 },
  ok tt,
)

-- `setRange`, and `SetRange`. `now` is the time.
unfoldable pub set_range :
    (ℕ → Bool) → ℕ → RangeCache → ℕ → ℕ → List ℕ → RangeCache × Result Error (Unit {0})
unfolding finish_set
set_range done now rc start ln value =
    let end : ℕ = (start + ln) % 2 ^ 64 in
    let r : Range = record { start = start; end = end } in
    let e : CacheEntry = record { range = r; value = value; last_read = now } in
    if int64_lt start 0 || (int64_lt rc.size end || int64_lt end start)
    then (rc, err invalid_range)
    else if length value == sub64 end start
    then finish_set e rc (set_loop done r 0 rc.cache rc.occupied_space)
    else (rc, err invalid_value_length)

-- The exact match of `getRangeFromCache`.
unfoldable pub find_exact : Range → List CacheEntry → Option (List ℕ)
find_exact r [] = none
find_exact r (e ∷ es) =
    let rest = find_exact r es in
    if (e.range.start == r.start) && (e.range.end == r.end) then some e.value else rest

unfoldable pub superset_loop :
    (ℕ → Bool) → Range → ℕ → List CacheEntry → Result Error (Option (List ℕ))
superset_loop done r i [] = ok none
superset_loop done r i (e ∷ es) =
    let rest = superset_loop done r (i + 1) es in
    let cut : Result Error (List ℕ) =
      slice_checked e.value (sub64 r.start e.range.start) (sub64 r.end e.range.start) in
    if done i
    then err done_context
    else if contains e.range r
    then (elim cut [ ok v ↦ ok (some v) | err e ↦ err e | panic ↦ panic | stuck ↦ stuck ])
    else rest

-- `getRangeFromCache`
unfoldable pub get_range_from_cache :
    (ℕ → Bool) → RangeCache → Range → Result Error (Option (List ℕ))
unfolding superset_loop
get_range_from_cache done rc r = elim (find_exact r rc.cache) [
  | some v ↦ ok (some v)
  | none ↦ superset_loop done r 0 rc.cache
]

-- The function that `GetRange` passes for a miss, where the fetcher filled the buffer or failed.
unfoldable pub miss :
    ReaderAt → (ℕ → Bool) → ℕ → RangeCache → ℕ → ℕ → RangeCache × Result Error (List ℕ)
miss fetcher done now rc start ln =
    let n : ℕ = sub64 ((start + ln) % 2 ^ 64) start in
    let res : ReadResult = fetcher start n in
    let v : List ℕ = copy_bytes (replicate n 0) res.got in
    let (rc', _) = set_range done now rc start ln v in
    elim res.error [ none ↦ (rc', ok v) | some e ↦ (rc, err (fetch e)) ]

-- The check of the length at the end of `GetRange`.
abbrev pub checked_length : ℕ → Result Error (List ℕ) → Result Error (List ℕ)
checked_length n (ok got) = if length got == n then ok got else err invalid_length
checked_length n (err e) = err e
checked_length n panic = panic
checked_length n stuck = stuck

-- What `getRange` does with the answer of the cache.
unfoldable pub or_miss :
    RangeCache
    → Result Error (Option (List ℕ))
    → RangeCache × Result Error (List ℕ)
    → RangeCache × Result Error (List ℕ)
or_miss rc (ok (some v)) missed = (rc, ok v)
or_miss rc (ok none) missed = missed
or_miss rc (err e) missed = (rc, err e)
or_miss rc panic missed = (rc, panic)
or_miss rc stuck missed = (rc, stuck)

-- `getRange`, with the call of `miss` on the cache as it was looked at.
unfoldable pub get_range_with :
    (ℕ → Bool)
    → RangeCache
    → ℕ
    → ℕ
    → RangeCache × Result Error (List ℕ)
    → RangeCache × Result Error (List ℕ)
unfolding or_miss
get_range_with done rc start end missed =
    if int64_lt start 0 || (int64_lt rc.size end || int64_lt end start)
    then (rc, err invalid_range)
    else if int64_lt rc.size (sub64 end start)
    then (rc, err range_too_large)
    else or_miss rc (get_range_from_cache done rc (record { start = start; end = end })) missed

-- `GetRange`
unfoldable pub get_range :
    ReaderAt → (ℕ → Bool) → (ℕ → Bool) → ℕ → RangeCache → ℕ → ℕ → RangeCache × Result Error (List ℕ)
get_range fetcher done done_set now rc start ln =
    let end : ℕ = (start + ln) % 2 ^ 64 in
    let (rc', got) = get_range_with done rc start end (miss fetcher done_set now rc start ln) in
    (rc', checked_length (sub64 end start) got)
