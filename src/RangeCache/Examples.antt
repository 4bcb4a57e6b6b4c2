-- ===== src/RangeCache/Examples.antt =====
-- A cache of a file of five bytes, and the theorems about the cache applied to it.
use yellowstone_faithful.Prelude.{
  ℕ, ◌-◌, ◌%◌, ◌^◌, ◌<◌, ◌≡◌, refl, Bool, false, List, [], ◌∷◌, length, ok, err, arith,
}
use yellowstone_faithful.Bytes.{slice}
use yellowstone_faithful.Streams.{ReaderAt, bytes_reader}
use yellowstone_faithful.RangeCache.{
  RangeCache, new_range_cache, sub64, set_range, miss, get_range_with, get_range, checked_length,
  invalid_range,
}
use yellowstone_faithful.RangeCache.Validity.{IsValid}
use yellowstone_faithful.RangeCache.Transparency.{Serves, Read, get_range_beyond}
use yellowstone_faithful.RangeCache.Steps.{
  Reach, new, next, set, Reach-IsValid, get_range_with-Reach,
}
use yellowstone_faithful.RangeCache.Hits.{get_range-set_range}

abbrev file : List ℕ
file = 10 ∷ 11 ∷ 12 ∷ 13 ∷ 14 ∷ []

abbrev remote : ReaderAt
remote = bytes_reader file

remote-Serves : Serves remote file
unfolding bytes_reader
remote-Serves off n h e = refl

abbrev never : ℕ → Bool
never k = false

-- The cache behind a `SetRange` of the second and the third byte.
abbrev two_set : RangeCache
two_set = (set_range never 7 (new_range_cache 5) 1 2 (slice file 1 2)).0

two_set-Reach : Reach file remote two_set
two_set-Reach = next new (set never 7 1 2 (omega arith) (omega arith) refl)

small : length file < 2 ^ 63
small = omega arith

Reach-IsValid_example : IsValid file two_set
Reach-IsValid_example = Reach-IsValid file small remote remote-Serves two_set two_set-Reach

two_set-IsValid : IsValid file two_set
two_set-IsValid = Reach-IsValid file small remote remote-Serves two_set two_set-Reach

-- The look-up meets the new cache, and the miss the one with a range.
get_range_with-Reach_example : Read file small remote remote-Serves 0 4 never (
    checked_length
      (sub64 (4 % 2 ^ 64) 0)
      (get_range_with never (new_range_cache 5) 0 (4 % 2 ^ 64) (miss remote never 8 two_set 0 4)).1)
get_range_with-Reach_example =
    get_range_with-Reach file small remote remote-Serves 0 4 (omega arith) never never 8
      (new_range_cache 5) two_set new two_set-Reach

-- A negative length.
get_range_beyond_example :
    get_range remote never never 8 two_set 3 (2 ^ 64 - 1) ≡ (two_set, err invalid_range)
get_range_beyond_example =
    get_range_beyond file small remote remote-Serves 3 (2 ^ 64 - 1) never never 8 two_set
      (omega arith) (omega arith) (omega arith) two_set-IsValid

get_range-set_range_example : get_range remote never never 9 two_set 2 1 ≡ (two_set, ok (12 ∷ []))
get_range-set_range_example =
    get_range-set_range file never remote never 7 9 1 2 2 1 (new_range_cache 5) (omega arith)
      (λ k. refl) (omega arith) (omega arith) (omega arith)
      (Reach-IsValid file small remote remote-Serves (new_range_cache 5) new)
