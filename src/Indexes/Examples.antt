-- ===== src/Indexes/Examples.antt =====
-- The theorems on numbers and values at concrete ones.
use yellowstone_faithful.Prelude.{
  ℕ, ◌^◌, ◌≡◌, ◌↔◌, ltb, if◌then◌else◌, List, [], ◌∷◌, ◌++◌, All, ok, panic, ◌>>=◌, arith,
}
use yellowstone_faithful.Bytes.{put_le}
use yellowstone_faithful.Indexes.{
  OffsetAndSize, uint24tob, b_to_uint24, uint40tob, b_to_uint40, uint48tob, b_to_uint48, uint64tob,
  b_to_uint64, is_valid, bytes, from_bytes, slice_from_bytes,
}
use yellowstone_faithful.Indexes.Numbers.{read_written}
use yellowstone_faithful.Indexes.Values.{bytes_lem, bytes-from_bytes}
use yellowstone_faithful.Indexes.Slices.{Fits, encode_all, slice_from_bytes_iff}

read_written_example :
    ((uint24tob 90000000 >>= b_to_uint24) ≡ (if ltb 90000000 (2 ^ 24) then ok 90000000 else panic))
    × ((uint40tob 70000000 >>= b_to_uint40)
        ≡ (if ltb 70000000 (2 ^ 40) then ok 70000000 else panic))
    × ((uint48tob 70000000 >>= b_to_uint48)
        ≡ (if ltb 70000000 (2 ^ 48) then ok 70000000 else panic))
    × (b_to_uint64 (uint64tob 70000000) ≡ ok 70000000)
read_written_example = read_written 70000000 90000000 (omega arith) (omega arith)

abbrev a_value : OffsetAndSize
a_value = record { offset = 513; size = 3 }

abbrev a_value_bytes : List ℕ
a_value_bytes = 1 ∷ 2 ∷ 0 ∷ 0 ∷ 0 ∷ 0 ∷ 3 ∷ 0 ∷ 0 ∷ []

bytes_lem_example :
    bytes a_value ≡ (if is_valid a_value then ok (put_le 6 513 ++ put_le 3 3) else panic)
bytes_lem_example = bytes_lem a_value (omega arith)

bytes-from_bytes_example :
    (bytes a_value ≡ ok a_value_bytes) ↔ (from_bytes a_value_bytes ≡ ok a_value)
bytes-from_bytes_example = bytes-from_bytes a_value a_value_bytes (omega arith) (ground arith)

slice_from_bytes_iff_example :
    (slice_from_bytes (a_value_bytes ++ a_value_bytes) ≡ ok (a_value ∷ a_value ∷ [])) ↔ (
      All Fits (a_value ∷ a_value ∷ [])
      × (a_value_bytes ++ a_value_bytes ≡ encode_all (a_value ∷ a_value ∷ [])))
slice_from_bytes_iff_example =
    slice_from_bytes_iff (a_value_bytes ++ a_value_bytes) (a_value ∷ a_value ∷ []) (ground arith)
