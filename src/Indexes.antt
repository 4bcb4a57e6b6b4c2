-- ===== src/Indexes.antt =====
-- indexes/uints.go and indexes/offset-and-size.go: the values of the indexes, written in as few
-- bytes as they need. A slice with the wrong length for a number panics.
pub mod Numbers
pub mod Slices
pub mod Values
mod Examples
use yellowstone_faithful.Prelude.{
  ℕ, zero, suc, ◌+◌, ◌-◌, ◌*◌, ◌/◌, ◌%◌, ◌^◌, Bool, ◌&&◌, ltb, leb, ◌==◌, if◌then◌else◌, List, [],
  ◌∷◌, ◌++◌, length, take, drop, replicate, Result, ok, err, panic, ◌>>=◌, ◌>>◌, guard,
}
use yellowstone_faithful.Bytes.{put_le, get_le, slice_checked}

pub data Error : Type 0 where
  invalid_length : Error

abbrev pub max_uint24 : ℕ
max_uint24 = 2 ^ 24 - 1

abbrev pub max_uint40 : ℕ
max_uint40 = 2 ^ 40 - 1

abbrev pub max_uint48 : ℕ
max_uint48 = 2 ^ 48 - 1

unfoldable pub clone_and_pad : List ℕ → ℕ → List ℕ
clone_and_pad buf pad = buf ++ replicate pad 0

-- The argument is a `uint32`: callers give it less than 2 ^ 32.
unfoldable pub uint24tob : ℕ → Result Error (List ℕ)
uint24tob v = if ltb max_uint24 v then panic else ok (take 3 (put_le 4 v))

-- `Uint32` reads the first four bytes of what it is given, `Uint64` the first eight.
unfoldable pub b_to_uint24 : List ℕ → Result Error ℕ
b_to_uint24 buf = if ltb (length buf) 3 then panic else ok (get_le (take 4 (clone_and_pad buf 1)))

unfoldable pub uint40tob : ℕ → Result Error (List ℕ)
uint40tob v = if ltb max_uint40 v then panic else ok (take 5 (put_le 8 v))

unfoldable pub b_to_uint40 : List ℕ → Result Error ℕ
b_to_uint40 buf = if ltb (length buf) 5 then panic else ok (get_le (take 8 (clone_and_pad buf 3)))

unfoldable pub uint48tob : ℕ → Result Error (List ℕ)
uint48tob v = if ltb max_uint48 v then panic else ok (take 6 (put_le 8 v))

unfoldable pub b_to_uint48 : List ℕ → Result Error ℕ
b_to_uint48 buf = if ltb (length buf) 6 then panic else ok (get_le (take 8 (clone_and_pad buf 2)))

unfoldable pub uint64tob : ℕ → List ℕ
uint64tob v = put_le 8 v

unfoldable pub b_to_uint64 : List ℕ → Result Error ℕ
b_to_uint64 buf = if ltb (length buf) 8 then panic else ok (get_le (take 8 buf))

-- Both fields are `uint64`.
pub record OffsetAndSize : Type 0 where
  pub offset : ℕ
  pub size : ℕ

unfoldable pub is_valid : OffsetAndSize → Bool
is_valid oas = leb oas.offset max_uint48 && leb oas.size max_uint24

-- `Bytes`, with the conversion of the size to `uint32`.
unfoldable pub bytes : OffsetAndSize → Result Error (List ℕ)
bytes oas = do
  offset ← uint48tob oas.offset
  size ← uint24tob (oas.size % 2 ^ 32)
  ok (offset ++ size)

abbrev pub value_size : ℕ
value_size = 9

unfoldable pub from_bytes : List ℕ → Result Error OffsetAndSize
from_bytes buf = do
  guard (length buf == value_size) invalid_length
  offset ← b_to_uint48 (take 6 buf)
  size ← b_to_uint24 (drop 6 buf)
  ok (record { offset = offset; size = size })

-- The loop of `OffsetAndSizeSliceFromBytes`: `n` items are left, from `i` on.
unfoldable pub read_items : ℕ → ℕ → List ℕ → Result Error (List OffsetAndSize)
read_items zero i buf = ok []
read_items (suc n) i buf = do
  part ← slice_checked buf (i * value_size) ((i + 1) * value_size)
  oas ← from_bytes part
  rest ← read_items n (i + 1) buf
  ok (oas ∷ rest)

unfoldable pub slice_from_bytes : List ℕ → Result Error (List OffsetAndSize)
slice_from_bytes buf = do
  guard (length buf % value_size == 0) invalid_length
  read_items (length buf / value_size) 0 buf
