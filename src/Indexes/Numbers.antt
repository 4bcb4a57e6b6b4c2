-- ===== src/Indexes/Numbers.antt =====
-- indexes/uints.go: numbers as bytes and back.
use yellowstone_faithful.Prelude.{ℕ, ◌^◌, ◌<◌, ◌≡◌, ltb, if◌then◌else◌, ok, panic, ◌>>=◌, arith}
use yellowstone_faithful.Bytes.{put_le, get_le}
use yellowstone_faithful.Indexes.{
  clone_and_pad, uint24tob, b_to_uint24, uint40tob, b_to_uint40, uint48tob, b_to_uint48, uint64tob,
  b_to_uint64,
}

uint24_lem :
    (w : ℕ) → w < 2 ^ 32 → (uint24tob w >>= b_to_uint24) ≡ (if ltb w (2 ^ 24) then ok w else panic)
unfolding uint24tob b_to_uint24 clone_and_pad put_le get_le
uint24_lem w k = ground arith

uint40_lem : (v : ℕ) → (uint40tob v >>= b_to_uint40) ≡ (if ltb v (2 ^ 40) then ok v else panic)
unfolding uint40tob b_to_uint40 clone_and_pad put_le get_le
uint40_lem v = ground arith

uint48_lem : (v : ℕ) → (uint48tob v >>= b_to_uint48) ≡ (if ltb v (2 ^ 48) then ok v else panic)
unfolding uint48tob b_to_uint48 clone_and_pad put_le get_le
uint48_lem v = ground arith

pub uint64_lem : (v : ℕ) → v < 2 ^ 64 → b_to_uint64 (uint64tob v) ≡ ok v
unfolding uint64tob b_to_uint64 put_le get_le
uint64_lem v h = ground arith

-- A number of 64 bits that is written and read again in 5, 6 or 8 bytes, or one of 32 bits in 3
-- bytes, comes back if it fits, and panics if not.
pub read_written :
    (v w : ℕ)
    → v < 2 ^ 64
    → w < 2 ^ 32
    → ((uint24tob w >>= b_to_uint24) ≡ (if ltb w (2 ^ 24) then ok w else panic))
      × ((uint40tob v >>= b_to_uint40) ≡ (if ltb v (2 ^ 40) then ok v else panic))
      × ((uint48tob v >>= b_to_uint48) ≡ (if ltb v (2 ^ 48) then ok v else panic))
      × (b_to_uint64 (uint64tob v) ≡ ok v)
read_written v w h k = (uint24_lem w k, uint40_lem v, uint48_lem v, uint64_lem v h)
