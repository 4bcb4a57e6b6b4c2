-- ===== src/Bucketteer.antt =====
-- The bucketteer package: a file that tells which transaction signatures an epoch has. `Writer` and
-- `Reader` are its two sides. A `[64]byte` signature is a list of 64 bytes, an array indexed by
-- `uint16` is a function on the numbers below 65536.
pub mod Writer
pub mod Reader
pub mod CleanSet
pub mod Search
pub mod Buckets
pub mod Header
pub mod BucketReads
pub mod SealedFile
pub mod RoundTrip
pub mod Membership
mod Examples
use yellowstone_faithful.Prelude.{
  ℕ, zero, suc, ◌+◌, ◌-◌, ◌*◌, ◌^◌, ◌<◌, ◌≡◌, Bool, true, false, List, [], ◌∷◌, ◌++◌, take, ◌==◌,
  if◌then◌else◌, Result, ok, err, stuck, ◌>>=◌, ltb,
}
use yellowstone_faithful.Bytes.{put_le, get_le}
use yellowstone_faithful.Meta.{MetaError}
use yellowstone_faithful.Streams.{IoError}

-- "buckette"
abbrev pub magic : List ℕ
magic = 0x62 ∷ 0x75 ∷ 0x63 ∷ 0x6b ∷ 0x65 ∷ 0x74 ∷ 0x74 ∷ 0x65 ∷ []

abbrev pub version : ℕ
version = 2

-- `math.MaxUint16 + 1`, the length of the arrays.
abbrev pub num_prefixes : ℕ
num_prefixes = 65536

abbrev pub max_uint64 : ℕ
max_uint64 = 2 ^ 64 - 1

-- The errors of the package, without their texts. `decode` and `encode` are those of the Borsh
-- library.
pub data BucketError : Type 0 where
  io : IoError → BucketError
  meta : MetaError → BucketError
  decode encode reader_empty invalid_magic wrong_version not_found : BucketError

-- `bucketToOffset`
abbrev pub BucketToOffset : Type 0
BucketToOffset = ℕ → ℕ

-- `prefixToHashes`
abbrev pub PrefixToHashes : Type 0
PrefixToHashes = ℕ → List ℕ

-- `a[i] = v`
abbrev pub update {ℓ} : {A : Type ℓ} → (ℕ → A) → ℕ → A → ℕ → A
update f i a j = if i == j then a else f j

-- `newUint16Layout` and `newUint16LayoutPointer`
unfoldable pub new_uint16_layout : BucketToOffset
new_uint16_layout prefix = max_uint64

-- `prefixToUint16`
unfoldable pub prefix_to_uint16 : List ℕ → ℕ
prefix_to_uint16 prefix = get_le (take 2 prefix)

-- `uint16ToPrefix`
unfoldable pub uint16_to_prefix : ℕ → List ℕ
uint16_to_prefix num = put_le 2 num

-- `searchEytzinger(0, max, x, getter)`, the loop with its `index` on fuel. Its parameter `min` is
-- not used by the code.
unfoldable pub search_loop : ℕ → ℕ → ℕ → (ℕ → Result BucketError ℕ) → ℕ → Result BucketError ℕ
search_loop zero max x getter index = stuck
search_loop (suc f) max x getter index =
    let step : Result BucketError ℕ = do
      k ← getter index
      let index' = 2 * index + 1
      let rest = search_loop f max x getter (if ltb k x then index' + 1 else index')
      if k == x then ok k else rest
    in if ltb index max then step else err not_found

unfoldable pub search_eytzinger : ℕ → ℕ → (ℕ → Result BucketError ℕ) → Result BucketError ℕ
unfolding search_loop
search_eytzinger max x getter = search_loop (max + 1) max x getter 0
