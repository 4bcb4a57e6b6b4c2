-- ===== src/CompactIndex.antt =====
-- compactindexsized/compactindex.go: the file format of the indexes that map keys to values of one
-- size. `Builder` (build.go) and `Query` (query.go) are its two sides. `xxhash` is xxhash.Sum64 of
-- cespare/xxhash; its digest over several writes is that of their concatenation.
pub mod Builder
pub mod Query
pub mod Format
pub mod Buckets
pub mod Hashing
pub mod Tuples
pub mod Search
pub mod Mining
pub mod Attempts
pub mod SealedFile
pub mod Reading
pub mod Lookup
pub mod Inserting
pub mod NewBuilder
pub mod RoundTrip
pub mod Sealing
mod Examples
use yellowstone_faithful.Prelude.{
  ℕ, zero, suc, ◌+◌, ◌-◌, ◌*◌, ◌/◌, ◌%◌, ◌^◌, ◌<◌, ◌≤◌, ◌≡◌, Bool, true, false, ltb, leb, ◌==◌,
  if◌then◌else◌, List, [], ◌∷◌, ◌++◌, length, get_elem?, take, drop, replicate, Result, ok, err,
  panic, stuck, ◌>>=◌, ◌>>◌, guard, or_panic, map_err,
}
use Prim.Native.Nat.{bit_xor}
use yellowstone_faithful.Bytes.{put_le, get_le, bytes_equal, slice_checked, copy_bytes}
use yellowstone_faithful.Streams.{IoError}
use yellowstone_faithful.Meta.{Meta, MetaError, new_meta, unmarshal_binary}
use yellowstone_faithful.Meta.{bytes as meta_bytes}
use yellowstone_faithful.Borsh.{Borsh}

-- The errors of the package, without their texts. `io_nil` is the `nil` error that a reader would
-- have to return with fewer bytes than asked for, against `io.ReaderAt`.
pub data Error : Type 0 where
  io : IoError → Error
  meta : MetaError → Error
  io_nil not_compactindex invalid_header_length unsupported_version : Error
  value_size_not_set num_buckets_not_set : Error
  invalid_magic out_of_bounds_bucket too_many_entries not_found : Error
  value_size_zero value_size_too_large num_items_zero kind_too_long kind_empty : Error
  unexpected_end collision cancelled : Error

-- "compiszd"
abbrev pub magic : List ℕ
magic = 99 ∷ 111 ∷ 109 ∷ 112 ∷ 105 ∷ 115 ∷ 122 ∷ 100 ∷ []

abbrev pub version : ℕ
version = 1

pub record Header : Type 0 where
  pub value_size : ℕ
  pub num_buckets : ℕ
  pub meta_data : Meta

-- `Load`, from an empty header.
unfoldable pub header_load : Borsh → List ℕ → Result Error Header
header_load B buf = do
  magic_buf ← slice_checked buf 0 8
  guard (bytes_equal magic_buf magic) not_compactindex
  len_buf ← slice_checked buf 8 12
  guard (leb 12 (get_le len_buf)) invalid_header_length
  guard (leb (get_le len_buf) (length buf % 2 ^ 32)) invalid_header_length
  value_size_buf ← slice_checked buf 12 20
  num_buckets_buf ← slice_checked buf 20 24
  got_version ← or_panic (get_elem? buf 24)
  guard (got_version == version) unsupported_version
  kv_buf ← slice_checked buf 25 (length buf)
  m ← map_err meta (unmarshal_binary B.bytes B.new_decoder new_meta kv_buf)
  guard (ltb 0 (get_le value_size_buf)) value_size_not_set
  guard (ltb 0 (get_le num_buckets_buf)) num_buckets_not_set
  ok (record {
    value_size = get_le value_size_buf;
    num_buckets = get_le num_buckets_buf;
    meta_data = m;
  })

-- The first block of `Bytes`: the header behind its length.
unfoldable pub header_body : Header → List ℕ → List ℕ
header_body h kvb = put_le 8 h.value_size ++ (put_le 4 h.num_buckets ++ (version ∷ kvb))

-- `Bytes`
unfoldable pub header_bytes : Header → Result Error (List ℕ)
unfolding header_body
header_bytes h = do
  kvb ← meta_bytes h.meta_data
  let buf = header_body h kvb
  ok (magic ++ (put_le 4 (length buf % 2 ^ 32) ++ buf))

-- `hashUint64`
unfoldable pub hash_uint64 : ℕ → ℕ
hash_uint64 x₀ =
    let x₁ : ℕ = bit_xor x₀ (x₀ / 2 ^ 33) in
    let x₂ : ℕ = x₁ * 0xff51afd7ed558ccd % 2 ^ 64 in
    let x₃ : ℕ = bit_xor x₂ (x₂ / 2 ^ 33) in
    let x₄ : ℕ = x₃ * 0xc4ceb9fe1a85ec53 % 2 ^ 64 in bit_xor x₄ (x₄ / 2 ^ 33)

-- `r` of `BucketHash`: (-n) % n in 64 bits.
unfoldable pub threshold : ℕ → ℕ
threshold n = (2 ^ 64 - n) % n

-- The loop of `BucketHash`, on fuel.
unfoldable pub rotate : ℕ → ℕ → ℕ → Result Error ℕ
rotate zero r u = stuck
rotate (suc f) r u =
    let again : Result Error ℕ = rotate f r (hash_uint64 u) in if ltb u r then again else ok u

-- EntryHash64
unfoldable pub entry_hash64 : (List ℕ → ℕ) → ℕ → List ℕ → ℕ
entry_hash64 xxhash prefix key = xxhash ((put_le 4 prefix ++ replicate 28 0) ++ key)

-- `BucketHash`; `n = 0` is a division by zero.
unfoldable pub bucket_hash : (List ℕ → ℕ) → ℕ → Header → List ℕ → Result Error ℕ
bucket_hash xxhash fuel h key =
    let hash : Result Error ℕ = do
      u ← rotate fuel (threshold h.num_buckets) (xxhash key)
      ok (u % h.num_buckets)
    in if h.num_buckets == 0 then panic else hash

-- The fields that the file holds; `headerSize` is passed on its own.
pub record BucketHeader : Type 0 where
  pub hash_domain : ℕ
  pub num_entries : ℕ
  pub hash_len : ℕ
  pub file_offset : ℕ

abbrev pub bucket_hdr_len : ℕ
bucket_hdr_len = 16

-- `Store`, into all 16 bytes.
unfoldable pub bucket_store : BucketHeader → List ℕ
bucket_store b =
    put_le 4 b.hash_domain ++ (put_le 4 b.num_entries ++ (b.hash_len ∷ 0 ∷ put_le 6 b.file_offset))

-- `Load`, of 16 bytes.
unfoldable pub bucket_load : List ℕ → Result Error BucketHeader
bucket_load buf = do
  domain_buf ← slice_checked buf 0 4
  entries_buf ← slice_checked buf 4 8
  hash_len ← or_panic (get_elem? buf 8)
  offset_buf ← slice_checked buf 10 16
  ok (record {
    hash_domain = get_le domain_buf;
    num_entries = get_le entries_buf;
    hash_len = hash_len;
    file_offset = get_le offset_buf;
  })

-- `Hash`: the sum masked by `math.MaxUint64 >> (64 - b.HashLen*8)`, in 8 bits.
unfoldable pub bucket_key_hash : (List ℕ → ℕ) → BucketHeader → List ℕ → ℕ
bucket_key_hash xxhash b key =
    let shift : ℕ = (64 + 256 - b.hash_len * 8 % 256) % 256 in
    entry_hash64 xxhash b.hash_domain key % 2 ^ (64 - shift)

pub record BucketDescriptor : Type 0 where
  pub bucket_header : BucketHeader
  pub stride : ℕ
  pub offset_width : ℕ

pub record Entry : Type 0 where
  pub hash : ℕ
  pub value : List ℕ

-- Where the value of an entry ends, a sum of `uint8`.
abbrev pub entry_end : BucketDescriptor → ℕ
entry_end b = (b.bucket_header.hash_len + b.offset_width) % 256

unfoldable pub unmarshal_entry : BucketDescriptor → List ℕ → Result Error Entry
unmarshal_entry b buf = do
  hash_buf ← slice_checked buf 0 b.bucket_header.hash_len
  value_buf ← slice_checked buf b.bucket_header.hash_len (entry_end b)
  ok (record {
    hash = get_le (take 8 hash_buf);
    value = copy_bytes (replicate b.offset_width 0) value_buf;
  })

-- `marshalEntry`: the buffer behind it.
unfoldable pub marshal_entry : BucketDescriptor → List ℕ → Entry → Result Error (List ℕ)
marshal_entry b buf e = if ltb (length buf) b.stride then panic else (do
  hash_buf ← slice_checked buf 0 b.bucket_header.hash_len
  value_buf ← slice_checked buf b.bucket_header.hash_len (entry_end b)
  ok (
      copy_bytes hash_buf (put_le 8 e.hash)
      ++ (copy_bytes value_buf e.value ++ drop (entry_end b) buf)))
