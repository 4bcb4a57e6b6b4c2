-- ===== src/CompactIndex/Query.antt =====
-- compactindexsized/query.go: opening a sealed index, and asking it for a key.
use yellowstone_faithful.Prelude.{
  ℕ, zero, suc, ◌+◌, ◌*◌, ◌%◌, ◌^◌, Bool, true, false, ltb, ◌==◌, if◌then◌else◌, List, length, take,
  drop, Result, ok, err, panic, stuck, ◌>>=◌, ◌>>◌, guard, Option, none, some,
}
use Prim.Native.Nat.{min}
use yellowstone_faithful.Bytes.{get_le, bytes_equal}
use yellowstone_faithful.Streams.{
  ReaderAt, ReadResult, IoError, eof, unexpected_eof, other, section_reader,
}
use yellowstone_faithful.Meta.{get}
use yellowstone_faithful.Borsh.{Borsh}
use yellowstone_faithful.CompactIndex.{
  Error, io, io_nil, invalid_magic, out_of_bounds_bucket, not_found, Header, header_load, magic,
  bucket_hash, BucketHeader, bucket_load, bucket_key_hash, bucket_hdr_len, BucketDescriptor, Entry,
  unmarshal_entry,
}
use yellowstone_faithful.CompactIndex.Builder.{kind_key, zero_entry, entry_stride, bucket_offset}

pub record Db : Type 0 where
  pub header : Header
  pub header_size : ℕ
  pub stream : ReaderAt
  pub prefetch : Bool

pub record Bucket : Type 0 where
  pub descriptor : BucketDescriptor
  pub entries : ReaderAt

-- `return err`
unfoldable pub fail {ℓ} : {A : Type ℓ} → Option IoError → Result Error A
fail none = err io_nil
fail (some e) = err (io e)

-- `n, err := r.ReadAt(buf, off); if n < len(buf) { return err }`: an error behind the last byte is
-- ignored.
unfoldable pub read_filled : ReaderAt → ℕ → ℕ → Result Error (List ℕ)
unfolding fail
read_filled r off n =
    let res : ReadResult = r off n in if ltb (length res.got) n then fail res.error else ok res.got

-- `Open`. The size of the header's buffer is a sum of `uint32`.
unfoldable pub open_db : Borsh → ReaderAt → Result Error Db
open_db B stream = do
  magic_and_size ← read_filled stream 0 12
  guard (bytes_equal (take 8 magic_and_size) magic) invalid_magic
  let size = (8 + 4 + get_le (drop 8 magic_and_size)) % 2 ^ 32
  file_header_buf ← read_filled stream 0 size
  header ← header_load B file_header_buf
  ok (record { header = header; header_size = size; stream = stream; prefetch = false })

unfoldable pub get_kind : Db → Option (List ℕ)
get_kind db = get db.header.meta_data kind_key

unfoldable pub kind_is : Db → List ℕ → Bool
kind_is db kind = elim (get db.header.meta_data kind_key) [
  | none ↦ false
  | some got ↦ bytes_equal got kind
]

unfoldable pub get_value_size : Db → Result Error ℕ
get_value_size db = if db.header.value_size == 0 then panic else ok db.header.value_size

-- The read of `GetBucket` that fills the cache of the system.
unfoldable pub prefetch_entries : Bool → ReaderAt → ℕ → ℕ → Result Error (Unit {0})
prefetch_entries false entries stride num_entries = ok tt
prefetch_entries true entries stride num_entries =
    elim (ReadResult.error (entries 0 (stride * min 3000 num_entries))) [
      | none ↦ ok tt
      | some eof ↦ ok tt
      | some unexpected_eof ↦ err (io unexpected_eof)
      | some other ↦ err (io other)
    ]

-- `GetBucket`
unfoldable pub get_bucket : Db → ℕ → Result Error Bucket
unfolding get_value_size prefetch_entries
get_bucket db i = do
  guard (ltb i db.header.num_buckets) out_of_bounds_bucket
  value_size ← get_value_size db
  let stride = entry_stride value_size
  buf ← read_filled db.stream (bucket_offset db.header_size i) bucket_hdr_len
  hdr ← bucket_load buf
  let entries = section_reader db.stream hdr.file_offset (hdr.num_entries * stride)
  prefetch_entries db.prefetch entries stride hdr.num_entries
  let desc : BucketDescriptor = record {
    bucket_header = hdr;
    stride = stride;
    offset_width = value_size % 256;
  }
  let bucket : Bucket = record { descriptor = desc; entries = entries }
  ok bucket

-- `loadEntry`, behind its read.
unfoldable pub entry_of : BucketDescriptor → ReadResult → Result Error Entry
entry_of d res =
    let short : Result Error Entry = elim res.error [
      | none ↦ ok zero_entry
      | some e ↦ err (io e)
    ] in
    if length res.got == d.stride then unmarshal_entry d res.got else short

unfoldable pub load_entry : Bucket → ℕ → Result Error Entry
unfolding entry_of
load_entry b i = entry_of b.descriptor (b.entries (i * b.descriptor.stride) b.descriptor.stride)

-- `searchEytzinger(0, max, x, getter)`, the loop with its `index` on fuel. (`index < min` is never
-- true: `min` is 0.)
unfoldable pub search_loop : ℕ → ℕ → ℕ → (ℕ → Result Error Entry) → ℕ → Result Error (List ℕ)
search_loop zero max x getter index = stuck
search_loop (suc f) max x getter index =
    let step : Result Error (List ℕ) = do
      k ← getter index
      let index' = 2 * index + 1
      let rest = search_loop f max x getter (if ltb k.hash x then index' + 1 else index')
      if k.hash == x then ok k.value else rest
    in if ltb index max then step else err not_found

unfoldable pub search_eytzinger : ℕ → ℕ → (ℕ → Result Error Entry) → Result Error (List ℕ)
unfolding search_loop
search_eytzinger max x getter = search_loop (max + 1) max x getter 0

module _ (xxhash : List ℕ → ℕ) where
  -- `Lookup` of a bucket.
  unfoldable pub bucket_lookup : Bucket → List ℕ → Result Error (List ℕ)
  bucket_lookup b key =
      let hdr : BucketHeader = b.descriptor.bucket_header in
      search_eytzinger hdr.num_entries (bucket_key_hash xxhash hdr key) (load_entry b)

  -- `LookupBucket`; `fuel` is for the loop of `BucketHash`.
  unfoldable pub lookup_bucket : ℕ → Db → List ℕ → Result Error Bucket
  lookup_bucket fuel db key = bucket_hash xxhash fuel db.header key >>= get_bucket db

  -- `Lookup`
  unfoldable pub lookup : ℕ → Db → List ℕ → Result Error (List ℕ)
  unfolding lookup_bucket bucket_lookup
  lookup fuel db key = do bucket ← lookup_bucket fuel db key; bucket_lookup bucket key
