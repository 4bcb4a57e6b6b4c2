-- ===== src/CompactIndex/Builder.antt =====
-- compactindexsized/build.go: collecting pairs in temporary buckets, and sealing them into a file.
-- Temporary files and the index are carried as bytes; creating, flushing, syncing and closing them
-- is left out, and a write succeeds. `fallocate` and `fake_fallocate` leave zeros.
use yellowstone_faithful.Prelude.{
  ℕ, zero, suc, ◌+◌, ◌-◌, ◌*◌, ◌/◌, ◌%◌, ◌^◌, Bool, true, false, ltb, leb, ◌==◌, if◌then◌else◌,
  List, [], ◌∷◌, ◌++◌, length, get_elem?, set, take, drop, replicate, Result, ok, err, panic, stuck,
  ◌>>=◌, ◌>>◌, guard, or_panic,
}
use yellowstone_faithful.Bytes.{put_le, get_le, copy_bytes}
use yellowstone_faithful.Sorting.{sort_by}
use yellowstone_faithful.Eytzinger.{layout}
use yellowstone_faithful.Meta.{Meta, new_meta, count, remove, add, max_key_size}
use yellowstone_faithful.CompactIndex.{
  Error, value_size_zero, value_size_too_large, num_items_zero, kind_too_long, kind_empty,
  unexpected_end, collision, cancelled, Header, header_bytes, bucket_hash, entry_hash64,
  BucketHeader, bucket_store, bucket_hdr_len, BucketDescriptor, Entry, marshal_entry,
}

abbrev pub hash_size : ℕ
hash_size = 3

abbrev pub target_entries_per_bucket : ℕ
target_entries_per_bucket = 10000

-- `tempBucket`, with what was written to its file.
pub record TempBucket : Type 0 where
  pub records : ℕ
  pub value_size : ℕ
  pub file : List ℕ

pub record Builder : Type 0 where
  pub header : Header
  pub buckets : List TempBucket

-- `NewBuilderSized`. `uint` has 64 bits.
unfoldable pub new_builder_sized : ℕ → ℕ → Result Error Builder
new_builder_sized num_items value_size_bytes = do
  guard (ltb 0 value_size_bytes) value_size_zero
  guard (leb value_size_bytes 255) value_size_too_large
  guard (ltb 0 num_items) num_items_zero
  let num_buckets = (num_items + target_entries_per_bucket - 1) % 2 ^ 64 / target_entries_per_bucket
  ok (record {
    header = record {
      value_size = value_size_bytes;
      num_buckets = num_buckets % 2 ^ 32;
      meta_data = new_meta;
    };
    buckets =
        replicate num_buckets (record { records = 0; value_size = value_size_bytes; file = [] });
  })

-- "kind"
abbrev pub kind_key : List ℕ
kind_key = 107 ∷ 105 ∷ 110 ∷ 100 ∷ []

-- The error of `Add` is dropped: the metadata stays as it was then.
unfoldable pub add_or_keep : Meta → List ℕ → List ℕ → Meta
add_or_keep m key value = elim (add m key value) [ ok m' ↦ m' | _ ↦ m ]

-- `SetKind`
unfoldable pub set_kind : Builder → List ℕ → Result Error Builder
unfolding add_or_keep
set_kind b kind = do
  guard (leb (length kind) max_key_size) kind_too_long
  guard (ltb 0 (length kind)) kind_empty
  let m = b.header.meta_data
  let m' = if ltb 0 (count m kind_key) then remove m kind_key else m
  ok (record b { header = record b.header { meta_data = add_or_keep m' kind_key kind } })

-- `writeTuple`
unfoldable pub write_tuple : TempBucket → List ℕ → List ℕ → TempBucket
write_tuple b key value =
    let static : List ℕ =
      put_le 2 (length key % 2 ^ 16) ++ copy_bytes (replicate b.value_size 0) value in
    record b { records = b.records + 1; file = b.file ++ (static ++ key) }

-- `io.ReadFull`
unfoldable pub read_full : ℕ → List ℕ → Result Error (List ℕ × List ℕ)
read_full n rd = if leb n (length rd) then ok (take n rd, drop n rd) else err unexpected_end

-- The bitmap of 2 ^ 24 bits, by the index of the bit.
abbrev pub Bitmap : Type 0
Bitmap = ℕ → Bool

abbrev pub set_bit : Bitmap → ℕ → Bitmap
set_bit bitmap i j = if i == j then true else bitmap j

unfoldable pub zero_entry : Entry
zero_entry = record { hash = 0; value = [] }

unfoldable pub not_bool : Bool → Bool
not_bool true = false
not_bool false = true

-- `sortWithCompare` by `<` on the hashes.
unfoldable pub sort_with_compare : List Entry → Result Error (List Entry)
sort_with_compare entries = layout zero_entry (sort_by Entry.hash entries)

module _ (xxhash : List ℕ → ℕ) where
  -- `Insert`; `fuel` is for the loop of `BucketHash`.
  unfoldable pub insert : ℕ → Builder → List ℕ → List ℕ → Result Error Builder
  insert fuel b key value = do
    i ← bucket_hash xxhash fuel b.header key
    bucket ← or_panic (get_elem? b.buckets i)
    ok (record b { buckets = set b.buckets i (write_tuple bucket key value) })

  -- The loop of `hashBucket`: `n` entries are left to read.
  unfoldable pub hash_entries : ℕ → ℕ → ℕ → List ℕ → Bitmap → Result Error (List Entry)
  hash_entries value_size nonce zero rd bitmap = ok []
  hash_entries value_size nonce (suc n) rd bitmap = do
    (static, rd₁) ← read_full (2 + value_size) rd
    (key, rd₂) ← read_full (get_le (take 2 static)) rd₁
    let hash = entry_hash64 xxhash nonce key % 2 ^ 24
    guard (not_bool (bitmap hash)) collision
    rest ← hash_entries value_size nonce n rd₂ (set_bit bitmap hash)
    ok (record { hash = hash; value = drop 2 static } ∷ rest)

  -- `hashBucket`, with a bitmap that was reset.
  unfoldable pub hash_bucket : ℕ → ℕ → List ℕ → ℕ → Result Error (List Entry)
  unfolding hash_entries
  hash_bucket value_size records rd nonce = do
    entries ← hash_entries value_size nonce records rd (λ i. false)
    sort_with_compare entries

  -- What the loop of `mine` does with the result of `hashBucket`: `next` is the rest of it.
  unfoldable pub mined :
      Result Error (List Entry) → ℕ → Result Error (List Entry × ℕ) → Result Error (List Entry × ℕ)
  mined (ok entries) domain next = ok (entries, domain)
  mined (err collision) domain next = next
  mined (err e) domain next = err e
  mined panic domain next = panic
  mined stuck domain next = stuck

  -- The loop of `mine`, with the attempts left. `done` tells if the context is done at a domain.
  unfoldable pub mine_loop : (ℕ → Bool) → TempBucket → ℕ → ℕ → Result Error (List Entry × ℕ)
  unfolding mined
  mine_loop done b zero domain = err collision
  mine_loop done b (suc n) domain =
      let attempt : Result Error (List Entry × ℕ) =
        mined (hash_bucket b.value_size b.records b.file domain) domain
          (mine_loop done b n (domain + 1)) in
      if done domain then err cancelled else attempt

  unfoldable pub mine : (ℕ → Bool) → TempBucket → ℕ → Result Error (List Entry × ℕ)
  unfolding mine_loop
  mine done b attempts = mine_loop done b attempts 0

-- The loop over the entries, with the buffer that they are written through.
unfoldable pub marshal_entries : BucketDescriptor → List ℕ → List Entry → Result Error (List ℕ)
marshal_entries desc entry_buf [] = ok []
marshal_entries desc entry_buf (e ∷ es) = do
  entry_buf' ← marshal_entry desc entry_buf e
  rest ← marshal_entries desc entry_buf' es
  ok (entry_buf' ++ rest)

-- `WriteAt` within a file.
unfoldable pub write_at : List ℕ → ℕ → List ℕ → List ℕ
write_at content off bs = take off content ++ (bs ++ drop (off + length bs) content)

-- `getEntryStride`
unfoldable pub entry_stride : ℕ → ℕ
entry_stride value_size = (hash_size + value_size % 256) % 256

abbrev pub bucket_offset : ℕ → ℕ → ℕ
bucket_offset header_size i = header_size + i * bucket_hdr_len

module _ (xxhash : List ℕ → ℕ) where
  -- `sealBucket`: the file behind it.
  unfoldable pub seal_bucket :
      (ℕ → ℕ → Bool) → Header → ℕ → ℕ → TempBucket → List ℕ → Result Error (List ℕ)
  seal_bucket done h header_size i bucket file = do
    (entries, domain) ← mine xxhash (done i) bucket 1000
    let hdr : BucketHeader = record {
      hash_domain = domain;
      num_entries = bucket.records % 2 ^ 32;
      hash_len = hash_size;
      file_offset = length file;
    }
    let desc : BucketDescriptor = record {
      bucket_header = hdr;
      stride = entry_stride h.value_size;
      offset_width = h.value_size % 256;
    }
    written ← marshal_entries desc (replicate (entry_stride h.value_size) 0) entries
    ok (write_at (file ++ written) (bucket_offset header_size i) (bucket_store hdr))

  -- The loop of `Seal` over the buckets from `i` on.
  unfoldable pub seal_buckets :
      (ℕ → ℕ → Bool) → Header → ℕ → ℕ → List TempBucket → List ℕ → Result Error (List ℕ)
  seal_buckets done h header_size i [] file = ok file
  seal_buckets done h header_size i (b ∷ bs) file = do
    file' ← seal_bucket done h header_size i b file
    seal_buckets done h header_size (i + 1) bs file'

  -- `Seal` into an empty file: its content. `done i domain` tells if the context is done.
  unfoldable pub seal : (ℕ → ℕ → Bool) → Builder → Result Error (List ℕ)
  seal done b = do
    header_buf ← header_bytes b.header
    let table : List ℕ = replicate (b.header.num_buckets * bucket_hdr_len) 0
    seal_buckets done b.header (length header_buf) 0 b.buckets (header_buf ++ table)
