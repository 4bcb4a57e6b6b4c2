-- ===== src/Bucketteer/Reader.antt =====
-- bucketteer/read.go: opening a sealed file, and asking it for a signature. `Open` and `Close` wrap
-- the operating system and are left out. `xxhash` is xxhash.Sum64 of cespare/xxhash.
use yellowstone_faithful.Prelude.{
  ℕ, zero, suc, ◌+◌, ◌-◌, ◌*◌, ◌^◌, ◌%◌, Bool, true, false, Option, none, some, List, take, ◌==◌,
  if◌then◌else◌, Result, ok, err, stuck, panic, ◌>>=◌, ◌>>◌, guard, map_err,
}
use yellowstone_faithful.Bytes.{get_le, bytes_equal}
use yellowstone_faithful.Streams.{
  ReaderAt, ReadResult, IoError, eof, unexpected_eof, other, read_exact, section_reader,
}
use yellowstone_faithful.Meta.{Meta, new_meta, unmarshal_with_decoder}
use yellowstone_faithful.Borsh.{Borsh}
use yellowstone_faithful.Bucketteer.{
  BucketError, io, meta, decode, reader_empty, invalid_magic, wrong_version, not_found,
  BucketToOffset, update, prefix_to_uint16, new_uint16_layout, max_uint64, magic, version,
  search_eytzinger,
}

pub record Reader : Type 0 where
  pub content_reader : ReaderAt
  pub meta_data : Meta
  pub prefix_to_offset : BucketToOffset

-- What `isReaderEmpty` makes of its read.
abbrev pub empty_by : ReadResult → Result IoError Bool
empty_by res = elim res.error [
  | none ↦ ok false
  | some eof ↦ ok true
  | some unexpected_eof ↦ ok true
  | some other ↦ err other
]

-- `isReaderEmpty` of a reader that is not `nil`. (`len(buf) == 0` is never true: `buf` has 1 byte.)
unfoldable pub is_reader_empty : ReaderAt → Result IoError Bool
is_reader_empty r = empty_by (r 0 1)

unfoldable pub read_header_size : ReaderAt → Result IoError ℕ
read_header_size r = do buf ← read_exact r 0 4; ok (get_le buf)

module _ (B : Borsh) where
  open B use {bytes, new_decoder, read_uint64}

  unfoldable pub or_fail {ℓ} : {A : Type ℓ} → Option A → Result BucketError A
  or_fail none = err decode
  or_fail (some a) = ok a

  -- The loop over the pairs of the header, with the pairs left to read.
  unfoldable pub read_pairs :
      ℕ → BucketToOffset → bytes.State → Result BucketError (BucketToOffset × bytes.State)
  read_pairs zero prefix_to_offset d = ok (prefix_to_offset, d)
  read_pairs (suc n) prefix_to_offset d = do
    (prefix, d₁) ← or_fail (bytes.read 2 d)
    (offset, d₂) ← or_fail (read_uint64 d₁)
    read_pairs n (update prefix_to_offset (prefix_to_uint16 prefix) offset) d₂

  -- `readHeader` behind the two reads: the header's bytes decoded.
  unfoldable pub decode_header : List ℕ → Result BucketError (BucketToOffset × Meta)
  unfolding or_fail
  decode_header header_buf = do
    (magic_buf, d₁) ← or_fail (bytes.read 8 (new_decoder header_buf))
    guard (bytes_equal magic_buf magic) invalid_magic
    (got, d₂) ← or_fail (read_uint64 d₁)
    guard (got == version) wrong_version
    (m, d₃) ← map_err meta (unmarshal_with_decoder bytes new_meta d₂)
    (num_prefixes, d₄) ← or_fail (read_uint64 d₃)
    (prefix_to_offset, _) ← read_pairs num_prefixes new_uint16_layout d₄
    ok (prefix_to_offset, m)

  -- `readHeader`
  unfoldable pub read_header : ReaderAt → Result BucketError (BucketToOffset × Meta × ℕ)
  read_header r = do
    header_size ← map_err io (read_header_size r)
    header_buf ← map_err io (read_exact r 4 header_size)
    (prefix_to_offset, m) ← decode_header header_buf
    ok (prefix_to_offset, m, header_size + 4)

  unfoldable pub new_reader : ReaderAt → Result BucketError Reader
  new_reader r = do
    empty ← map_err io (is_reader_empty r)
    guard (if empty then false else true) reader_empty
    (prefix_to_offset, m, header_total_size) ← read_header r
    ok (record {
      content_reader = section_reader r header_total_size (2 ^ 63 - 1);
      meta_data = m;
      prefix_to_offset = prefix_to_offset;
    })

-- `readUint64Le`
unfoldable pub read_uint64_le : ReaderAt → ℕ → Result IoError ℕ
read_uint64_le r pos = do buf ← read_exact r pos 8; ok (get_le buf)

-- What `Has` makes of the search's result.
unfoldable pub found_or_not : Result BucketError ℕ → ℕ → Result BucketError Bool
found_or_not (ok got) wanted = ok (got == wanted)
found_or_not (err not_found) wanted = ok false
found_or_not (err e) wanted = err e
found_or_not panic wanted = panic
found_or_not stuck wanted = stuck

-- `Has` of the reader. `numHashes*8` is a product of `uint32`, so it wraps.
unfoldable pub has : (List ℕ → ℕ) → Reader → List ℕ → Result BucketError Bool
unfolding read_uint64_le found_or_not
has xxhash r sig =
    let offset : ℕ = r.prefix_to_offset (prefix_to_uint16 (take 2 sig)) in
    let lookup : Result BucketError Bool = do
      num_hashes_buf ← map_err io (read_exact r.content_reader offset 4)
      let num_hashes = get_le num_hashes_buf
      let bucket_reader = section_reader r.content_reader (offset + 4) (num_hashes * 8 % 2 ^ 32)
      let wanted_hash = xxhash sig
      let got =
          search_eytzinger num_hashes wanted_hash
            (λ index. map_err io (read_uint64_le bucket_reader (index * 8)))
      found_or_not got wanted_hash
    in if offset == max_uint64 then ok false else lookup
