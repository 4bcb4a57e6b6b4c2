-- ===== src/Bucketteer/Writer.antt =====
-- bucketteer/write.go: collecting signatures, and sealing them into a file. Opening, flushing and
-- syncing the file are left out, and a write to it succeeds; its content is carried as bytes.
-- `xxhash` is xxhash.Sum64 of cespare/xxhash. `getCleanSet` also sorts the writer's own slice, which
-- neither `Put`, `Has` nor another `Seal` can tell.
use yellowstone_faithful.Prelude.{
  ℕ, zero, suc, ◌+◌, ◌-◌, ◌*◌, ◌^◌, ◌%◌, Bool, true, false, Option, none, some, List, [], ◌∷◌, ◌++◌,
  length, take, drop, ◌==◌, if◌then◌else◌, Result, ok, err, ◌>>=◌, map_err,
}
use yellowstone_faithful.Bytes.{put_le}
use yellowstone_faithful.Meta.{Meta, marshal_binary}
use yellowstone_faithful.Sorting.{sort_by}
use yellowstone_faithful.Eytzinger.{layout}
use yellowstone_faithful.Borsh.{Borsh}
use yellowstone_faithful.Bucketteer.{
  BucketError, meta, encode, BucketToOffset, PrefixToHashes, update, prefix_to_uint16,
  uint16_to_prefix, magic, version, num_prefixes,
}

pub record Writer : Type 0 where
  pub path : List ℕ
  pub prefix_to_hashes : PrefixToHashes

-- `NewWriter`, where the path is no directory and no file with content.
unfoldable pub new_writer : List ℕ → Writer
new_writer path = record { path = path; prefix_to_hashes = λ prefix. [] }

-- The loop of `Has`.
unfoldable pub has_hash : List ℕ → ℕ → Bool
has_hash [] hash = false
has_hash (h ∷ hs) hash = if h == hash then true else has_hash hs hash

module _ (xxhash : List ℕ → ℕ) where
  -- `Put`
  unfoldable pub put : Writer → List ℕ → Writer
  put w sig =
      let prefix : ℕ = prefix_to_uint16 (take 2 sig) in
      record w {
        prefix_to_hashes =
            update w.prefix_to_hashes prefix (w.prefix_to_hashes prefix ++ (xxhash sig ∷ []));
      }

  -- `Has` of the writer.
  unfoldable pub has : Writer → List ℕ → Bool
  has w sig = has_hash (w.prefix_to_hashes (prefix_to_uint16 (take 2 sig))) (xxhash sig)

-- The second loop of `getCleanSet`, behind an entry `previous`.
unfoldable pub dedup_after : ℕ → List ℕ → List ℕ
dedup_after previous [] = []
dedup_after previous (x ∷ xs) =
    let rest : List ℕ = dedup_after x xs in if x == previous then rest else x ∷ rest

unfoldable pub dedup : List ℕ → List ℕ
unfolding dedup_after
dedup [] = []
dedup (x ∷ xs) = x ∷ dedup_after x xs

unfoldable pub get_clean_set : List ℕ → List ℕ
unfolding dedup
get_clean_set entries = dedup (sort_by (λ x. x) entries)

-- `sortWithCompare` by `<` on the entries.
unfoldable pub sort_with_compare : List ℕ → Result BucketError (List ℕ)
sort_with_compare a = layout 0 (sort_by (λ x. x) a)

module _ (B : Borsh) where
  open B use {Encoder, new_encoder, write, write_uint32, write_uint64, written}

  unfoldable pub or_fail {ℓ} : {A : Type ℓ} → Option A → Result BucketError A
  or_fail none = err encode
  or_fail (some a) = ok a

  -- The loop over the prefixes `i` to `i + n - 1`.
  unfoldable pub write_pairs : ℕ → ℕ → BucketToOffset → Encoder → Result BucketError Encoder
  write_pairs zero i prefix_to_offset e = ok e
  write_pairs (suc n) i prefix_to_offset e = do
    e₁ ← or_fail (write (uint16_to_prefix (i % 65536)) e)
    e₂ ← or_fail (write_uint64 (prefix_to_offset i) e₁)
    write_pairs n (i + 1) prefix_to_offset e₂

  unfoldable pub create_header :
      List ℕ → ℕ → ℕ → Meta → BucketToOffset → Result BucketError (List ℕ)
  unfolding or_fail
  create_header magic version header_size_in m prefix_to_offset = do
    e₁ ← or_fail (write_uint32 header_size_in new_encoder)
    e₂ ← or_fail (write magic e₁)
    e₃ ← or_fail (write_uint64 version e₂)
    meta_buf ← map_err meta (marshal_binary m)
    e₄ ← or_fail (write meta_buf e₃)
    e₅ ← or_fail (write_uint64 num_prefixes e₄)
    e₆ ← write_pairs num_prefixes 0 prefix_to_offset e₅
    ok (written e₆)

-- `binary.Write` of each hash.
unfoldable pub hash_bytes : List ℕ → List ℕ
hash_bytes [] = []
hash_bytes (h ∷ hs) = put_le 8 h ++ hash_bytes hs

-- One bucket as `seal` writes it: a `uint32` count, then the hashes.
unfoldable pub bucket_bytes : List ℕ → List ℕ
unfolding hash_bytes
bucket_bytes entries = put_le 4 (length entries % 2 ^ 32) ++ hash_bytes entries

pub record Sealing : Type 0 where
  pub out : List ℕ
  pub prefix_to_offset : BucketToOffset
  pub previous_offset : ℕ
  pub total_written : ℕ

-- One round of the loop of `seal`.
unfoldable pub seal_bucket : PrefixToHashes → ℕ → Sealing → Result BucketError Sealing
seal_bucket hashes prefix s = do
  entries ← sort_with_compare (get_clean_set (hashes prefix))
  let this_size = 4 + length entries * 8
  ok (record {
    out = s.out ++ bucket_bytes entries;
    prefix_to_offset = update s.prefix_to_offset prefix s.previous_offset;
    previous_offset = (s.previous_offset + this_size) % 2 ^ 64;
    total_written = s.total_written + this_size;
  })

-- The rounds for the prefixes `i` to `i + n - 1`.
unfoldable pub seal_buckets : ℕ → ℕ → PrefixToHashes → Sealing → Result BucketError Sealing
seal_buckets zero i hashes s = ok s
seal_buckets (suc n) i hashes s = do s' ← seal_bucket hashes i s; seal_buckets n (i + 1) hashes s'

-- `seal`: the new header, the total and what was written to `out`.
unfoldable pub seal_to : Borsh → PrefixToHashes → Meta → Result BucketError (List ℕ × ℕ × List ℕ)
seal_to B hashes m = do
  header ← create_header B magic version 0 m (λ prefix. 0)
  s ← seal_buckets num_prefixes 0 hashes (record {
    out = header;
    prefix_to_offset = λ prefix. 0;
    previous_offset = 0;
    total_written = length header;
  })
  updated ← create_header B magic version ((length header - 4) % 2 ^ 32) m s.prefix_to_offset
  ok (updated, s.total_written, s.out)

-- `overwriteFileContentAt(file, 0, data)`, by the content of the file.
unfoldable pub overwrite_start : List ℕ → List ℕ → List ℕ
overwrite_start content header = header ++ drop (length header) content

-- `Seal` of the writer: the size that it returns, and the file's content behind it.
unfoldable pub seal : Borsh → Writer → Meta → Result BucketError (ℕ × List ℕ)
seal B w m = do
  (new_header, size, content) ← seal_to B w.prefix_to_hashes m
  ok (size, overwrite_start content new_header)
