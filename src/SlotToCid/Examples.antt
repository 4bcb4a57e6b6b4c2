-- ===== src/SlotToCid/Examples.antt =====
-- An index of one slot, and the theorem about the package applied to it.
use yellowstone_faithful.Prelude.{
  ℕ, ◌+◌, ◌%◌, ◌^◌, ◌≡◌, refl, Bool, true, false, some, List, [], ◌∷◌, ◌++◌, replicate, Result, ok,
  err, arith, All,
}
use yellowstone_faithful.Streams.{ReaderAt, bytes_reader}
use yellowstone_faithful.Borsh.{list_borsh}
use yellowstone_faithful.IndexMetadata.{
  Cids, Metadata, network_mainnet, epoch_key, root_cid_key, network_key, is_valid_network, not,
  set_default_metadata,
}
use yellowstone_faithful.CompactIndex
use yellowstone_faithful.Bytes.{put_le, get_le, copy_bytes, slice_checked, bytes_equal}
use yellowstone_faithful.Sorting.{sort_by, insert_sorted}
use yellowstone_faithful.Eytzinger.{layout, eytzinger}
use yellowstone_faithful.Indexes.{uint64tob}
use yellowstone_faithful.Meta.{add, marshal_binary}
use yellowstone_faithful.Meta.{bytes as meta_bytes}
use yellowstone_faithful.CompactIndex.{
  Header, magic, threshold, rotate, bucket_hash, header_bytes, header_body, entry_hash64,
  bucket_store, marshal_entry,
}
use yellowstone_faithful.CompactIndex.Builder
use yellowstone_faithful.CompactIndex.Builder.{
  kind_key, new_builder_sized, insert, write_tuple, seal_buckets, seal_bucket, mine, mine_loop,
  mined, hash_bucket, hash_entries, read_full, not_bool, zero_entry, sort_with_compare,
  marshal_entries, entry_stride, write_at,
}
use yellowstone_faithful.SlotToCid.{
  Writer, Reader, new_writer, put, seal, open_with_reader, reader_meta, get, kind,
}
use yellowstone_faithful.SlotToCid.Written.{put_all}
use yellowstone_faithful.SlotToCid.RoundTrip.{get-put_all}

-- CIDs that are their bytes; the one without bytes is undefined.
abbrev no_bytes : List ℕ → Bool
no_bytes [] = true
no_bytes (b ∷ bs) = false

abbrev byte_cids : Cids
byte_cids = record {
  Cid = List ℕ;
  is_undef = no_bytes;
  bytes = λ c. c;
  cast = some;
  cid_from_bytes = some;
  cast_lem = λ c h. refl;
  cid_from_bytes_lem = λ c h. refl;
}

sum_hash : List ℕ → ℕ
sum_hash [] = 0
sum_hash (b ∷ bs) = (b + sum_hash bs) % 2 ^ 64

abbrev never : ℕ → ℕ → Bool
never i domain = false

abbrev root : List ℕ
root = replicate 36 1

abbrev block : List ℕ
block = replicate 36 2

abbrev metadata : Metadata byte_cids
metadata = record { epoch = 3; root_cid = root; network = network_mainnet; index_kind = kind }

abbrev header : Header
header = record {
  value_size = 36;
  num_buckets = 1;
  meta_data = record {
    key_vals =
        (record { key = epoch_key; value = 3 ∷ replicate 7 0 })
        ∷ (record { key = root_cid_key; value = root })
        ∷ (record { key = network_key; value = network_mainnet })
        ∷ (record { key = kind_key; value = kind })
        ∷ [];
  };
}

abbrev writer_of : Bool → ℕ → List ℕ → Writer byte_cids
writer_of sealed records bucket = record {
  sealed = sealed;
  meta_data = metadata;
  index = record {
    header = header;
    buckets = (record { records = records; value_size = 36; file = bucket }) ∷ [];
  };
}

abbrev tuple : List ℕ
tuple = 8 ∷ 0 ∷ (block ++ (7 ∷ replicate 7 0))

-- The header of 119 bytes, that of the bucket, and its entry.
abbrev file : List ℕ
file =
    99 ∷ 111 ∷ 109 ∷ 112 ∷ 105 ∷ 115 ∷ 122 ∷ 100 ∷ 107 ∷ 0 ∷ 0 ∷ 0 ∷ 36 ∷ 0 ∷ 0 ∷ 0 ∷ 0 ∷ 0 ∷ 0 ∷ 0
    ∷ 1 ∷ 0 ∷ 0 ∷ 0 ∷ 1 ∷ 4 ∷ 5 ∷ 101 ∷ 112 ∷ 111 ∷ 99 ∷ 104 ∷ 8 ∷ 3 ∷ 0 ∷ 0 ∷ 0 ∷ 0 ∷ 0 ∷ 0 ∷ 0 ∷ 7
    ∷ 114 ∷ 111 ∷ 111 ∷ 116 ∷ 67 ∷ 105 ∷ 100 ∷ 36 ∷ 1 ∷ 1 ∷ 1 ∷ 1 ∷ 1 ∷ 1 ∷ 1 ∷ 1 ∷ 1 ∷ 1 ∷ 1 ∷ 1
    ∷ 1 ∷ 1 ∷ 1 ∷ 1 ∷ 1 ∷ 1 ∷ 1 ∷ 1 ∷ 1 ∷ 1 ∷ 1 ∷ 1 ∷ 1 ∷ 1 ∷ 1 ∷ 1 ∷ 1 ∷ 1 ∷ 1 ∷ 1 ∷ 1 ∷ 1 ∷ 1 ∷ 1
    ∷ 7 ∷ 110 ∷ 101 ∷ 116 ∷ 119 ∷ 111 ∷ 114 ∷ 107 ∷ 7 ∷ 109 ∷ 97 ∷ 105 ∷ 110 ∷ 110 ∷ 101 ∷ 116 ∷ 4
    ∷ 107 ∷ 105 ∷ 110 ∷ 100 ∷ 11 ∷ 115 ∷ 108 ∷ 111 ∷ 116 ∷ 45 ∷ 116 ∷ 111 ∷ 45 ∷ 99 ∷ 105 ∷ 100 ∷ 0
    ∷ 0 ∷ 0 ∷ 0 ∷ 1 ∷ 0 ∷ 0 ∷ 0 ∷ 3 ∷ 0 ∷ 135 ∷ 0 ∷ 0 ∷ 0 ∷ 0 ∷ 0 ∷ 7 ∷ 0 ∷ 0 ∷ 2 ∷ 2 ∷ 2 ∷ 2 ∷ 2
    ∷ 2 ∷ 2 ∷ 2 ∷ 2 ∷ 2 ∷ 2 ∷ 2 ∷ 2 ∷ 2 ∷ 2 ∷ 2 ∷ 2 ∷ 2 ∷ 2 ∷ 2 ∷ 2 ∷ 2 ∷ 2 ∷ 2 ∷ 2 ∷ 2 ∷ 2 ∷ 2 ∷ 2
    ∷ 2 ∷ 2 ∷ 2 ∷ 2 ∷ 2 ∷ 2 ∷ 2 ∷ []

new_written : new_writer byte_cids 3 root network_mainnet 1 ≡ ok (writer_of false 0 [])
unfolding new_writer is_valid_network bytes_equal not new_builder_sized set_default_metadata add
    uint64tob put_le
new_written = refl

put_written :
    put_all byte_cids sum_hash 1 (writer_of false 0 []) ((7, block) ∷ [])
    ≡ ok (writer_of false 1 tuple)
unfolding put not insert bucket_hash threshold rotate write_tuple put_le copy_bytes sum_hash
    uint64tob
put_written = refl

seal_written :
    seal byte_cids sum_hash never (writer_of false 1 tuple) ≡ ok (file, writer_of true 1 tuple)
unfolding seal not Builder.seal header_bytes meta_bytes marshal_binary seal_buckets seal_bucket mine
    hash_bucket read_full get_le not_bool entry_hash64 sum_hash put_le sort_with_compare layout
    sort_by insert_sorted marshal_entries copy_bytes slice_checked entry_stride hash_entries
    mine_loop mined write_at zero_entry bucket_store header_body marshal_entry eytzinger
seal_written = refl

-- No file of the old format is opened.
no_old : ReaderAt → Result CompactIndex.Error (List ℕ → Result CompactIndex.Error (List ℕ))
no_old reader = err CompactIndex.not_found

get-put_all_example :
    (r : Reader byte_cids) × (open_with_reader byte_cids list_borsh no_old (bytes_reader file)
      ≡ ok r)
    × (reader_meta byte_cids r ≡ some metadata)
    × All {A = ℕ × List ℕ} (λ e. get byte_cids sum_hash 1 r e.0 ≡ ok e.1) ((7, block) ∷ [])
get-put_all_example =
    get-put_all byte_cids sum_hash never list_borsh 1 no_old 3 1 root network_mainnet
      ((7, block) ∷ []) {w = writer_of false 0 []} {w' = writer_of false 1 tuple}
      {w'' = writer_of true 1 tuple} {file = file} (omega arith) (omega arith) (refl, tt)
      (omega arith) new_written put_written seal_written (omega arith)
