-- ===== src/CompactIndex/Examples.antt =====
-- An index of two pairs, and the theorems of the package applied to it.
use yellowstone_faithful.Prelude.{
  ℕ, ◌+◌, ◌*◌, ◌%◌, ◌^◌, ◌<◌, ◌≤◌, ◌≡◌, ◌↔◌, ◌⊎◌, refl, Bool, false, List, [], ◌∷◌, length, All,
  Result, ok, err, arith, stuck, ◌≢◌, get_elem?, or_panic,
}
use yellowstone_faithful.Bytes.{put_le, get_le, copy_bytes, slice_checked}
use yellowstone_faithful.Streams.{bytes_reader}
use yellowstone_faithful.Sorting.{sort_by, insert_sorted}
use yellowstone_faithful.Eytzinger.{layout, eytzinger}
use yellowstone_faithful.Meta.{Meta, new_meta, marshal_binary}
use yellowstone_faithful.Meta.{bytes as meta_bytes}
use yellowstone_faithful.Borsh.{list_borsh}
use yellowstone_faithful.CompactIndex.{
  collision, Error, Header, not_found, threshold, hash_uint64, rotate, bucket_hash, header_bytes,
  header_body, header_load, entry_hash64, BucketHeader, bucket_store, bucket_load, Entry,
  marshal_entry,
}
use yellowstone_faithful.CompactIndex.Builder.{
  Builder, new_builder_sized, insert, write_tuple, seal, seal_buckets, seal_bucket, mine, mine_loop,
  mined, hash_bucket, hash_entries, read_full, not_bool, zero_entry, sort_with_compare,
  marshal_entries, entry_stride, write_at,
}
use yellowstone_faithful.CompactIndex.Query.{Db, open_db, lookup, search_eytzinger}
use yellowstone_faithful.CompactIndex.Format.{IsValid, header_load-header_bytes}
use yellowstone_faithful.CompactIndex.Buckets.{bucket_load-bucket_store}
use yellowstone_faithful.CompactIndex.Hashing.{FirstAbove, bucket_hash_endless, bucket_hash_iff}
use yellowstone_faithful.CompactIndex.Reading.{open_db-encode}
use yellowstone_faithful.CompactIndex.Tuples.{Pair, Fits}
use yellowstone_faithful.CompactIndex.Search.{Reads, Among, search_eytzinger-sorted}
use yellowstone_faithful.CompactIndex.Inserting.{Member, insert_all, in_bucket}
use yellowstone_faithful.CompactIndex.Sealing.{Collide, seal-cases}
use yellowstone_faithful.CompactIndex.RoundTrip.{with_meta, lookup-seal, lookup-seal_any}

-- A hash for the examples: the sum of the bytes.
unfoldable pub sum_hash : List ℕ → ℕ
sum_hash [] = 0
sum_hash (b ∷ bs) = (b + sum_hash bs) % 2 ^ 64

abbrev pairs : List Pair
pairs = (record { key = 1 ∷ []; value = 10 ∷ [] }) ∷ (record { key = 2 ∷ []; value = 20 ∷ [] }) ∷ []

abbrev empty : Builder
empty = record {
  header = record { value_size = 1; num_buckets = 1; meta_data = new_meta };
  buckets = (record { records = 0; value_size = 1; file = [] }) ∷ [];
}

abbrev filled : Builder
filled = record empty {
  buckets =
      (record { records = 2; value_size = 1; file = 1 ∷ 0 ∷ 10 ∷ 1 ∷ 1 ∷ 0 ∷ 20 ∷ 2 ∷ [] }) ∷ [];
}

abbrev never : ℕ → ℕ → Bool
never i domain = false

-- The header of 26 bytes, that of the bucket, and two entries.
abbrev file : List ℕ
file =
    99 ∷ 111 ∷ 109 ∷ 112 ∷ 105 ∷ 115 ∷ 122 ∷ 100 ∷ 14 ∷ 0 ∷ 0 ∷ 0 ∷ 1 ∷ 0 ∷ 0 ∷ 0 ∷ 0 ∷ 0 ∷ 0 ∷ 0
    ∷ 1 ∷ 0 ∷ 0 ∷ 0 ∷ 1 ∷ 0 ∷ 0 ∷ 0 ∷ 0 ∷ 0 ∷ 2 ∷ 0 ∷ 0 ∷ 0 ∷ 3 ∷ 0 ∷ 42 ∷ 0 ∷ 0 ∷ 0 ∷ 0 ∷ 0 ∷ 2 ∷ 0
    ∷ 0 ∷ 20 ∷ 1 ∷ 0 ∷ 0 ∷ 10 ∷ []

new_empty : new_builder_sized 2 1 ≡ ok empty
unfolding new_builder_sized
new_empty = refl

insert_pairs : insert_all sum_hash 1 empty pairs ≡ ok filled
unfolding insert bucket_hash threshold rotate write_tuple put_le copy_bytes sum_hash
insert_pairs = refl

seal_pairs : seal sum_hash never (with_meta new_meta filled) ≡ ok file
unfolding seal header_bytes meta_bytes marshal_binary seal_buckets seal_bucket mine hash_bucket
    read_full get_le not_bool entry_hash64 sum_hash put_le sort_with_compare layout sort_by
    insert_sorted marshal_entries copy_bytes slice_checked entry_stride hash_entries mine_loop mined
    write_at zero_entry bucket_store header_body marshal_entry eytzinger
seal_pairs = refl

pairs-Fits : All (Fits 1) pairs
pairs-Fits = ((omega arith, refl), ((omega arith, refl), tt))

new_meta-IsValid : (length (Meta.key_vals new_meta) ≤ 255) × Unit {0}
new_meta-IsValid = (omega arith, tt)

lookup-seal_example :
    (db : Db) × (open_db list_borsh (bytes_reader file) ≡ ok db)
    × (db.header.meta_data ≡ new_meta)
    × (db.header.value_size ≡ 1)
    × All (λ p. lookup sum_hash 1 db p.key ≡ ok p.value) pairs
lookup-seal_example =
    lookup-seal sum_hash never list_borsh 1 2 1 new_meta pairs {b = empty} {b' = filled}
      {file = file} (omega arith) (omega arith) new_meta-IsValid pairs-Fits (omega arith) new_empty
      insert_pairs seal_pairs (omega arith)

abbrev sealed_header : Header
sealed_header = record { value_size = 1; num_buckets = 1; meta_data = new_meta }

sealed_header-IsValid : IsValid sealed_header
sealed_header-IsValid = record {
  value_size_pos = omega arith;
  value_size_lt = omega arith;
  num_buckets_pos = omega arith;
  num_buckets_lt = omega arith;
  meta_valid = new_meta-IsValid;
}

header_load-header_bytes_example :
    (buf : List ℕ) × (header_bytes sealed_header ≡ ok buf)
    × (header_load list_borsh buf ≡ ok sealed_header)
header_load-header_bytes_example =
    header_load-header_bytes list_borsh sealed_header sealed_header-IsValid

abbrev bucket_header : BucketHeader
bucket_header = record { hash_domain = 7; num_entries = 2; hash_len = 3; file_offset = 42 }

bucket_load-bucket_store_example :
    bucket_load (bucket_store bucket_header)
    ≡ ok (record bucket_header { file_offset = 42 % 2 ^ 48 })
bucket_load-bucket_store_example =
    bucket_load-bucket_store bucket_header (omega arith) (omega arith)

-- With three buckets the threshold of the loop is one.
abbrev three_buckets : Header
three_buckets = record sealed_header { num_buckets = 3 }

threshold_three : 0 < threshold 3
unfolding threshold
threshold_three = omega arith

sum_zero : sum_hash (0 ∷ []) ≡ 0
unfolding sum_hash
sum_zero = refl

bucket_hash_endless_example : bucket_hash sum_hash 100 three_buckets (0 ∷ []) ≡ stuck
bucket_hash_endless_example =
    bucket_hash_endless sum_hash 100 three_buckets (0 ∷ []) threshold_three (omega arith) sum_zero

five_hashed : bucket_hash sum_hash 1 three_buckets (5 ∷ []) ≡ ok 2
unfolding bucket_hash threshold rotate sum_hash
five_hashed = refl

-- With this many the threshold is 2 ^ 30: the sum 5 is below it, and its hash is not.
abbrev many_buckets : Header
many_buckets = record sealed_header { num_buckets = 3 * 2 ^ 30 }

five_rotated : bucket_hash sum_hash 2 many_buckets (5 ∷ []) ≡ ok 2504807797
unfolding bucket_hash threshold rotate hash_uint64 sum_hash
five_rotated = refl

bucket_hash_iff_example : (bucket_hash sum_hash 2 many_buckets (5 ∷ []) ≡ ok 2504807797) ↔ (
    (0 < 3 * 2 ^ 30)
    × (u : ℕ) × FirstAbove 2 (2 ^ 64 % (3 * 2 ^ 30)) (sum_hash (5 ∷ [])) u
    × (2504807797 ≡ u % (3 * 2 ^ 30)))
bucket_hash_iff_example = bucket_hash_iff sum_hash 2 many_buckets (5 ∷ []) 2504807797 (omega arith)

abbrev entries : List Entry
entries = (record { hash = 1; value = 10 ∷ [] }) ∷ (record { hash = 2; value = 20 ∷ [] }) ∷ []

abbrev laid : List Entry
laid = (record { hash = 2; value = 20 ∷ [] }) ∷ (record { hash = 1; value = 10 ∷ [] }) ∷ []

entries_laid : sort_with_compare entries ≡ ok laid
unfolding sort_with_compare layout eytzinger sort_by insert_sorted zero_entry
entries_laid = refl

abbrev getter : ℕ → Result Error Entry
getter i = or_panic (get_elem? laid i)

getter-Reads : Reads laid getter
getter-Reads i e q = rw q

search_eytzinger-sorted_example :
    ((e : Entry) × Among entries e × (e.hash ≡ 5) × (search_eytzinger 2 5 getter ≡ ok e.value))
    ⊎ (All (λ e. Entry.hash e ≢ 5) entries × (search_eytzinger 2 5 getter ≡ err not_found))
search_eytzinger-sorted_example =
    search_eytzinger-sorted entries laid 5 getter entries_laid getter-Reads

-- The file behind its header.
abbrev table_and_entries : List ℕ
table_and_entries =
    0 ∷ 0 ∷ 0 ∷ 0 ∷ 2 ∷ 0 ∷ 0 ∷ 0 ∷ 3 ∷ 0 ∷ 42 ∷ 0 ∷ 0 ∷ 0 ∷ 0 ∷ 0 ∷ 2 ∷ 0 ∷ 0 ∷ 20 ∷ 1 ∷ 0 ∷ 0 ∷ 10
    ∷ []

abbrev the_db : Db
the_db = record {
  header = sealed_header;
  header_size = 26;
  stream = bytes_reader file;
  prefetch = false;
}

the_db_opened : open_db list_borsh (bytes_reader file) ≡ ok the_db
unfolding header_body put_le
the_db_opened = open_db-encode list_borsh sealed_header table_and_entries sealed_header-IsValid

nine_hashed : bucket_hash sum_hash 1 sealed_header (9 ∷ []) ≡ ok 0
unfolding bucket_hash threshold rotate sum_hash
nine_hashed = refl

lookup-seal_any_example :
    ((p : Pair) × Member pairs p × (lookup sum_hash 1 the_db (9 ∷ []) ≡ ok p.value))
    ⊎ (lookup sum_hash 1 the_db (9 ∷ []) ≡ err not_found)
lookup-seal_any_example =
    lookup-seal_any sum_hash never list_borsh 1 2 1 new_meta pairs {b = empty} {b' = filled}
      {file = file} (omega arith) (omega arith) new_meta-IsValid pairs-Fits (omega arith) new_empty
      insert_pairs seal_pairs (omega arith) (9 ∷ []) 0 the_db nine_hashed the_db_opened

seal-cases_example :
    ((out : List ℕ) × (seal sum_hash never (with_meta new_meta filled) ≡ ok out))
    ⊎ ((seal sum_hash never (with_meta new_meta filled) ≡ err collision)
        × (i : ℕ) × (i < 1)
        × Collide sum_hash (in_bucket sum_hash 1 sealed_header i pairs))
seal-cases_example =
    seal-cases sum_hash never 1 2 1 new_meta pairs {b = empty} {b' = filled} (omega arith)
      (omega arith) new_meta-IsValid pairs-Fits (omega arith) new_empty insert_pairs (λ i d. refl)
