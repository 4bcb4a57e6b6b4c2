-- ===== src/CompactIndex/Buckets.antt =====
-- compactindexsized/compactindex.go: bucket headers and entries as bytes and back.
use yellowstone_faithful.Prelude.{
  ℕ, ◌+◌, ◌-◌, ◌*◌, ◌%◌, ◌^◌, ◌<◌, ◌≤◌, ◌≡◌, ◌∙◌, refl, sym, ap, ap₂, List, [], ◌∷◌, ◌++◌, length,
  replicate, ok, bind_ok, arith, append-nil, length-append, length-replicate, ltb, take_all,
  drop_all, All, false,
}
use yellowstone_faithful.Bytes.{put_le, get_le, slice_checked, copy_bytes, slice}
use yellowstone_faithful.Bytes.Laws.{
  length-put_le, get_le-put_le, slice_checked-inside, copy_bytes-full, slice_checked-ok,
  length-slice,
}
use yellowstone_faithful.CompactIndex.{
  BucketHeader, bucket_store, bucket_load, BucketDescriptor, Entry, unmarshal_entry, marshal_entry,
}
use yellowstone_faithful.CompactIndex.Builder.{marshal_entries}

pub length-bucket_store : (b : BucketHeader) → length (bucket_store b) ≡ 16
unfolding bucket_store
length-bucket_store b = omega (
  arith,
  length-append (put_le 4 b.hash_domain)
      (put_le 4 b.num_entries ++ (b.hash_len ∷ 0 ∷ put_le 6 b.file_offset)),
  length-append (put_le 4 b.num_entries) (b.hash_len ∷ 0 ∷ put_le 6 b.file_offset),
  length-put_le 4 b.hash_domain,
  length-put_le 4 b.num_entries,
  length-put_le 6 b.file_offset,
)

-- What `Store` wrote of a bucket header with a domain and a count of 32 bits, `Load` reads back,
-- but of the file offset only the low 48 bits.
pub bucket_load-bucket_store :
    (b : BucketHeader)
    → b.hash_domain < 2 ^ 32
    → b.num_entries < 2 ^ 32
    → bucket_load (bucket_store b) ≡ ok (record b { file_offset = b.file_offset % 2 ^ 48 })
unfolding bucket_load bucket_store slice_checked put_le get_le
bucket_load-bucket_store b h₁ h₂ = ground arith

-- An entry as the file holds it.
abbrev pub entry_bytes : Entry → List ℕ
entry_bytes e = put_le 3 e.hash ++ e.value

-- The descriptor that sealing and queries make for values of `n` bytes.
abbrev pub descriptor : BucketHeader → ℕ → BucketDescriptor
descriptor hdr n = record {
  bucket_header = record hdr { hash_len = 3 };
  stride = 3 + n;
  offset_width = n;
}

copy_hash : (xs : List ℕ) (x : ℕ) → length xs ≡ 3 → copy_bytes xs (put_le 8 x) ≡ put_le 3 x
unfolding copy_bytes put_le
copy_hash (a ∷ b ∷ c ∷ []) x h = refl
copy_hash _ x h = absurd (omega arith)

module _ (hdr : BucketHeader) (n : ℕ) (e : Entry) (h : n ≤ 252) (full : length e.value ≡ n) where
  pub length-entry_bytes : length (entry_bytes e) ≡ 3 + n
  length-entry_bytes =
      omega (arith, length-append (put_le 3 e.hash) e.value, length-put_le 3 e.hash)

  no_wrap : (3 + n) % 256 ≡ 3 + n
  no_wrap = omega arith

  marshal_entry-bytes :
      (buf : List ℕ)
      → length buf ≡ 3 + n
      → marshal_entry (descriptor hdr n) buf e ≡ ok (entry_bytes e)
  unfolding marshal_entry
  marshal_entry-bytes buf hb =
      rw (no_wrap, long_enough)
        (bind_ok (slice_checked buf 0 3) _ (slice_checked-ok buf 0 3 (omega arith) (omega arith))
          ∙ bind_ok (slice_checked buf 3 (3 + n)) _
              (slice_checked-ok buf 3 (3 + n) (omega arith) (omega arith))
          ∙ ap₂ (λ xs ys. ok (xs ++ ys))
              (copy_hash (slice buf 0 3) e.hash (length-slice buf 0 3 (omega arith)))
              (ap₂ ◌++◌
                  (copy_bytes-full (slice buf 3 (3 + n - 3)) e.value
                    (omega (arith, full, length-slice buf 3 (3 + n - 3) (omega arith))))
                  (drop_all buf (3 + n) (omega arith))
                ∙ append-nil e.value))
    where
      long_enough : ltb (length buf) (3 + n) ≡ false
      long_enough = ground arith

  pub unmarshal_entry-bytes :
      e.hash < 2 ^ 24 → unmarshal_entry (descriptor hdr n) (entry_bytes e) ≡ ok e
  unfolding unmarshal_entry
  unmarshal_entry-bytes hh = rw no_wrap (
      bind_ok (slice_checked (entry_bytes e) 0 3) _ (
        slice_checked-inside [] (put_le 3 e.hash) e.value 0 3 refl
          (omega (arith, length-put_le 3 e.hash)))
      ∙ bind_ok (slice_checked (entry_bytes e) 3 (3 + n)) _ (
          ap (λ b. slice_checked b 3 (3 + n))
            (ap (λ l. put_le 3 e.hash ++ l) (sym (append-nil e.value)))
          ∙ slice_checked-inside (put_le 3 e.hash) e.value [] 3 (3 + n)
              (sym (length-put_le 3 e.hash)) (omega (arith, full)))
      ∙ ap₂ (λ a b. ok (record { hash = a; value = b }))
          (ap get_le (take_all (put_le 3 e.hash) 8 (omega (arith, length-put_le 3 e.hash)))
            ∙ get_le-put_le 3 e.hash hh)
          (copy_bytes-full (replicate n 0) e.value
            (omega (arith, full, length-replicate {A = ℕ} n 0))))

-- Entries in a row.
abbrev pub entries_bytes : List Entry → List ℕ
entries_bytes [] = []
entries_bytes (e ∷ es) = entry_bytes e ++ entries_bytes es

pub marshal_entries-bytes :
    (hdr : BucketHeader) (n : ℕ) (es : List Entry) (buf : List ℕ)
    → n ≤ 252
    → All (λ e. length (Entry.value e) ≡ n) es
    → length buf ≡ 3 + n
    → marshal_entries (descriptor hdr n) buf es ≡ ok (entries_bytes es)
unfolding marshal_entries
marshal_entries-bytes hdr n [] buf h f hb = refl
marshal_entries-bytes hdr n (e ∷ es) buf h f hb =
    bind_ok (marshal_entry (descriptor hdr n) buf e) _ (marshal_entry-bytes hdr n e h f.0 buf hb)
    ∙ bind_ok (marshal_entries (descriptor hdr n) (entry_bytes e) es) _
        (marshal_entries-bytes hdr n es (entry_bytes e) h f.1 (length-entry_bytes hdr n e h f.0))

pub length-entries_bytes :
    (n : ℕ) (es : List Entry)
    → All (λ e. length (Entry.value e) ≡ n) es
    → length (entries_bytes es) ≡ length es * (3 + n)
length-entries_bytes n [] f = grind arith
length-entries_bytes n (e ∷ es) f = grind (
  arith,
  length-append (entry_bytes e) (entries_bytes es),
  length-append (put_le 3 e.hash) e.value,
  length-put_le 3 e.hash,
  length-entries_bytes n es f.1,
)
