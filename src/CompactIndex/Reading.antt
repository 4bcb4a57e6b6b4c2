-- ===== src/CompactIndex/Reading.antt =====
-- compactindexsized/query.go: opening a file, its bucket headers and its entries, read from bytes
-- that stand where the format has them.
use yellowstone_faithful.Prelude.{
  ℕ, zero, suc, ◌+◌, ◌*◌, ◌%◌, ◌^◌, ◌<◌, ◌≤◌, ◌≡◌, ◌∙◌, refl, sym, ap, subst, false, none, some,
  List, [], ◌∷◌, ◌++◌, length, get_elem?, take, drop, Result, ok, guard, bind_ok, ◌>>=◌, All-imp,
  panic, guard-true, arith, All, append_assoc, length-append, drop-append, ltb, ◌==◌, if◌then◌else◌,
}
use yellowstone_faithful.Bytes.{put_le, get_le, bytes_equal}
use yellowstone_faithful.Bytes.Laws.{length-put_le, get_le-put_le, bytes_equal_self}
use yellowstone_faithful.Streams.{ReaderAt, ReadResult, bytes_reader, section_reader}
use yellowstone_faithful.Streams.Laws.{bytes_reader-full, section_reader-inside}
use yellowstone_faithful.Borsh.{Borsh}
use yellowstone_faithful.Meta.RoundTrip.{encode}
use yellowstone_faithful.CompactIndex.{
  Error, Header, invalid_magic, magic, header_load, header_body, BucketHeader, bucket_store,
  bucket_load, Entry, BucketDescriptor, unmarshal_entry, out_of_bounds_bucket,
}
use yellowstone_faithful.CompactIndex.Builder.{entry_stride}
use yellowstone_faithful.CompactIndex.Query.{
  Db, Bucket, read_filled, fail, open_db, get_bucket, load_entry, entry_of,
}
use yellowstone_faithful.CompactIndex.Format.{IsValid, encode_header, header_load-encode, body_lt}
use yellowstone_faithful.CompactIndex.Buckets.{
  descriptor, entry_bytes, entries_bytes, length-entry_bytes, unmarshal_entry-bytes,
  length-entries_bytes, length-bucket_store, bucket_load-bucket_store,
}
use yellowstone_faithful.CompactIndex.Mining.{EntryFits}
use yellowstone_faithful.CompactIndex.SealedFile.{entry_stride-eq}

read_filled-full :
    (r : ReaderAt) (off n : ℕ) (bs : List ℕ)
    → r off n ≡ record { got = bs; error = none }
    → n ≡ length bs
    → read_filled r off n ≡ ok bs
unfolding read_filled
read_filled-full r off n bs e h =
    ap (λ (res : ReadResult). if ltb (length res.got) n then fail res.error else ok res.got) e
    ∙ ground arith

-- A read of what stands between `pre` and `suf`.
pub read_filled-bytes :
    (pre mid suf : List ℕ) (off n : ℕ)
    → off ≡ length pre
    → n ≡ length mid
    → read_filled (bytes_reader (pre ++ (mid ++ suf))) off n ≡ ok mid
read_filled-bytes pre mid suf off n h₁ h₂ =
    read_filled-full (bytes_reader (pre ++ (mid ++ suf))) off n mid
      (ap (bytes_reader (pre ++ (mid ++ suf)) off) h₂ ∙ bytes_reader-full pre mid suf off h₁) h₂

pub length-encode_header :
    (h : Header) → length (encode_header h) ≡ 12 + length (header_body h (encode h.meta_data))
length-encode_header h =
    let body : List ℕ = header_body h (encode h.meta_data) in
    omega (arith, length-append (put_le 4 (length body)) body, length-put_le 4 (length body))

-- The end of `Open`, by the size of the header.
abbrev load_header : Borsh → List ℕ → ℕ → Result Error Db
load_header B file size = do
  file_header_buf ← read_filled (bytes_reader file) 0 size
  header ← header_load B file_header_buf
  ok (record { header = header; header_size = size; stream = bytes_reader file; prefetch = false })

-- A file that starts with a header opens to it.
pub open_db-encode :
    (B : Borsh) (h : Header) (rest : List ℕ)
    → IsValid h
    → open_db B (bytes_reader (encode_header h ++ rest))
      ≡ ok (record {
        header = h;
        header_size = length (encode_header h);
        stream = bytes_reader (encode_header h ++ rest);
        prefetch = false;
      })
unfolding open_db
open_db-encode B h rest v =
    let body : List ℕ = header_body h (encode h.meta_data) in
    let len : List ℕ = put_le 4 (length body) in
    let file : List ℕ = encode_header h ++ rest in
    let small = body_lt h v.meta_valid in
    let start : file ≡ [] ++ ((magic ++ len) ++ (body ++ rest)) = simp append_assoc in
    let size_read : (8 + 4 + get_le (drop 8 (magic ++ len))) % 2 ^ 32 ≡ length (encode_header h) =
      omega (
        arith,
        ap get_le (drop-append magic len 8 refl),
        get_le-put_le 4 (length body) (omega arith),
        length-encode_header h,
      ) in
    bind_ok (read_filled (bytes_reader file) 0 12) _ (
      ap (λ b. read_filled (bytes_reader b) 0 12) start
      ∙ read_filled-bytes [] (magic ++ len) (body ++ rest) 0 12 refl
          (omega (arith, length-append magic len, length-put_le 4 (length body))))
    ∙ bind_ok (guard (bytes_equal (take 8 (magic ++ len)) magic) invalid_magic) _
        (guard-true _ invalid_magic (bytes_equal_self magic))
    ∙ ap (load_header B file) size_read
    ∙ bind_ok (read_filled (bytes_reader file) 0 (length (encode_header h))) _
        (read_filled-bytes [] (encode_header h) rest 0 (length (encode_header h)) refl refl)
    ∙ bind_ok (header_load B (encode_header h)) _ (header_load-encode B h v)

-- The descriptor and the section that `GetBucket` makes of a bucket header.
abbrev pub bucket_of : ReaderAt → BucketHeader → ℕ → Bucket
bucket_of stream hdr n = record {
  descriptor = descriptor hdr n;
  entries = section_reader stream hdr.file_offset (hdr.num_entries * (3 + n));
}

abbrev assemble : ReaderAt → BucketHeader → ℕ → ℕ → ℕ → ℕ → Bucket
assemble stream hdr offset hash_len stride width = record {
  descriptor = record {
    bucket_header = record hdr { hash_len = hash_len; file_offset = offset };
    stride = stride;
    offset_width = width;
  };
  entries = section_reader stream offset (hdr.num_entries * stride);
}

pub get_bucket-bytes :
    (h : Header) (pre suf : List ℕ) (hdr : BucketHeader) (header_size i : ℕ)
    → IsValid h
    → h.value_size ≤ 252
    → i < h.num_buckets
    → header_size + i * 16 ≡ length pre
    → hdr.hash_len ≡ 3
    → hdr.hash_domain < 2 ^ 32
    → hdr.num_entries < 2 ^ 32
    → hdr.file_offset < 2 ^ 48
    → get_bucket
        (record {
          header = h;
          header_size = header_size;
          stream = bytes_reader (pre ++ (bucket_store hdr ++ suf));
          prefetch = false;
        })
        i
      ≡ ok (bucket_of (bytes_reader (pre ++ (bucket_store hdr ++ suf))) hdr h.value_size)
unfolding get_bucket
get_bucket-bytes h pre suf hdr header_size i v small hi at three h₁ h₂ h₃ =
    let stream : ReaderAt = bytes_reader (pre ++ (bucket_store hdr ++ suf)) in
    let n : ℕ = h.value_size in
    bind_ok (guard (ltb i h.num_buckets) out_of_bounds_bucket) _ {a = tt} (ground arith)
    ∙ bind_ok (if n == 0 then panic else ok n) _ {a = n} (ground (arith, v.value_size_pos))
    ∙ bind_ok (read_filled stream (header_size + i * 16) 16) _ (
        read_filled-bytes pre (bucket_store hdr) suf (header_size + i * 16) 16 at
          (sym (length-bucket_store hdr)))
    ∙ bind_ok (bucket_load (bucket_store hdr)) _ (bucket_load-bucket_store hdr h₁ h₂)
    ∙ ap (λ o. ok (assemble stream hdr o hdr.hash_len (entry_stride n) (n % 256)))
        {x = hdr.file_offset % 2 ^ 48} (omega arith)
    ∙ ap (λ l. ok (assemble stream hdr hdr.file_offset l (entry_stride n) (n % 256))) three
    ∙ ap (λ s. ok (assemble stream hdr hdr.file_offset 3 s (n % 256))) (entry_stride-eq n small)
    ∙ ap (λ w. ok (assemble stream hdr hdr.file_offset 3 (3 + n) w)) {x = n % 256} (omega arith)

entry_of-full :
    (d : BucketDescriptor) (bs : List ℕ)
    → length bs ≡ d.stride
    → entry_of d (record { got = bs; error = none }) ≡ unmarshal_entry d bs
unfolding entry_of
entry_of-full d bs h = ground arith

module _ (hdr : BucketHeader) (n : ℕ) (small : n ≤ 252) (laid : List Entry)
    (fits : All (EntryFits n) laid) where
  -- The entry at an index, in the bytes of all of them.
  entries_bytes-split :
      (es : List Entry) (k : ℕ) (e : Entry)
      → All (EntryFits n) es
      → get_elem? es k ≡ some e
      → (pre : List ℕ) × (suf : List ℕ) × (entries_bytes es ≡ pre ++ (entry_bytes e ++ suf))
        × (length pre ≡ k * (3 + n))
        × EntryFits n e
  entries_bytes-split [] k e f q = cc
  entries_bytes-split (o ∷ es) zero e f q =
      let same : o ≡ e = cc in
      (
        [],
        entries_bytes es,
        ap (λ o. entry_bytes o ++ entries_bytes es) same,
        grind arith,
        subst (EntryFits n) same f.0,
      )
  entries_bytes-split (o ∷ es) (suc k) e f q =
      let (pre, suf, split, at, fit) = entries_bytes-split es k e f.1 q in
      (
        entry_bytes o ++ pre,
        suf,
        ap (λ l. entry_bytes o ++ l) split
            ∙ sym (append_assoc (entry_bytes o) pre (entry_bytes e ++ suf)),
        grind (arith, length-append (entry_bytes o) pre, length-entry_bytes hdr n o small f.0.1),
        fit,
      )

  -- `loadEntry` of a bucket whose entries stand in the stream.
  pub load_entry-bytes :
      (pre suf : List ℕ) (k : ℕ) (e : Entry)
      → hdr.file_offset ≡ length pre
      → hdr.num_entries ≡ length laid
      → length (pre ++ (entries_bytes laid ++ suf)) < 2 ^ 63
      → get_elem? laid k ≡ some e
      → load_entry (bucket_of (bytes_reader (pre ++ (entries_bytes laid ++ suf))) hdr n) k ≡ ok e
  unfolding load_entry
  load_entry-bytes pre suf k e ho hc short q =
      let (p, s, split, at, fit) = entries_bytes-split laid k e fits q in
      let bytes : List ℕ = pre ++ (entries_bytes laid ++ suf) in
      let whole : bytes ≡ (pre ++ p) ++ (entry_bytes e ++ (s ++ suf)) =
        ap (λ l. pre ++ (l ++ suf)) split ∙ simp append_assoc in
      let len = length-entry_bytes hdr n e small fit.1 in
      let off : hdr.file_offset + k * (3 + n) ≡ length (pre ++ p) =
        omega (arith, length-append pre p) in
      let total : length p + ((3 + n) + length s) ≡ length laid * (3 + n) = omega (
        arith,
        ap length split,
        length-append p (entry_bytes e ++ s),
        length-append (entry_bytes e) s,
        length-entries_bytes n laid (All-imp _ _ (λ o g. g.1) laid fits),
      ) in
      let sized : hdr.num_entries * (3 + n) ≡ length laid * (3 + n) = ap (λ c. c * (3 + n)) hc in
      let fits_stream : length bytes ≡ length (pre ++ p) + ((3 + n) + length (s ++ suf)) = omega (
        arith,
        ap length whole,
        length-append (pre ++ p) (entry_bytes e ++ (s ++ suf)),
        length-append (entry_bytes e) (s ++ suf),
      ) in
      let inside =
        section_reader-inside (bytes_reader bytes) hdr.file_offset (hdr.num_entries * (3 + n))
          (k * (3 + n)) (3 + n) (omega arith) (omega arith) (omega arith) in
      let there : bytes_reader bytes (hdr.file_offset + k * (3 + n)) (3 + n)
          ≡ record { got = entry_bytes e; error = none } =
        ap (λ b. bytes_reader b (hdr.file_offset + k * (3 + n)) (3 + n)) whole
        ∙ ap
            (bytes_reader ((pre ++ p) ++ (entry_bytes e ++ (s ++ suf)))
              (hdr.file_offset + k * (3 + n)))
            (sym len)
        ∙ bytes_reader-full (pre ++ p) (entry_bytes e) (s ++ suf) (hdr.file_offset + k * (3 + n))
            off in
      ap (entry_of (descriptor hdr n)) (inside ∙ there)
      ∙ entry_of-full (descriptor hdr n) (entry_bytes e) len
      ∙ unmarshal_entry-bytes hdr n e small fit.1 fit.0
