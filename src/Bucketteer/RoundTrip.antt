-- ===== src/Bucketteer/RoundTrip.antt =====
-- bucketteer: the file that `Seal` leaves behind, read through `NewReader` and `Has`.
use yellowstone_faithful.Prelude.{
  ℕ, ◌+◌, ◌-◌, ◌/◌, ◌%◌, ◌^◌, ◌<◌, ◌≡◌, refl, sym, ap, bind_ok, ◌∙◌, subst, false, List, [], ◌∷◌,
  ◌++◌, length, take, All, ok, map_err, arith, length-append, append_assoc,
}
use yellowstone_faithful.Bytes.{put_le, get_le, AreBytes}
use yellowstone_faithful.Bytes.Laws.{length-put_le, get_le-put_le}
use yellowstone_faithful.Streams.{bytes_reader, section_reader, read_exact}
use yellowstone_faithful.Streams.Laws.{read_exact-bytes, read_exact-section, bytes_reader-full}
use yellowstone_faithful.Meta.{Meta}
use yellowstone_faithful.Meta.RoundTrip.{IsValid, length-encode}
use yellowstone_faithful.Borsh.{Borsh}
use yellowstone_faithful.Bucketteer.{io, prefix_to_uint16}
use yellowstone_faithful.Bucketteer.Writer
use yellowstone_faithful.Bucketteer.Writer.{
  Writer, Sealing, has_hash, hash_bytes, bucket_bytes, sort_with_compare, get_clean_set,
  create_header, seal_buckets, seal_to, seal, overwrite_start,
}
use yellowstone_faithful.Bucketteer.Reader
use yellowstone_faithful.Bucketteer.Reader.{
  Reader, is_reader_empty, empty_by, read_header_size, decode_header, read_header, new_reader,
  read_uint64_le, found_or_not,
}
use yellowstone_faithful.Bucketteer.Buckets.{
  laid, sort_with_compare-laid, length-bucket_bytes, bucket_limit,
}
use yellowstone_faithful.Bucketteer.BucketReads.{Holds, IsU64, has-Holds}
use yellowstone_faithful.Bucketteer.SealedFile.{File}
use yellowstone_faithful.Bucketteer.Header.{header_body, length-header_body, decode_header-body}

-- A reader over a file with a bucket behind `front` and `x`, in a section behind `front`.
section-Holds :
    (front x bucket back : List ℕ)
    → length front < 2 ^ 60
    → length x < 2 ^ 60
    → length bucket < 2 ^ 60
    → Holds
        (section_reader
          (bytes_reader (front ++ (x ++ (bucket ++ back))))
          (length front)
          (2 ^ 63 - 1))
        (length x)
        bucket
section-Holds front x bucket back h₁ h₂ h₃ a mid b off n e ho hn pos =
    let content : List ℕ = front ++ (x ++ (bucket ++ back)) in
    let pre : List ℕ = front ++ (x ++ a) in
    let same : content ≡ pre ++ (mid ++ (b ++ back)) =
      ap (λ t. front ++ (x ++ (t ++ back))) e ∙ simp append_assoc in
    let lengths : length bucket ≡ length a + (length mid + length b) =
      ap length e ∙ omega (arith, length-append a (mid ++ b), length-append mid b) in
    read_exact-section (bytes_reader content) (length front) (2 ^ 63 - 1) off n (omega arith) pos
      (omega arith)
      (rw same (
        read_exact-bytes pre mid (b ++ back) (length front + off) n
          (omega (arith, length-append front (x ++ a), length-append x a)) hn))

-- A `[64]byte`.
abbrev pub IsSignature : List ℕ → Type 0
IsSignature sig = (length sig ≡ 64) × AreBytes sig

prefix-lt : (sig : List ℕ) → IsSignature sig → prefix_to_uint16 (take 2 sig) < 65536
unfolding prefix_to_uint16 get_le
prefix-lt [] h = omega arith
prefix-lt (a ∷ []) h = omega arith
prefix-lt (a ∷ b ∷ rest) h = omega arith

module _ (B : Borsh) (w : Writer) (m : Meta) (v : IsValid m) (f : File B w m) where
  body : List ℕ
  body = header_body m f.sealed.prefix_to_offset

  unfoldable pub content : List ℕ
  content = f.header ++ f.tail

  body_size : length body < 2 ^ 31
  unfolding body
  body_size = omega (arith, length-header_body m f.sealed.prefix_to_offset, length-encode m v)

  length-header : length f.header ≡ length body + 4
  unfolding body
  length-header =
      ap length f.header_parts
      ∙ length-append (put_le 4 (length body)) body
      ∙ omega (arith, length-put_le 4 (length body))

  content_parts : content ≡ [] ++ (put_le 4 (length body) ++ (body ++ f.tail))
  unfolding content body
  content_parts =
      ap (λ h. h ++ f.tail) f.header_parts ∙ append_assoc (put_le 4 (length body)) body f.tail

  not_empty : is_reader_empty (bytes_reader content) ≡ ok false
  unfolding is_reader_empty put_le
  not_empty =
      let n : ℕ = length body in
      let rest : List ℕ = put_le 3 (n / 256) ++ (body ++ f.tail) in
      ap (λ c. empty_by (bytes_reader c 0 1)) content_parts
      ∙ ap empty_by (bytes_reader-full [] (n % 256 ∷ []) rest 0 refl)

  size-read : read_header_size (bytes_reader content) ≡ ok (length body)
  unfolding read_header_size
  size-read =
      bind_ok _ _ (
        ap (λ c. read_exact (bytes_reader c) 0 4) content_parts
        ∙ read_exact-bytes [] (put_le 4 (length body)) (body ++ f.tail) 0 4 refl
            (sym (length-put_le 4 (length body))))
      ∙ ap ok (get_le-put_le 4 (length body) (omega (arith, body_size)))

  body-read : read_exact (bytes_reader content) 4 (length body) ≡ ok body
  body-read = rw content_parts (
      read_exact-bytes (put_le 4 (length body)) body f.tail 4 (length body)
        (sym (length-put_le 4 (length body))) refl)

  header_read :
      (table : ℕ → ℕ)
      → decode_header B body ≡ ok (table, m)
      → read_header B (bytes_reader content) ≡ ok (table, m, length body + 4)
  unfolding read_header
  header_read table q =
      bind_ok _ _ (ap (map_err io) size-read)
      ∙ bind_ok _ _ (ap (map_err io) body-read)
      ∙ bind_ok _ _ q

  pub opened :
      (r : Reader) × (new_reader B (bytes_reader content) ≡ ok r)
      × (r.content_reader ≡ section_reader (bytes_reader content) (length f.header) (2 ^ 63 - 1))
      × (r.meta_data ≡ m)
      × ((p : ℕ) → p < 65536 → r.prefix_to_offset p ≡ f.sealed.prefix_to_offset p)
  unfolding new_reader body
  opened =
      let (table, q, same) =
        decode_header-body B m f.sealed.prefix_to_offset v (λ p h. omega (arith, f.bounded p h)) in
      (
        record {
          content_reader = section_reader (bytes_reader content) (length body + 4) (2 ^ 63 - 1);
          meta_data = m;
          prefix_to_offset = table;
        },
        bind_ok _ _ (ap (map_err io) not_empty) ∙ bind_ok _ _ (header_read table q),
        ap (λ n. section_reader (bytes_reader content) n (2 ^ 63 - 1)) (sym length-header),
        refl,
        same,
      )

  pub has-opened :
      (xxhash : List ℕ → ℕ) (r : Reader) (sig : List ℕ)
      → ((p : ℕ) → length (w.prefix_to_hashes p) < bucket_limit)
      → ((p : ℕ) → All IsU64 (w.prefix_to_hashes p))
      → IsSignature sig
      → r.content_reader ≡ section_reader (bytes_reader content) (length f.header) (2 ^ 63 - 1)
      → ((p : ℕ) → p < 65536 → r.prefix_to_offset p ≡ f.sealed.prefix_to_offset p)
      → Reader.has xxhash r sig ≡ ok (Writer.has xxhash w sig)
  unfolding Writer.has content
  has-opened xxhash r sig small fits s same table =
      let p : ℕ = prefix_to_uint16 (take 2 sig) in
      let p_lt : p < 65536 = prefix-lt sig s in
      let hashes : List ℕ = w.prefix_to_hashes p in
      let (x, back, q, n) = f.placed p p_lt in
      let at : r.prefix_to_offset p ≡ length x = table p p_lt ∙ sym n in
      let low : length x < 2 ^ 60 = omega (arith, f.bounded p p_lt) in
      let whole : List ℕ = bucket_bytes (laid hashes) in
      has-Holds xxhash r sig hashes (small p) (fits p) (omega arith) (
        subst (λ o. Holds r.content_reader o whole) (sym at)
          (subst (λ rd. Holds rd (length x) whole)
            (ap (λ t. section_reader (bytes_reader (f.header ++ t)) (length f.header) (2 ^ 63 - 1))
                (sym q)
              ∙ sym same)
            (section-Holds f.header x whole back (omega (arith, length-header, body_size)) low (
              omega (
                arith,
                length-bucket_bytes (laid hashes),
                (sort_with_compare-laid hashes).1,
                small p,
              )))))
