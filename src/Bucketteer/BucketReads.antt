-- ===== src/Bucketteer/BucketReads.antt =====
-- bucketteer/read.go: `Has` on a reader that holds a sealed bucket where its table says.
use yellowstone_faithful.Prelude.{
  ℕ, zero, suc, ◌+◌, ◌*◌, ◌%◌, ◌^◌, ◌≤◌, ◌<◌, ◌≡◌, refl, sym, ap, ◌∙◌, Bool, true, false, some,
  List, [], ◌∷◌, ◌++◌, length, take, get_elem?, All, All-get, ok, err, map_err, arith, ◌==◌,
  if◌then◌else◌, length-append, append_assoc,
}
use yellowstone_faithful.Bytes.{put_le, get_le}
use yellowstone_faithful.Bytes.Laws.{length-put_le, get_le-put_le}
use yellowstone_faithful.Streams.{section_reader, read_exact, ReaderAt}
use yellowstone_faithful.Streams.Laws.{read_exact-section}
use yellowstone_faithful.Sorting.{sort_by-All}
use yellowstone_faithful.Eytzinger.Members.{layout-All}
use yellowstone_faithful.Bucketteer.{BucketError, io, not_found, prefix_to_uint16, max_uint64}
use yellowstone_faithful.Bucketteer.Writer.{
  has_hash, hash_bytes, bucket_bytes, sort_with_compare, get_clean_set,
}
use yellowstone_faithful.Bucketteer.Reader
use yellowstone_faithful.Bucketteer.Reader.{
  Reader, is_reader_empty, read_header_size, decode_header, read_header, new_reader, read_uint64_le,
  found_or_not,
}
use yellowstone_faithful.Bucketteer.CleanSet.{get_clean_set-All, get_clean_set_lem}
use yellowstone_faithful.Bucketteer.Search.{Reads, search_eytzinger_lem}
use yellowstone_faithful.Bucketteer.Buckets.{laid, sort_with_compare-laid, bucket_limit}

abbrev pub IsU64 : ℕ → Type 0
IsU64 h = h < 2 ^ 64

laid-IsU64 : (hashes : List ℕ) → All IsU64 hashes → All IsU64 (laid hashes)
unfolding sort_with_compare
laid-IsU64 hashes h =
    layout-All {E = BucketError} IsU64 0 _ (laid hashes)
      (sort_by-All (λ x. x) IsU64 (get_clean_set hashes) (get_clean_set-All IsU64 hashes h))
      (sort_with_compare-laid hashes).0

-- The bytes of a hash within the bytes of all.
hash_bytes-at :
    (hs : List ℕ) (i v : ℕ)
    → get_elem? hs i ≡ some v
    → (front : List ℕ) × (back : List ℕ) × (hash_bytes hs ≡ front ++ (put_le 8 v ++ back))
      × (length front ≡ i * 8)
      × (i * 8 + 8 ≤ length hs * 8)
unfolding hash_bytes
hash_bytes-at [] i v e = cc
hash_bytes-at (h ∷ hs) zero v e =
    ([], hash_bytes hs, ap (λ x. put_le 8 x ++ hash_bytes hs) (cc), refl, omega arith)
hash_bytes-at (h ∷ hs) (suc i) v e =
    let (front, back, q, n, le) = hash_bytes-at hs i v e in
    (
      put_le 8 h ++ front,
      back,
      ap (◌++◌ (put_le 8 h)) q ∙ sym (append_assoc (put_le 8 h) front (put_le 8 v ++ back)),
      omega (arith, length-append (put_le 8 h) front, length-put_le 8 h),
      omega arith,
    )

-- The reader has the bytes `whole` at `offset`.
abbrev pub Holds : ReaderAt → ℕ → List ℕ → Type 0
Holds r offset whole =
    (front mid back : List ℕ) (off n : ℕ)
    → whole ≡ front ++ (mid ++ back)
    → off ≡ offset + length front
    → n ≡ length mid
    → 0 < n
    → read_exact r off n ≡ ok mid

module _ (r : ReaderAt) (offset : ℕ) (hs : List ℕ) (small : length hs < bucket_limit)
    (fits : All IsU64 hs) (low : offset < 2 ^ 60) (holds : Holds r offset (bucket_bytes hs)) where
  count-read : read_exact r offset 4 ≡ ok (put_le 4 (length hs % 2 ^ 32))
  unfolding bucket_bytes
  count-read =
      holds [] (put_le 4 (length hs % 2 ^ 32)) (hash_bytes hs) offset 4 refl (omega arith)
        (sym (length-put_le 4 _)) (omega arith)

  hash-read :
      (i v : ℕ)
      → get_elem? hs i ≡ some v
      → read_exact (section_reader r (offset + 4) (length hs * 8)) (i * 8) 8 ≡ ok (put_le 8 v)
  unfolding bucket_bytes
  hash-read i v e =
      let (front, back, q, n, le) = hash_bytes-at hs i v e in
      let count : List ℕ = put_le 4 (length hs % 2 ^ 32) in
      read_exact-section r (offset + 4) (length hs * 8) (i * 8) 8 le (omega arith) (omega arith) (
        holds (count ++ front) (put_le 8 v) back (offset + 4 + i * 8) 8
          (ap (◌++◌ count) q ∙ sym (append_assoc count front (put_le 8 v ++ back)))
          (omega (arith, length-append count front, length-put_le 4 (length hs % 2 ^ 32)))
          (sym (length-put_le 8 v)) (omega arith))

  hashes-read :
      Reads hs
        (λ i. map_err io (read_uint64_le (section_reader r (offset + 4) (length hs * 8)) (i * 8)))
  unfolding read_uint64_le
  hashes-read i v e = rw (hash-read i v e) (ap ok (get_le-put_le 8 v (All-get IsU64 hs i v fits e)))

-- `Has` on a reader whose bucket holds the hashes `laid hashes`.
module _ (xxhash : List ℕ → ℕ) (r : Reader) (sig hashes : List ℕ)
    (small : length hashes < bucket_limit) (fits : All IsU64 hashes) where
  abbrev pub offset : ℕ
  offset = r.prefix_to_offset (prefix_to_uint16 (take 2 sig))

  verdict : (b : Bool) (x : ℕ) → found_or_not (if b then ok x else err not_found) x ≡ ok b
  unfolding found_or_not
  verdict true x = ground arith
  verdict false x = refl

  pub has-Holds :
      offset < 2 ^ 60
      → Holds r.content_reader offset (bucket_bytes (laid hashes))
      → Reader.has xxhash r sig ≡ ok (has_hash hashes (xxhash sig))
  unfolding Reader.has found_or_not
  has-Holds low holds =
      let hs : List ℕ = laid hashes in
      let (sorted, shorter) = sort_with_compare-laid hashes in
      let short : length hs < bucket_limit = omega arith in
      let x : ℕ = xxhash sig in
      let n : get_le (put_le 4 (length hs % 2 ^ 32)) ≡ length hs =
        get_le-put_le 4 (length hs % 2 ^ 32) (omega arith) ∙ omega arith in
      let wrap : length hs * 8 % 2 ^ 32 ≡ length hs * 8 = omega arith in
      let filled : (offset == max_uint64) ≡ false = ground arith in
      let clean : has_hash (get_clean_set hashes) x ≡ has_hash hashes x =
        (get_clean_set_lem hashes).1 x in
      rw
        (
          filled,
          count-read r.content_reader offset hs short (laid-IsU64 hashes fits) low holds,
          n,
          wrap,
        )
        (ap (λ res. found_or_not res x)
            (search_eytzinger_lem (get_clean_set hashes) hs x _ sorted
              (hashes-read r.content_reader offset hs short (laid-IsU64 hashes fits) low holds))
          ∙ verdict (has_hash (get_clean_set hashes) x) x
          ∙ ap ok clean)
