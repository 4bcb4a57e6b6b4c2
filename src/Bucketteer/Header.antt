-- ===== src/Bucketteer/Header.antt =====
-- bucketteer/write.go `createHeader` against bucketteer/read.go `readHeader`.
use yellowstone_faithful.Prelude.{
  ℕ, zero, suc, ◌+◌, ◌*◌, ◌%◌, ◌^◌, ◌≤◌, ◌<◌, ◌≡◌, refl, sym, ap, ◌∙◌, List, [], ◌++◌, length, ok,
  arith, length-append, append_assoc, append-nil, ℕ_discrete,
}
use yellowstone_faithful.Bytes.{put_le, get_le}
use yellowstone_faithful.Bytes.Laws.{length-put_le, bytes_equal_self}
use yellowstone_faithful.Meta.{Meta, new_meta}
use yellowstone_faithful.Meta.RoundTrip.{IsValid, encode, marshal_binary-encode, unmarshal-marshal}
use yellowstone_faithful.Meta.Decoder.{read_n}
use yellowstone_faithful.Borsh.{Borsh}
use yellowstone_faithful.Bucketteer.{
  BucketToOffset, update, prefix_to_uint16, uint16_to_prefix, magic, version, num_prefixes,
  new_uint16_layout,
}
use yellowstone_faithful.Bucketteer.Writer.{create_header, write_pairs}
use yellowstone_faithful.Bucketteer.Writer.{or_fail as or_fail_write}
use yellowstone_faithful.Bucketteer.Reader.{decode_header, read_pairs, or_fail}

-- The pairs of the header for `n` prefixes from `i` on.
pub pairs_bytes : ℕ → ℕ → BucketToOffset → List ℕ
pairs_bytes zero i offsets = []
pairs_bytes (suc n) i offsets =
    put_le 2 (i % 65536) ++ (put_le 8 (offsets i) ++ pairs_bytes n (i + 1) offsets)

-- The header behind its length.
pub header_body : Meta → BucketToOffset → List ℕ
header_body m offsets =
    magic
    ++ (put_le 8 version
        ++ (encode m ++ (put_le 8 num_prefixes ++ pairs_bytes num_prefixes 0 offsets)))

length-pairs_bytes :
    (n i : ℕ) (offsets : BucketToOffset) → length (pairs_bytes n i offsets) ≡ n * 10
unfolding pairs_bytes
length-pairs_bytes zero i offsets = refl
length-pairs_bytes (suc n) i offsets = omega (
  arith,
  length-append (put_le 2 (i % 65536)) (put_le 8 (offsets i) ++ pairs_bytes n (i + 1) offsets),
  length-append (put_le 8 (offsets i)) (pairs_bytes n (i + 1) offsets),
  length-put_le 2 (i % 65536),
  length-put_le 8 (offsets i),
  length-pairs_bytes n (i + 1) offsets,
)

pub length-header_body :
    (m : Meta) (offsets : BucketToOffset)
    → length (header_body m offsets) ≡ 24 + length (encode m) + num_prefixes * 10
unfolding header_body
length-header_body m offsets =
    let pairs : List ℕ = pairs_bytes num_prefixes 0 offsets in
    omega (
      arith,
      length-append magic (put_le 8 version ++ (encode m ++ (put_le 8 num_prefixes ++ pairs))),
      length-append (put_le 8 version) (encode m ++ (put_le 8 num_prefixes ++ pairs)),
      length-append (encode m) (put_le 8 num_prefixes ++ pairs),
      length-append (put_le 8 num_prefixes) pairs,
      length-put_le 8 version,
      length-put_le 8 num_prefixes,
      length-pairs_bytes num_prefixes 0 offsets,
    )

module _ (B : Borsh) where
  write_pairs-bytes :
      (n i : ℕ) (offsets : BucketToOffset) (e : B.Encoder)
      → (e' : B.Encoder) × (write_pairs B n i offsets e ≡ ok e')
        × (B.written e' ≡ B.written e ++ pairs_bytes n i offsets)
  unfolding write_pairs or_fail_write pairs_bytes uint16_to_prefix
  write_pairs-bytes zero i offsets e = (e, refl, sym (append-nil (B.written e)))
  write_pairs-bytes (suc n) i offsets e =
      let (e₁, q₁, w₁) = B.write_lem (put_le 2 (i % 65536)) e in
      let (e₂, q₂, w₂) = B.write_uint64_lem (offsets i) e₁ in
      let (e₃, q₃, w₃) = write_pairs-bytes n (i + 1) offsets e₂ in
      (e₃, rw (q₁, q₂) q₃, w₃ ∙ simp (w₂, w₁, append_assoc))

  -- On metadata within its limits `createHeader` writes the given size and then the body.
  pub create_header-bytes :
      (size : ℕ) (m : Meta) (offsets : BucketToOffset)
      → IsValid m
      → create_header B magic version size m offsets ≡ ok (put_le 4 size ++ header_body m offsets)
  unfolding create_header header_body or_fail_write
  create_header-bytes size m offsets v =
      let (e₁, q₁, w₁) = B.write_uint32_lem size B.new_encoder in
      let (e₂, q₂, w₂) = B.write_lem magic e₁ in
      let (e₃, q₃, w₃) = B.write_uint64_lem version e₂ in
      let (e₄, q₄, w₄) = B.write_lem (encode m) e₃ in
      let (e₅, q₅, w₅) = B.write_uint64_lem num_prefixes e₄ in
      let (e₆, q₆, w₆) = write_pairs-bytes num_prefixes 0 offsets e₅ in
      rw (q₁, q₂, q₃, marshal_binary-encode m v, q₄, q₅, q₆)
        (ap ok (w₆ ∙ simp (w₅, w₄, w₃, w₂, w₁, B.new_encoder_lem, append_assoc)))

  prefix-back : (i : ℕ) → i < 65536 → prefix_to_uint16 (put_le 2 (i % 65536)) ≡ i
  unfolding prefix_to_uint16 put_le get_le
  prefix-back i h = omega arith

  read_pairs-bytes :
      (n i : ℕ) (offsets f : BucketToOffset) (d : B.bytes.State) (rest : List ℕ)
      → i + n ≤ 65536
      → ((p : ℕ) → p < 65536 → offsets p < 2 ^ 64)
      → B.bytes.remaining d ≡ pairs_bytes n i offsets ++ rest
      → (f' : BucketToOffset) × (d' : B.bytes.State) × (read_pairs B n f d ≡ ok (f', d'))
        × ((p : ℕ) → p < i → f' p ≡ f p)
        × ((p : ℕ) → i ≤ p → p < i + n → f' p ≡ offsets p)
  unfolding read_pairs or_fail pairs_bytes
  read_pairs-bytes zero i offsets f d rest h small e =
      (f, d, refl, λ p _. refl, λ p lo hi. absurd (omega arith))
  read_pairs-bytes (suc n) i offsets f d rest h small e =
      let prefix : List ℕ = put_le 2 (i % 65536) in
      let tail : List ℕ = pairs_bytes n (i + 1) offsets ++ rest in
      let (d₁, q₁, r₁) =
        read_n B.bytes d 2 prefix (put_le 8 (offsets i) ++ tail) (sym (length-put_le 2 _))
          (e ∙ simp append_assoc) in
      let (d₂, q₂, r₂) = B.read_uint64_lem d₁ (offsets i) tail (small i (omega arith)) r₁ in
      let f₂ : BucketToOffset = update f (prefix_to_uint16 prefix) (offsets i) in
      let (f', d', q, before, here) =
        read_pairs-bytes n (i + 1) offsets f₂ d₂ rest (omega arith) small r₂ in
      (
        f',
        d',
        rw (q₁, q₂) q,
        λ p lo. before p (omega arith) ∙ ground (arith, prefix-back i (omega arith)),
        λ p lo hi. elim (ℕ_discrete p i) [
          | yes same ↦
              before p (omega arith) ∙ ground (arith, prefix-back i (omega arith), ap offsets same)
          | no ne ↦ here p (omega arith) (omega arith)
        ],
      )

  -- `readHeader` decodes a header that `createHeader` wrote to the same metadata, and to a table
  -- that agrees with the one written at every prefix.
  pub decode_header-body :
      (m : Meta) (offsets : BucketToOffset)
      → IsValid m
      → ((p : ℕ) → p < 65536 → offsets p < 2 ^ 64)
      → (f : BucketToOffset) × (decode_header B (header_body m offsets) ≡ ok (f, m))
        × ((p : ℕ) → p < 65536 → f p ≡ offsets p)
  unfolding decode_header or_fail header_body
  decode_header-body m offsets v small =
      let pairs : List ℕ = pairs_bytes num_prefixes 0 offsets in
      let rest₄ : List ℕ = put_le 8 num_prefixes ++ pairs in
      let rest₃ : List ℕ = encode m ++ rest₄ in
      let rest₂ : List ℕ = put_le 8 version ++ rest₃ in
      let (d₁, q₁, r₁) =
        read_n B.bytes (B.new_decoder (magic ++ rest₂)) 8 magic rest₂ refl
          (B.new_decoder_lem (magic ++ rest₂)) in
      let (d₂, q₂, r₂) = B.read_uint64_lem d₁ version rest₃ (omega arith) r₁ in
      let (d₃, q₃, r₃) =
        unmarshal-marshal B.bytes m new_meta (encode m) rest₄ d₂ (marshal_binary-encode m v) r₂ in
      let (d₄, q₄, r₄) = B.read_uint64_lem d₃ num_prefixes pairs (omega arith) r₃ in
      let (f, d₅, q₅, _, here) =
        read_pairs-bytes num_prefixes 0 offsets new_uint16_layout d₄ [] (omega arith) small
          (r₄ ∙ sym (append-nil pairs)) in
      (
        f,
        rw (q₁, bytes_equal_self magic, q₂, q₃, q₄, q₅),
        λ p h. here p (omega arith) (omega arith),
      )
