-- ===== src/Bucketteer/SealedFile.antt =====
-- bucketteer/write.go: the file that `Seal` leaves behind.
use yellowstone_faithful.Prelude.{
  ℕ, ◌+◌, ◌-◌, ◌*◌, ◌%◌, ◌^◌, ◌≤◌, ◌<◌, ◌≡◌, refl, sym, ap, ap₂, bind_ok, ◌∙◌, List, [], ◌∷◌, ◌++◌,
  length, drop, ok, arith, length-append, drop-append,
}
use yellowstone_faithful.Bytes.{put_le}
use yellowstone_faithful.Bytes.Laws.{length-put_le}
use yellowstone_faithful.Meta.{Meta}
use yellowstone_faithful.Meta.RoundTrip.{IsValid, encode, length-encode}
use yellowstone_faithful.Borsh.{Borsh}
use yellowstone_faithful.Bucketteer.{num_prefixes, magic, version}
use yellowstone_faithful.Bucketteer.Writer.{
  Writer, Sealing, bucket_bytes, create_header, seal_buckets, seal_to, seal, overwrite_start,
}
use yellowstone_faithful.Bucketteer.Buckets.{
  laid, bucket_limit, Aligned, Sealed, seal_buckets-Sealed,
}
use yellowstone_faithful.Bucketteer.Header.{header_body, length-header_body, create_header-bytes}

cons_injective : (x y : ℕ) (xs ys : List ℕ) → x ∷ xs ≡ y ∷ ys → xs ≡ ys
cons_injective x y xs ys e = cc

-- What follows the longer of two fronts of one list.
split_tail :
    (short tail front rest : List ℕ)
    → short ++ tail ≡ front ++ rest
    → length short ≤ length front
    → (x : List ℕ) × (tail ≡ x ++ rest) × (length front ≡ length short + length x)
split_tail [] tail front rest e h = (front, e, omega arith)
split_tail (a ∷ short) tail [] rest e h = absurd (omega arith)
split_tail (a ∷ short) tail (b ∷ front) rest e h =
    let (x, q, n) = split_tail short tail front rest (cons_injective a b _ _ e) (omega arith) in
    (x, q, omega arith)

-- The file that `Seal` writes, in its parts: the header with its length, and the buckets.
pub record File (B : Borsh) (w : Writer) (m : Meta) : Type 0 where
  pub sealed : Sealing
  pub tail : List ℕ
  pub header : List ℕ
  pub seals : seal B w m ≡ ok (length header + length tail, header ++ tail)
  pub header_parts :
      header
      ≡ put_le 4 (length (header_body m sealed.prefix_to_offset))
        ++ header_body m sealed.prefix_to_offset
  pub placed :
      (p : ℕ)
      → p < 65536
      → (x : List ℕ) × (back : List ℕ) × (tail
          ≡ x ++ (bucket_bytes (laid (w.prefix_to_hashes p)) ++ back))
        × (length x ≡ sealed.prefix_to_offset p)
  pub bounded : (p : ℕ) → p < 65536 → sealed.prefix_to_offset p ≤ p * (4 + 2 ^ 32)

module _ (B : Borsh) (w : Writer) (m : Meta) (v : IsValid m)
    (small : (p : ℕ) → length (w.prefix_to_hashes p) < bucket_limit) where
  draft : List ℕ
  draft = put_le 4 0 ++ header_body m (λ prefix. 0)

  length-draft : length draft ≡ 4 + (24 + length (encode m) + num_prefixes * 10)
  unfolding draft
  length-draft = omega (
    arith,
    length-append (put_le 4 0) (header_body m (λ prefix. 0)),
    length-put_le 4 0,
    length-header_body m (λ prefix. 0),
  )

  started : Sealing
  started = record {
    out = draft;
    prefix_to_offset = λ prefix. 0;
    previous_offset = 0;
    total_written = length draft;
  }

  started-Aligned : Aligned w.prefix_to_hashes small (length draft) 0 started
  unfolding started
  started-Aligned = omega arith

  module _ (after : Sealing)
      (s : Sealed w.prefix_to_hashes small (length draft) 0 65536 started after)
      (ran : seal_buckets num_prefixes 0 w.prefix_to_hashes started ≡ ok after) where
    body : List ℕ
    body = header_body m after.prefix_to_offset

    header : List ℕ
    unfolding body
    header = put_le 4 (length body) ++ body

    length-header : length header ≡ length draft
    unfolding header body
    length-header = omega (
      arith,
      length-append (put_le 4 (length body)) body,
      length-put_le 4 (length body),
      length-header_body m after.prefix_to_offset,
      length-draft,
    )

    body_size : (length draft - 4) % 2 ^ 32 ≡ length body
    unfolding body
    body_size =
        omega (arith, length-header_body m after.prefix_to_offset, length-draft, length-encode m v)

    overwritten : overwrite_start after.out header ≡ header ++ s.tail
    unfolding overwrite_start started
    overwritten =
        ap (◌++◌ header) (
          ap (drop (length header)) s.grown
          ∙ drop-append draft s.tail (length header) length-header)

    total : after.total_written ≡ length header + length s.tail
    unfolding started
    total =
        s.aligned.total
        ∙ ap length s.grown
        ∙ length-append draft s.tail
        ∙ ap (λ n. n + length s.tail) (sym length-header)

    updated :
        create_header B magic version ((length draft - 4) % 2 ^ 32) m after.prefix_to_offset
        ≡ ok header
    unfolding header body
    updated =
        ap (λ n. create_header B magic version n m after.prefix_to_offset) body_size
        ∙ create_header-bytes B (length body) m after.prefix_to_offset v

    seal_to-ok : seal_to B w.prefix_to_hashes m ≡ ok (header, after.total_written, after.out)
    unfolding seal_to started draft
    seal_to-ok =
        bind_ok _ _ (create_header-bytes B 0 m (λ prefix. 0) v)
        ∙ bind_ok _ _ ran
        ∙ bind_ok _ _ updated

    seals : seal B w m ≡ ok (length header + length s.tail, header ++ s.tail)
    unfolding seal
    seals = bind_ok _ _ seal_to-ok ∙ ap₂ (λ n c. ok (n, c)) total overwritten

    sealed-File : File B w m
    unfolding header body started
    sealed-File = record {
      sealed = after;
      tail = s.tail;
      header = header;
      seals = seals;
      header_parts = refl;
      placed = λ p h.
          let (front, back, q, n) = s.placed p (omega arith) h in
          let (x, q', n') =
            split_tail draft s.tail front (bucket_bytes (laid (w.prefix_to_hashes p)) ++ back)
              (sym s.grown ∙ q) (omega arith) in
          (x, back, q', omega arith);
      bounded = λ p h. s.bounded p (omega arith) h;
    }

  pub seal-File : File B w m
  seal-File =
      let (after, q, s) =
        seal_buckets-Sealed w.prefix_to_hashes small (length draft) 65536 0 65536 started
          started-Aligned refl (omega arith) in
      sealed-File after s q
