-- ===== src/CompactIndex/Format.antt =====
-- compactindexsized/compactindex.go: headers and entries as bytes and back.
use yellowstone_faithful.Prelude.{
  ℕ, ◌+◌, ◌%◌, ◌^◌, ◌<◌, ◌≤◌, ◌≡◌, ◌∙◌, refl, sym, ap, ap₂, ltb, leb, List, [], ◌∷◌, ◌++◌, length,
  get_elem?, ok, guard, bind_ok, guard-true, get_elem?-append, or_panic, map_err, arith,
  append_assoc, append-nil, length-append, some,
}
use yellowstone_faithful.Bytes.{put_le, get_le, bytes_equal, slice_checked}
use yellowstone_faithful.Bytes.Laws.{
  length-put_le, get_le-put_le, bytes_equal_self, slice_checked-inside,
}
use yellowstone_faithful.Meta.{Meta, new_meta, unmarshal_binary}
use yellowstone_faithful.Meta.{bytes as meta_bytes}
use yellowstone_faithful.Meta.RoundTrip.{
  encode, length-encode, marshal_binary-encode, unmarshal-marshal,
}
use yellowstone_faithful.Meta.RoundTrip.{IsValid as MetaIsValid}
use yellowstone_faithful.Borsh.{Borsh}
use yellowstone_faithful.CompactIndex.{
  Error, not_compactindex, invalid_header_length, value_size_not_set, num_buckets_not_set, meta,
  magic, version, Header, header_load, header_body, header_bytes,
}

-- A header that `Load` takes.
pub record IsValid (h : Header) : Type 0 where
  pub value_size_pos : 0 < h.value_size
  pub value_size_lt : h.value_size < 2 ^ 64
  pub num_buckets_pos : 0 < h.num_buckets
  pub num_buckets_lt : h.num_buckets < 2 ^ 32
  pub meta_valid : MetaIsValid h.meta_data

-- The bytes of the header.
abbrev pub encode_header : Header → List ℕ
encode_header h =
    let body : List ℕ = header_body h (encode h.meta_data) in
    magic ++ (put_le 4 (length body) ++ body)

pub length-header_body : (h : Header) (kvb : List ℕ) → length (header_body h kvb) ≡ 13 + length kvb
unfolding header_body
length-header_body h kvb = omega (
  arith,
  length-append (put_le 8 h.value_size) (put_le 4 h.num_buckets ++ (version ∷ kvb)),
  length-append (put_le 4 h.num_buckets) (version ∷ kvb),
  length-put_le 8 h.value_size,
  length-put_le 4 h.num_buckets,
)

pub body_lt :
    (h : Header) → MetaIsValid h.meta_data → length (header_body h (encode h.meta_data)) < 2 ^ 20
body_lt h v = omega (arith, length-header_body h (encode h.meta_data), length-encode h.meta_data v)

meta_bytes-encode : (m : Meta) → MetaIsValid m → meta_bytes {E = Error} m ≡ ok (encode m)
unfolding meta_bytes
meta_bytes-encode m v = rw (marshal_binary-encode m v, meta_bytes)

pub header_bytes-encode :
    (h : Header) → MetaIsValid h.meta_data → header_bytes h ≡ ok (encode_header h)
unfolding header_bytes
header_bytes-encode h v =
    bind_ok (meta_bytes h.meta_data) _ (meta_bytes-encode h.meta_data v)
    ∙ ap (λ n. ok (magic ++ (put_le 4 n ++ header_body h (encode h.meta_data))))
        {x = length (header_body h (encode h.meta_data)) % 2 ^ 32} (omega (arith, body_lt h v))

unmarshal_binary-encode :
    (B : Borsh) (m : Meta)
    → MetaIsValid m
    → unmarshal_binary B.bytes B.new_decoder new_meta (encode m) ≡ ok m
unfolding unmarshal_binary
unmarshal_binary-encode B m v =
    let (s', q, _) =
      unmarshal-marshal B.bytes m new_meta (encode m) [] (B.new_decoder (encode m))
        (marshal_binary-encode m v) (B.new_decoder_lem (encode m) ∙ sym (append-nil (encode m))) in
    rw q

-- The fields of a header at their places.
module _ (l vs nb kvb : List ℕ) (e₁ : length l ≡ 4) (e₂ : length vs ≡ 8) (e₃ : length nb ≡ 4) where
  laid_out : List ℕ
  laid_out = magic ++ (l ++ (vs ++ (nb ++ (version ∷ kvb))))

  length-laid_out : length laid_out ≡ 25 + length kvb
  unfolding laid_out
  length-laid_out = omega (
    arith,
    length-append magic (l ++ (vs ++ (nb ++ (version ∷ kvb)))),
    length-append l (vs ++ (nb ++ (version ∷ kvb))),
    length-append vs (nb ++ (version ∷ kvb)),
    length-append nb (version ∷ kvb),
  )

  at :
      (pre mid suf : List ℕ) (lo hi : ℕ)
      → laid_out ≡ pre ++ (mid ++ suf)
      → lo ≡ length pre
      → hi ≡ lo + length mid
      → slice_checked {E = Error} laid_out lo hi ≡ ok mid
  at pre mid suf lo hi e h₁ h₂ =
      ap (λ b. slice_checked b lo hi) e ∙ slice_checked-inside pre mid suf lo hi h₁ h₂

  length-front : length ((magic ++ l) ++ vs) ≡ 20
  length-front = omega (arith, length-append (magic ++ l) vs, length-append magic l)

  header_load-laid_out :
      (B : Borsh) (m : Meta)
      → 12 ≤ get_le l
      → get_le l ≤ length laid_out
      → length laid_out < 2 ^ 32
      → 0 < get_le vs
      → 0 < get_le nb
      → unmarshal_binary B.bytes B.new_decoder new_meta kvb ≡ ok m
      → header_load B laid_out
        ≡ ok (record { value_size = get_le vs; num_buckets = get_le nb; meta_data = m })
  unfolding header_load
  header_load-laid_out B m h₁ h₂ h₃ h₄ h₅ q =
      bind_ok (slice_checked laid_out 0 8) _
        (at [] magic (l ++ (vs ++ (nb ++ (version ∷ kvb)))) 0 8 (unfold laid_out in refl) refl refl)
      ∙ bind_ok (guard (bytes_equal magic magic) not_compactindex) _
          (guard-true _ not_compactindex (bytes_equal_self magic))
      ∙ bind_ok (slice_checked laid_out 8 12) _ (
          at magic l (vs ++ (nb ++ (version ∷ kvb))) 8 12 (unfold laid_out in refl) refl
            (omega arith))
      ∙ bind_ok (guard (leb 12 (get_le l)) invalid_header_length) _ {a = tt} (ground arith)
      ∙ bind_ok (guard (leb (get_le l) (length laid_out % 2 ^ 32)) invalid_header_length) _ {a = tt}
          (ground arith)
      ∙ bind_ok (slice_checked laid_out 12 20) _ (
          at (magic ++ l) vs (nb ++ (version ∷ kvb)) 12 20 (unfold laid_out in simp append_assoc)
            (omega (arith, length-append magic l)) (omega arith))
      ∙ bind_ok (slice_checked laid_out 20 24) _ (
          at ((magic ++ l) ++ vs) nb (version ∷ kvb) 20 24 (unfold laid_out in simp append_assoc)
            (omega (arith, length-front)) (omega arith))
      ∙ bind_ok (or_panic (get_elem? laid_out 24)) _ {a = version} (ap or_panic version_at)
      ∙ bind_ok (slice_checked laid_out 25 (length laid_out)) _ (
          at (((magic ++ l) ++ vs) ++ (nb ++ (version ∷ []))) kvb [] 25 (length laid_out)
            (unfold laid_out in simp (append_assoc, append-nil))
            (omega (
              arith,
              length-front,
              length-append ((magic ++ l) ++ vs) (nb ++ (version ∷ [])),
              length-append nb (version ∷ []),
            ))
            length-laid_out)
      ∙ bind_ok (map_err meta (unmarshal_binary B.bytes B.new_decoder new_meta kvb)) _
          (ap (map_err meta) q)
      ∙ bind_ok (guard (ltb 0 (get_le vs)) value_size_not_set) _ {a = tt} (ground arith)
      ∙ bind_ok (guard (ltb 0 (get_le nb)) num_buckets_not_set) _ {a = tt} (ground arith)
    where
      split : laid_out ≡ (((magic ++ l) ++ vs) ++ nb) ++ (version ∷ kvb)
      split = unfold laid_out in simp append_assoc

      version_at : get_elem? laid_out 24 ≡ some version
      version_at =
          ap (λ b. get_elem? b 24) split
          ∙ get_elem?-append (((magic ++ l) ++ vs) ++ nb) version kvb 24
              (omega (arith, length-front, length-append ((magic ++ l) ++ vs) nb))

-- `Load` reads back what `Bytes` wrote.
pub header_load-encode :
    (B : Borsh) (h : Header) → IsValid h → header_load B (encode_header h) ≡ ok h
unfolding header_body laid_out
header_load-encode B h v =
    let kvb : List ℕ = encode h.meta_data in
    let l : List ℕ = put_le 4 (length (header_body h kvb)) in
    let small = body_lt h v.meta_valid in
    let e₁ = length-put_le 4 (length (header_body h kvb)) in
    let e₂ = length-put_le 8 h.value_size in
    let e₃ = length-put_le 4 h.num_buckets in
    let whole = length-laid_out l (put_le 8 h.value_size) (put_le 4 h.num_buckets) kvb e₁ e₂ e₃ in
    let q₁ : get_le l ≡ length (header_body h kvb) = get_le-put_le 4 _ (omega arith) in
    let q₂ : get_le (put_le 8 h.value_size) ≡ h.value_size =
      get_le-put_le 8 _ (omega (arith, v.value_size_lt)) in
    let q₃ : get_le (put_le 4 h.num_buckets) ≡ h.num_buckets =
      get_le-put_le 4 _ (omega (arith, v.num_buckets_lt)) in
    let body = length-header_body h kvb in
    header_load-laid_out l (put_le 8 h.value_size) (put_le 4 h.num_buckets) kvb e₁ e₂ e₃ B
      h.meta_data (omega arith) (omega arith) (omega arith) (omega (arith, v.value_size_pos))
      (omega (arith, v.num_buckets_pos)) (unmarshal_binary-encode B h.meta_data v.meta_valid)
    ∙ ap₂ (λ a b. ok (record { value_size = a; num_buckets = b; meta_data = h.meta_data })) q₂ q₃

-- A header with a size and a number of buckets, both positive and of 64 and 32 bits, and with valid
-- metadata, is written by `Bytes`, and `Load` reads the same header back.
pub header_load-header_bytes :
    (B : Borsh) (h : Header)
    → IsValid h
    → (buf : List ℕ) × (header_bytes h ≡ ok buf) × (header_load B buf ≡ ok h)
header_load-header_bytes B h v =
    (encode_header h, header_bytes-encode h v.meta_valid, header_load-encode B h v)
