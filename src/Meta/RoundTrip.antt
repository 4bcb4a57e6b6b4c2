-- ===== src/Meta/RoundTrip.antt =====
-- indexmeta/indexmeta.go: `MarshalBinary` and `UnmarshalWithDecoder` against each other.
use yellowstone_faithful.Prelude.{
  ℕ, ◌+◌, ◌*◌, ◌≤◌, ◌≡◌, ◌↔◌, sym, ap, ◌∙◌, List, [], ◌∷◌, ◌++◌, length, Result, ok, guard,
  bind_inv, leb, All, arith, append_assoc, append-nil, length-append,
}
use yellowstone_faithful.Meta.{
  Meta, Kv, MetaError, too_many_kvs, marshal_kv, marshal_loop, marshal_binary, read_prefixed,
  read_kvs, unmarshal_with_decoder,
}
use yellowstone_faithful.Meta.Decoder.{ByteDecoder, read_full_lem}

-- The pair fits its two length bytes.
abbrev pub Fits : Kv → Type 0
Fits kv = (length kv.key ≤ 255) × (length kv.value ≤ 255)

-- The metadata fits the format.
abbrev pub IsValid : Meta → Type 0
IsValid m = (length m.key_vals ≤ 255) × All Fits m.key_vals

abbrev encode_kv : Kv → List ℕ
encode_kv kv = length kv.key ∷ (kv.key ++ (length kv.value ∷ kv.value))

abbrev encode_kvs : List Kv → List ℕ
encode_kvs [] = []
encode_kvs (kv ∷ kvs) = encode_kv kv ++ encode_kvs kvs

-- The format, written down as one expression.
abbrev pub encode : Meta → List ℕ
encode m = length m.key_vals ∷ encode_kvs m.key_vals

length-encode_kvs : (kvs : List Kv) → All Fits kvs → length (encode_kvs kvs) ≤ length kvs * 512
length-encode_kvs [] h = omega arith
length-encode_kvs (kv ∷ kvs) h = omega (
  arith,
  length-append (encode_kv kv) (encode_kvs kvs),
  length-append kv.key (length kv.value ∷ kv.value),
  length-encode_kvs kvs h.1,
)

pub length-encode : (m : Meta) → IsValid m → length (encode m) ≤ 1 + 255 * 512
length-encode m h = omega (arith, length-encode_kvs m.key_vals h.1)

marshal_kv-ok : (kv : Kv) (buf : List ℕ) → Fits kv → marshal_kv kv buf ≡ ok (buf ++ encode_kv kv)
unfolding marshal_kv
marshal_kv-ok kv buf h = ground arith

marshal_kv-Fits : (kv : Kv) (buf : List ℕ) {b : List ℕ} → marshal_kv kv buf ≡ ok b → Fits kv
unfolding marshal_kv
marshal_kv-Fits kv buf e = ground arith

marshal_loop-ok :
    (kvs : List Kv) (buf : List ℕ)
    → All Fits kvs
    → marshal_loop kvs buf ≡ ok (buf ++ encode_kvs kvs)
unfolding marshal_loop
marshal_loop-ok [] buf h = ap ok (sym (append-nil buf))
marshal_loop-ok (kv ∷ kvs) buf h = rw (marshal_kv-ok kv buf h.0) (
    marshal_loop-ok kvs (buf ++ encode_kv kv) h.1
    ∙ ap ok (append_assoc buf (encode_kv kv) (encode_kvs kvs)))

marshal_loop-Fits :
    (kvs : List Kv) (buf : List ℕ) {b : List ℕ} → marshal_loop kvs buf ≡ ok b → All Fits kvs
unfolding marshal_loop
marshal_loop-Fits [] buf e = tt
marshal_loop-Fits (kv ∷ kvs) buf e =
    let (buf', q, e') = bind_inv (marshal_kv kv buf) (marshal_loop kvs) e in
    (marshal_kv-Fits kv buf q, marshal_loop-Fits kvs buf' e')

pub marshal_binary-encode : (m : Meta) → IsValid m → marshal_binary m ≡ ok (encode m)
unfolding marshal_binary
marshal_binary-encode m h = ground (arith, marshal_loop-ok m.key_vals (length m.key_vals ∷ []) h.1)

marshal_binary-IsValid : (m : Meta) {b : List ℕ} → marshal_binary m ≡ ok b → IsValid m
unfolding marshal_binary
marshal_binary-IsValid m {b} e =
    let (_, g, e') = bind_inv (guard (leb (length m.key_vals) 255) too_many_kvs) _ e in
    (guard_le _ g, marshal_loop-Fits m.key_vals (length m.key_vals ∷ []) e')
  where
    guard_le : (n : ℕ) {u : Unit {0}} → guard (leb n 255) too_many_kvs ≡ ok u → n ≤ 255
    guard_le n h = ground arith

-- `MarshalBinary` succeeds exactly on metadata within the limits of the format, and what it
-- returns then is the count of the pairs and, for each, both parts behind their lengths.
pub marshal_binary_iff :
    (m : Meta) (b : List ℕ) → (marshal_binary m ≡ ok b) ↔ (IsValid m × (b ≡ encode m))
marshal_binary_iff m b = (
  λ e. let v = marshal_binary-IsValid m e in (v, ok_injective (sym e ∙ marshal_binary-encode m v)),
  λ h. rw h.1 (marshal_binary-encode m h.0),
)
  where
    ok_injective : {x y : List ℕ} → ◌≡◌ {A = Result MetaError (List ℕ)} (ok x) (ok y) → x ≡ y
    ok_injective q = cc

module _ (D : ByteDecoder) where
  open D use {State, remaining, read_byte, read_byte_lem}

  read_prefixed_lem :
      (s : State) (xs rest : List ℕ)
      → remaining s ≡ length xs ∷ (xs ++ rest)
      → (s' : State) × (read_prefixed D s ≡ ok (xs, s')) × (remaining s' ≡ rest)
  unfolding read_prefixed
  read_prefixed_lem s xs rest e =
      let (s₁, r₁, q₁) = read_byte_lem s (length xs) (xs ++ rest) e in
      let (s₂, r₂, q₂) = read_full_lem D s₁ xs rest q₁ in (s₂, rw (r₁, r₂), q₂)

  read_kvs_lem :
      (kvs before : List Kv) (s : State) (rest : List ℕ)
      → remaining s ≡ encode_kvs kvs ++ rest
      → (s' : State) × (read_kvs D (length kvs) before s
          ≡ ok (record { key_vals = before ++ kvs }, s'))
        × (remaining s' ≡ rest)
  unfolding read_kvs
  read_kvs_lem [] before s rest e = (s, rw append-nil, e)
  read_kvs_lem (kv ∷ kvs) before s rest e =
      let tail : List ℕ = encode_kvs kvs ++ rest in
      let value : List ℕ = length kv.value ∷ (kv.value ++ tail) in
      let (s₁, r₁, q₁) = read_prefixed_lem s kv.key value (e ∙ regroup) in
      let (s₂, r₂, q₂) = read_prefixed_lem s₁ kv.value tail q₁ in
      let (s₃, r₃, q₃) = read_kvs_lem kvs (before ++ (kv ∷ [])) s₂ rest q₂ in
      (
        s₃,
        rw (r₁, r₂)
            (r₃ ∙ ap (λ l. ok (record { key_vals = l }, s₃)) (append_assoc before (kv ∷ []) kvs)),
        q₃,
      )
    where
      regroup :
          encode_kvs (kv ∷ kvs) ++ rest
          ≡ length kv.key ∷ (kv.key ++ (length kv.value ∷ (kv.value ++ (encode_kvs kvs ++ rest))))
      regroup = simp append_assoc

  -- What `MarshalBinary` wrote is read back by `UnmarshalWithDecoder`, from any decoder that holds
  -- it with anything behind; the pairs are appended to those already there, and the decoder is
  -- left just behind them.
  pub unmarshal-marshal :
      (m before : Meta) (b rest : List ℕ) (s : State)
      → marshal_binary m ≡ ok b
      → remaining s ≡ b ++ rest
      → (s' : State) × (unmarshal_with_decoder D before s
          ≡ ok (record { key_vals = before.key_vals ++ m.key_vals }, s'))
        × (remaining s' ≡ rest)
  unfolding unmarshal_with_decoder
  unmarshal-marshal m before b rest s h e =
      let (v, q) = (marshal_binary_iff m b).0 h in
      let (s₁, r₁, q₁) =
        read_byte_lem s (length m.key_vals) (encode_kvs m.key_vals ++ rest)
          (e ∙ ap (λ l. l ++ rest) q) in
      let (s₂, r₂, q₂) = read_kvs_lem m.key_vals before.key_vals s₁ rest q₁ in
      (s₂, rw r₁ (ground (arith, r₂)), q₂)
