-- ===== src/Manifest/RoundTrip.antt =====
-- gsfa/manifest/manifest.go: what `Put` wrote, read by `NewManifest` and `ReadAll`.
use yellowstone_faithful.Prelude.{
  ℕ, zero, suc, ◌+◌, ◌-◌, ◌*◌, ◌%◌, ◌^◌, ◌<◌, ◌≤◌, ◌≡◌, ◌≢◌, ◌∙◌, refl, sym, ap, ap₂, Bool, true,
  false, leb, ◌==◌, if◌then◌else◌, List, [], ◌∷◌, ◌++◌, length, take, drop, Result, ok, err, ◌>>=◌,
  guard, bind_ok, map_err, arith, append_assoc, append-nil, length-append, take-append, drop-append,
  take_all, All, guard-true, if_true, if_false,
}
use yellowstone_faithful.Bytes.{put_le, get_le, bytes_equal}
use yellowstone_faithful.Bytes.Laws.{length-put_le, get_le-put_le, bytes_equal_self}
use yellowstone_faithful.Streams.{eof}
use yellowstone_faithful.Meta.Decoder.{ByteDecoder}
use yellowstone_faithful.Meta.{Meta, new_meta, unmarshal_with_decoder}
use yellowstone_faithful.Meta.{bytes as meta_bytes}
use yellowstone_faithful.Meta.RoundTrip.{encode, marshal_binary-encode, unmarshal-marshal}
use yellowstone_faithful.Meta.RoundTrip.{IsValid as MetaIsValid}
use yellowstone_faithful.Manifest.{
  Error, io, meta, not_manifest, corrupt, magic, version, Header, Manifest, read_full, write_header,
  read_meta, read_header, is_whole, new_manifest, content_length, put, read_loop, read_all,
}

-- Two numbers of 64 bits.
abbrev pub Fits : ℕ × ℕ → Type 0
Fits p = (p.0 < 2 ^ 64) × (p.1 < 2 ^ 64)

abbrev tuple_bytes : ℕ × ℕ → List ℕ
tuple_bytes p = put_le 8 p.0 ++ put_le 8 p.1

abbrev tuples : List (ℕ × ℕ) → List ℕ
tuples [] = []
tuples (p ∷ ps) = tuple_bytes p ++ tuples ps

abbrev pub put_all : Manifest → List (ℕ × ℕ) → Manifest
put_all m [] = m
put_all m (p ∷ ps) = put_all (put m p.0 p.1) ps

abbrev front : Meta → List ℕ
front m = magic ++ (put_le 8 version ++ encode m)

abbrev header_of : Meta → Header
header_of m = record { version = 4; meta_byte_size = length (encode m); meta_data = m }

length-tuple_bytes : (p : ℕ × ℕ) → length (tuple_bytes p) ≡ 16
length-tuple_bytes p =
    omega
      (arith, length-append (put_le 8 p.0) (put_le 8 p.1), length-put_le 8 p.0, length-put_le 8 p.1)

length-tuples : (ps : List (ℕ × ℕ)) → length (tuples ps) ≡ 16 * length ps
length-tuples [] = omega arith
length-tuples (p ∷ ps) =
    omega (arith, length-append (tuple_bytes p) (tuples ps), length-tuple_bytes p, length-tuples ps)

length-front : (m : Meta) → length (front m) ≡ 16 + length (encode m)
length-front m = omega (
  arith,
  length-append magic (put_le 8 version ++ encode m),
  length-append (put_le 8 version) (encode m),
  length-put_le 8 version,
)

put_all-file :
    (m : Manifest) (ps : List (ℕ × ℕ)) → put_all m ps ≡ record m { file = m.file ++ tuples ps }
unfolding put
put_all-file m [] = ap (λ f. record m { file = f }) (sym (append-nil m.file))
put_all-file m (p ∷ ps) =
    put_all-file (put m p.0 p.1) ps
    ∙ ap (λ f. record m { file = f }) (append_assoc m.file (tuple_bytes p) (tuples ps))

read_full-append :
    (n : ℕ) (xs rest : List ℕ) → n ≡ length xs → read_full n (xs ++ rest) ≡ ok (xs, rest)
unfolding read_full
read_full-append n xs rest h =
    ground (arith, length-append xs rest, take-append xs rest n h, drop-append xs rest n h)

read_full-eof : (n : ℕ) → 0 < n → read_full n [] ≡ err (io eof)
unfolding read_full
read_full-eof n h = ground arith

meta_bytes-encode : (m : Meta) → MetaIsValid m → meta_bytes {E = Error} m ≡ ok (encode m)
unfolding meta_bytes
meta_bytes-encode m v = rw (marshal_binary-encode m v, meta_bytes)

write_header-encode : (m : Meta) → MetaIsValid m → write_header m version ≡ ok (front m)
unfolding write_header
write_header-encode m v = bind_ok (meta_bytes m) _ (meta_bytes-encode m v)

read_loop-tuples :
    (f : ℕ) (ps : List (ℕ × ℕ)) → All Fits ps → length ps < f → read_loop f (tuples ps) ≡ ok ps
unfolding read_loop
read_loop-tuples zero ps fits h = absurd (omega arith)
read_loop-tuples (suc f) [] fits h = rw (read_full-eof 16 (omega arith), read_loop) refl
read_loop-tuples (suc f) (p ∷ ps) fits h =
    let a : List ℕ = put_le 8 p.0 in
    let b : List ℕ = put_le 8 p.1 in
    rw (read_full-append 16 (tuple_bytes p) (tuples ps) (sym (length-tuple_bytes p)), read_loop)
      (bind_ok (read_loop f (tuples ps)) _ (read_loop-tuples f ps fits.1 (omega arith))
        ∙ ap₂ (λ k v. ok ((k, v) ∷ ps))
            (ap get_le (take-append a b 8 (sym (length-put_le 8 p.0)))
              ∙ get_le-put_le 8 p.0 (omega (arith, fits.0.0)))
            (ap get_le (drop-append a b 8 (sym (length-put_le 8 p.0)))
              ∙ get_le-put_le 8 p.1 (omega (arith, fits.0.1))))

not_empty : (n : ℕ) → 0 < n → (n == 0) ≡ false
not_empty n h = ground arith

le→leb : (a b : ℕ) → a ≤ b → leb a b ≡ true
le→leb a b h = ground arith

is_whole-add : (off r : ℕ) → is_whole (off + r) off ≡ (r % 16 == 0)
unfolding is_whole
is_whole-add off r =
    if_true _ _ _ (le→leb off (off + r) (omega arith))
    ∙ ap (λ n. n % 16 == 0) {x = off + r - off} {y = r} (omega arith)

guard-if :
    (b : Bool) (man : Manifest)
    → (guard b corrupt >>= λ _. ok man) ≡ (if b then ok man else err corrupt)
guard-if true man = refl
guard-if false man = refl

not_whole : (n r k : ℕ) → k ≡ 16 * n + r → r % 16 ≢ 0 → (k % 16 == 0) ≡ false
not_whole n r k e h = ground arith

ok_injective : {x y : Manifest} → ◌≡◌ {A = Result Error Manifest} (ok x) (ok y) → x ≡ y
ok_injective q = cc

abbrev image : Meta → List (ℕ × ℕ) → Manifest
image m ps = record { file = front m ++ tuples ps; header = header_of m }

content_length-image : (m : Meta) (ps : List (ℕ × ℕ)) → content_length (image m ps) ≡ 16 * length ps
unfolding content_length
content_length-image m ps =
    omega (arith, length-append (front m) (tuples ps), length-front m, length-tuples ps)

read_all-image : (m : Meta) (ps : List (ℕ × ℕ)) → All Fits ps → read_all (image m ps) ≡ ok ps
unfolding read_all
read_all-image m ps fits =
    let off : ℕ = 16 + length (encode m) in
    let file : List ℕ = front m ++ tuples ps in
    let size = length-append (front m) (tuples ps) in
    let section : take (content_length (image m ps)) (drop off file) ≡ tuples ps =
      ap (take (content_length (image m ps)))
        (drop-append (front m) (tuples ps) off (sym (length-front m)))
      ∙ take_all (tuples ps) (content_length (image m ps))
          (omega (arith, content_length-image m ps, length-tuples ps)) in
    if_true _ _ _ (le→leb off (length file) (omega (arith, size, length-front m)))
    ∙ ap (λ l. read_loop (length l + 1) l) section
    ∙ read_loop-tuples (length (tuples ps) + 1) ps fits (omega (arith, length-tuples ps))

module _ (D : ByteDecoder) (new_reader : List ℕ → ByteDecoder.State D)
    (new_reader_lem : (bs : List ℕ) → ByteDecoder.remaining D (new_reader bs) ≡ bs) where
  read_header-front :
      (m : Meta) (rest : List ℕ)
      → MetaIsValid m
      → read_header D new_reader (front m ++ rest) ≡ ok (header_of m)
  unfolding read_header read_meta
  read_header-front m rest v =
      let ver : List ℕ = put_le 8 version in
      let after : List ℕ = encode m ++ rest in
      let (s, q, _) =
        unmarshal-marshal D m new_meta (encode m) rest (new_reader after)
          (marshal_binary-encode m v) (new_reader_lem after) in
      ap (λ l. read_header D new_reader (magic ++ l)) (append_assoc ver (encode m) rest)
      ∙ bind_ok (read_full 8 (magic ++ (ver ++ after))) _
          (read_full-append 8 magic (ver ++ after) refl)
      ∙ bind_ok (guard (bytes_equal magic magic) not_manifest) _
          (guard-true _ not_manifest (bytes_equal_self magic))
      ∙ bind_ok (read_full 8 (ver ++ after)) _
          (read_full-append 8 ver after (sym (length-put_le 8 version)))
      ∙ ap (λ n. read_meta D new_reader n after) (get_le-put_le 8 version (omega arith))
      ∙ bind_ok (map_err meta (unmarshal_with_decoder D new_meta (new_reader after))) _
          (ap (map_err meta) q)
      ∙ bind_ok (meta_bytes m) _ (meta_bytes-encode m v)

  -- A file with a header and any bytes behind it.
  new_manifest-front :
      (m other : Meta) (rest : List ℕ)
      → MetaIsValid m
      → new_manifest D new_reader (front m ++ rest) other ≡ (
          if length rest % 16 == 0
          then ok (record { file = front m ++ rest; header = header_of m })
          else err corrupt)
  unfolding new_manifest
  new_manifest-front m other rest v =
      let file : List ℕ = front m ++ rest in
      let off : ℕ = 16 + length (encode m) in
      let size : length file ≡ off + length rest =
        omega (arith, length-append (front m) rest, length-front m) in
      let man : Manifest = record { file = file; header = header_of m } in
      if_false _ _ _ (not_empty (length file) (omega (arith, size)))
      ∙ bind_ok (read_header D new_reader file) _ (read_header-front m rest v)
      ∙ ap (λ b. guard b corrupt >>= λ _. ok man)
          (ap (λ n. is_whole n off) size ∙ is_whole-add off (length rest))
      ∙ guard-if (length rest % 16 == 0) man

  new_manifest-empty :
      (m : Meta)
      → MetaIsValid m
      → new_manifest D new_reader [] m ≡ ok (record { file = front m; header = header_of m })
  unfolding new_manifest
  new_manifest-empty m v =
      bind_ok (write_header m version) _ (write_header-encode m v)
      ∙ bind_ok (meta_bytes m) _ (meta_bytes-encode m v)

  put_all-image :
      (m : Meta) (ps : List (ℕ × ℕ))
      → put_all (record { file = front m; header = header_of m }) ps ≡ image m ps
  put_all-image m ps = put_all-file (record { file = front m; header = header_of m }) ps

  whole_tuples : (ps : List (ℕ × ℕ)) → (length (tuples ps) % 16 == 0) ≡ true
  whole_tuples ps = let n = length-tuples ps in grind arith

  -- A manifest made in an empty file under metadata within its limits, after any number of `Put`s of
  -- numbers of 64 bits: `ReadAll` gives the pairs in the order of the `Put`s, the content has 16 bytes
  -- for each, and `NewManifest` on the file opens the same manifest again, with the metadata it was
  -- made with, whatever metadata it is given now.
  pub read_all-put_all :
      (m other : Meta) (ps : List (ℕ × ℕ))
      → MetaIsValid m
      → All Fits ps
      → (man : Manifest) × (new_manifest D new_reader [] m ≡ ok man)
        × (Header.meta_data (Manifest.header man) ≡ m)
        × (read_all (put_all man ps) ≡ ok ps)
        × (content_length (put_all man ps) ≡ 16 * length ps)
        × (new_manifest D new_reader (Manifest.file (put_all man ps)) other ≡ ok (put_all man ps))
  read_all-put_all m other ps v fits =
      let man : Manifest = record { file = front m; header = header_of m } in
      let e : put_all man ps ≡ image m ps = put_all-image m ps in
      (
        man,
        new_manifest-empty m v,
        refl,
        ap read_all e ∙ read_all-image m ps fits,
        ap content_length e ∙ content_length-image m ps,
        ap (λ k. new_manifest D new_reader (Manifest.file k) other) e
            ∙ new_manifest-front m other (tuples ps) v
            ∙ if_true _ _ _ (whole_tuples ps)
            ∙ ap ok (sym e),
      )

  -- Where bytes stand behind the pairs that are no whole number of pairs, such as the part of a last
  -- `Put` that reached the disk, `NewManifest` reports a corrupt manifest.
  pub new_manifest-torn :
      (m other : Meta) (ps : List (ℕ × ℕ)) (extra : List ℕ) {man : Manifest}
      → MetaIsValid m
      → new_manifest D new_reader [] m ≡ ok man
      → length extra % 16 ≢ 0
      → new_manifest D new_reader (Manifest.file (put_all man ps) ++ extra) other ≡ err corrupt
  new_manifest-torn m other ps extra {man} v made torn =
      let start : Manifest = record { file = front m; header = header_of m } in
      let same : start ≡ man = ok_injective (sym (new_manifest-empty m v) ∙ made) in
      let rest : List ℕ = tuples ps ++ extra in
      let size : length rest ≡ 16 * length ps + length extra =
        omega (arith, length-append (tuples ps) extra, length-tuples ps) in
      ap (λ k. new_manifest D new_reader (Manifest.file (put_all k ps) ++ extra) other) (sym same)
      ∙ ap (λ k. new_manifest D new_reader (Manifest.file k ++ extra) other) (put_all-image m ps)
      ∙ ap (λ f. new_manifest D new_reader f other) (append_assoc (front m) (tuples ps) extra)
      ∙ new_manifest-front m other rest v
      ∙ if_false _ _ _ (not_whole (length ps) (length extra) (length rest) size torn)
