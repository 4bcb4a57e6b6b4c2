-- ===== src/Indexes/Slices.antt =====
-- indexes/offset-and-size.go: `OffsetAndSizeSliceFromBytes` on the bytes of several values.
use yellowstone_faithful.Prelude.{
  ℕ, zero, suc, ◌+◌, ◌*◌, ◌/◌, ◌%◌, ◌^◌, ◌<◌, ◌≡◌, ◌↔◌, ◌∙◌, refl, sym, ap, ap₂, subst, ◌==◌, List,
  [], ◌∷◌, ◌++◌, length, take, drop, All, Result, ok, guard, bind_ok, bind_inv, arith, append_assoc,
  length-append, length-take, length-drop, take-append-drop, All-append_left, All-append_right,
}
use yellowstone_faithful.Bytes.{put_le, get_le, IsByte, AreBytes, slice_checked}
use yellowstone_faithful.Bytes.Laws.{length-put_le, get_le-put_le, slice_checked-inside}
use yellowstone_faithful.Indexes.{
  Error, OffsetAndSize, invalid_length, from_bytes, read_items, slice_from_bytes,
}
use yellowstone_faithful.Indexes.Values.{from_bytes-parts, put_le_back, get_le_lt}

-- Both parts fit their bytes.
abbrev pub Fits : OffsetAndSize → Type 0
Fits oas = (oas.offset < 2 ^ 48) × (oas.size < 2 ^ 24)

abbrev pub encode : OffsetAndSize → List ℕ
encode oas = put_le 6 oas.offset ++ put_le 3 oas.size

abbrev pub encode_all : List OffsetAndSize → List ℕ
encode_all [] = []
encode_all (oas ∷ rest) = encode oas ++ encode_all rest

length-encode : (oas : OffsetAndSize) → length (encode oas) ≡ 9
length-encode oas = omega (
  arith,
  length-append (put_le 6 oas.offset) (put_le 3 oas.size),
  length-put_le 6 oas.offset,
  length-put_le 3 oas.size,
)

length-encode_all : (items : List OffsetAndSize) → length (encode_all items) ≡ length items * 9
length-encode_all [] = refl
length-encode_all (oas ∷ rest) =
    omega (
      arith,
      length-append (encode oas) (encode_all rest),
      length-encode oas,
      length-encode_all rest,
    )

from_bytes-encode : (oas : OffsetAndSize) → Fits oas → from_bytes (encode oas) ≡ ok oas
from_bytes-encode oas (h₁, h₂) =
    from_bytes-parts (put_le 6 oas.offset) (put_le 3 oas.size) (length-put_le 6 oas.offset)
      (length-put_le 3 oas.size)
    ∙ ap₂ (λ o s. ok (record { offset = o; size = s })) (get_le-put_le 6 oas.offset h₁)
        (get_le-put_le 3 oas.size h₂)

read_items-encode_all :
    (items : List OffsetAndSize) (i : ℕ) (pre : List ℕ)
    → length pre ≡ i * 9
    → All Fits items
    → read_items (length items) i (pre ++ encode_all items) ≡ ok items
unfolding read_items
read_items-encode_all [] i pre h f = refl
read_items-encode_all (oas ∷ rest) i pre h f =
    let buf : List ℕ = pre ++ (encode oas ++ encode_all rest) in
    bind_ok (slice_checked buf (i * 9) ((i + 1) * 9)) _ (
      slice_checked-inside pre (encode oas) (encode_all rest) (i * 9) ((i + 1) * 9) (sym h)
        (omega (arith, length-encode oas)))
    ∙ bind_ok (from_bytes (encode oas)) _ (from_bytes-encode oas f.0)
    ∙ bind_ok (read_items (length rest) (i + 1) buf) _ (
        ap (read_items (length rest) (i + 1))
          (sym (append_assoc pre (encode oas) (encode_all rest)))
        ∙ read_items-encode_all rest (i + 1) (pre ++ encode oas)
            (omega (arith, length-append pre (encode oas), length-encode oas)) f.1)

slice_from_bytes-encode_all :
    (items : List OffsetAndSize) → All Fits items → slice_from_bytes (encode_all items) ≡ ok items
unfolding slice_from_bytes
slice_from_bytes-encode_all items f =
    bind_ok (guard (length (encode_all items) % 9 == 0) invalid_length) _ {a = tt} whole
    ∙ ap (λ n. read_items n 0 (encode_all items)) {y = length items}
        (omega (arith, length-encode_all items))
    ∙ read_items-encode_all items 0 [] refl f
  where
    whole : guard (length (encode_all items) % 9 == 0) invalid_length ≡ ok tt
    whole = ground (arith, length-encode_all items)

-- Nine bytes are a value that fits.
value_of :
    (b : List ℕ) → AreBytes b → length b ≡ 9 → (oas : OffsetAndSize) × Fits oas × (b ≡ encode oas)
value_of b bs nine =
    let split = take-append-drop 6 b in
    let both : AreBytes (take 6 b ++ drop 6 b) = subst AreBytes (sym split) bs in
    let bs₁ = All-append_left IsByte (take 6 b) (drop 6 b) both in
    let bs₂ = All-append_right IsByte (take 6 b) (drop 6 b) both in
    let e₁ : length (take 6 b) ≡ 6 = omega (arith, length-take 6 b) in
    let e₂ : length (drop 6 b) ≡ 3 = omega (arith, length-drop 6 b) in
    (
      record { offset = get_le (take 6 b); size = get_le (drop 6 b) },
      (get_le_lt (take 6 b) 6 bs₁ e₁, get_le_lt (drop 6 b) 3 bs₂ e₂),
      sym split
          ∙ ap₂ ◌++◌ (sym (put_le_back (take 6 b) 6 bs₁ e₁))
              (sym (put_le_back (drop 6 b) 3 bs₂ e₂)),
    )

values_of :
    (n : ℕ) (b : List ℕ)
    → AreBytes b
    → length b ≡ n * 9
    → (items : List OffsetAndSize) × All Fits items × (b ≡ encode_all items)
values_of zero [] bs h = ([], tt, refl)
values_of zero (x ∷ xs) bs h = absurd (omega arith)
values_of (suc n) b bs h =
    let split = take-append-drop 9 b in
    let both : AreBytes (take 9 b ++ drop 9 b) = subst AreBytes (sym split) bs in
    let (oas, f, e) =
      value_of (take 9 b) (All-append_left IsByte (take 9 b) (drop 9 b) both)
        (omega (arith, length-take 9 b)) in
    let (rest, g, e') =
      values_of n (drop 9 b) (All-append_right IsByte (take 9 b) (drop 9 b) both)
        (omega (arith, length-drop 9 b)) in
    (oas ∷ rest, (f, g), sym split ∙ ap₂ ◌++◌ e e')

slice_from_bytes-length :
    (b : List ℕ) {items : List OffsetAndSize} → slice_from_bytes b ≡ ok items → length b % 9 ≡ 0
unfolding slice_from_bytes
slice_from_bytes-length b e =
    let (_, g, _) = bind_inv (guard (length b % 9 == 0) invalid_length) _ e in
    whole (length b % 9) g
  where
    whole : (n : ℕ) {u : Unit {0}} → guard (n == 0) invalid_length ≡ ok u → n ≡ 0
    whole n g = ground arith

-- `OffsetAndSizeSliceFromBytes` reads some values from a byte slice exactly if all of them fit
-- their bytes, and the slice is what they are written to, one behind the other.
pub slice_from_bytes_iff :
    (b : List ℕ) (items : List OffsetAndSize)
    → AreBytes b
    → (slice_from_bytes b ≡ ok items) ↔ (All Fits items × (b ≡ encode_all items))
slice_from_bytes_iff b items bs = (
  λ e.
      let nines : length b ≡ length b / 9 * 9 = omega (arith, slice_from_bytes-length b e) in
      let (found, f, q) = values_of (length b / 9) b bs nines in
      let same =
        ok_injective (sym e ∙ ap slice_from_bytes q ∙ slice_from_bytes-encode_all found f) in
      (subst (All Fits) (sym same) f, q ∙ ap encode_all (sym same)),
  λ (f, q). ap slice_from_bytes q ∙ slice_from_bytes-encode_all items f,
)
  where
    ok_injective :
        {x y : List OffsetAndSize}
        → ◌≡◌ {A = Result Error (List OffsetAndSize)} (ok x) (ok y)
        → x ≡ y
    ok_injective q = cc
