-- ===== src/LinkedLog/Entries.antt =====
-- gsfa/linkedlog/offset-size-slot.go: entries as bytes and back.
use yellowstone_faithful.Prelude.{
  ℕ, zero, suc, ◌*◌, ◌/◌, ◌^◌, ◌<◌, ◌≤◌, ◌≡◌, ◌∙◌, refl, sym, ap, some, List, [], ◌∷◌, ◌++◌, length,
  All, Result, ok, err, guard, bind_ok, arith, append_assoc, append-nil, length-append, dec_lt, leb,
  ◌>>=◌,
}
use yellowstone_faithful.LinkedLog.{
  Error, OffsetAndSizeAndSlot, append_uvarint_in, append_uvarint, uvarint_in, uvarint, bytes,
  parsed, from_bytes, read_uvarint, from_reader, loop_step, read_loop, slice_from_bytes,
  invalid_length, bad_offset, bad_size, bad_slot, bad_uvarint, eof,
}

-- With `n + 1` bytes left the number is below `2 * 128 ^ n`.
uvarint_in-append :
    (n x : ℕ) (rest : List ℕ)
    → x < 2 * 128 ^ n
    → uvarint_in (suc n) (append_uvarint_in (suc n) x ++ rest) ≡ some (x, rest)
unfolding uvarint_in append_uvarint_in
uvarint_in-append zero x rest h = ground arith
uvarint_in-append (suc n) x rest h = elim (dec_lt x 128) [
  | yes small ↦ ground arith
  | no large ↦ ground (arith, uvarint_in-append n (x / 128) rest (omega arith))
]

-- A number of 64 bits in front of other bytes.
abbrev u : ℕ → List ℕ
u x = append_uvarint_in 10 x

uvarint-u : (x : ℕ) (rest : List ℕ) → x < 2 ^ 64 → uvarint (u x ++ rest) ≡ some (x, rest)
unfolding uvarint
uvarint-u x rest h = uvarint_in-append 9 x rest h

length-append_uvarint_in : (n x : ℕ) → length (append_uvarint_in n x) ≤ n
unfolding append_uvarint_in
length-append_uvarint_in zero x = omega arith
length-append_uvarint_in (suc n) x = ground (arith, length-append_uvarint_in n (x / 128))

-- The numbers of the entry have 64 bits.
abbrev pub Fits : OffsetAndSizeAndSlot → Type 0
Fits oas = (oas.offset < 2 ^ 64) × (oas.size < 2 ^ 64) × (oas.slot < 2 ^ 64)

bytes_lem :
    (oas : OffsetAndSizeAndSlot) (rest : List ℕ)
    → bytes oas ++ rest ≡ u oas.offset ++ (u oas.size ++ (u oas.slot ++ rest))
unfolding bytes append_uvarint
bytes_lem oas rest = simp append_assoc

length-bytes : (oas : OffsetAndSizeAndSlot) → length (bytes oas) ≤ 30
unfolding bytes append_uvarint
length-bytes oas = omega (
  arith,
  length-append (u oas.offset ++ u oas.size) (u oas.slot),
  length-append (u oas.offset) (u oas.size),
  length-append_uvarint_in 10 oas.offset,
  length-append_uvarint_in 10 oas.size,
  length-append_uvarint_in 10 oas.slot,
)

-- `FromBytes` reads an entry of numbers of 64 bits back from what `Bytes` wrote.
pub from_bytes-bytes : (oas : OffsetAndSizeAndSlot) → Fits oas → from_bytes (bytes oas) ≡ ok oas
unfolding from_bytes parsed
from_bytes-bytes oas (h₁, h₂, h₃) =
    bind_ok (guard (leb (length (bytes oas)) 30) invalid_length) _ {a = tt} short
    ∙ bind_ok (parsed bad_offset (uvarint (bytes oas))) _ (
        ap (λ b. parsed bad_offset (uvarint b)) (sym (append-nil (bytes oas)) ∙ bytes_lem oas [])
        ∙ ap (parsed bad_offset) (uvarint-u oas.offset (u oas.size ++ (u oas.slot ++ [])) h₁))
    ∙ bind_ok (parsed bad_size (uvarint (u oas.size ++ (u oas.slot ++ [])))) _
        (ap (parsed bad_size) (uvarint-u oas.size (u oas.slot ++ []) h₂))
    ∙ bind_ok (parsed bad_slot (uvarint (u oas.slot ++ []))) _
        (ap (parsed bad_slot) (uvarint-u oas.slot [] h₃))
  where
    short : guard (leb (length (bytes oas)) 30) invalid_length ≡ ok tt
    short = ground (arith, length-bytes oas)

read_uvarint-some : (b : List ℕ) {p : ℕ × List ℕ} → uvarint b ≡ some p → read_uvarint b ≡ ok p
unfolding read_uvarint parsed uvarint uvarint_in
read_uvarint-some [] e = cc
read_uvarint-some (x ∷ xs) e = ap (parsed bad_uvarint) e

read_uvarint-u : (x : ℕ) (rest : List ℕ) → x < 2 ^ 64 → read_uvarint (u x ++ rest) ≡ ok (x, rest)
read_uvarint-u x rest h = read_uvarint-some (u x ++ rest) (uvarint-u x rest h)

from_reader-bytes :
    (oas : OffsetAndSizeAndSlot) (rest : List ℕ)
    → Fits oas
    → from_reader (bytes oas ++ rest) ≡ ok (oas, rest)
unfolding from_reader
from_reader-bytes oas rest (h₁, h₂, h₃) =
    ap from_reader (bytes_lem oas rest)
    ∙ bind_ok (read_uvarint (u oas.offset ++ (u oas.size ++ (u oas.slot ++ rest)))) _
        (read_uvarint-u oas.offset (u oas.size ++ (u oas.slot ++ rest)) h₁)
    ∙ bind_ok (read_uvarint (u oas.size ++ (u oas.slot ++ rest))) _
        (read_uvarint-u oas.size (u oas.slot ++ rest) h₂)
    ∙ bind_ok (read_uvarint (u oas.slot ++ rest)) _ (read_uvarint-u oas.slot rest h₃)

abbrev pub bytes_all : List OffsetAndSizeAndSlot → List ℕ
bytes_all [] = []
bytes_all (oas ∷ rest) = bytes oas ++ bytes_all rest

length-append_uvarint_in_pos : (n x : ℕ) → 0 < length (append_uvarint_in (suc n) x)
unfolding append_uvarint_in
length-append_uvarint_in_pos n x = ground arith

length-bytes_pos : (oas : OffsetAndSizeAndSlot) → 0 < length (bytes oas)
unfolding bytes append_uvarint
length-bytes_pos oas = omega (
  arith,
  length-append (u oas.offset ++ u oas.size) (u oas.slot),
  length-append_uvarint_in_pos 9 oas.slot,
)

length-bytes_all : (items : List OffsetAndSizeAndSlot) → length items ≤ length (bytes_all items)
length-bytes_all [] = omega arith
length-bytes_all (oas ∷ rest) =
    omega (
      arith,
      length-append (bytes oas) (bytes_all rest),
      length-bytes_pos oas,
      length-bytes_all rest,
    )

abbrev continue : ℕ → OffsetAndSizeAndSlot → List ℕ → Result Error (List OffsetAndSizeAndSlot)
continue f oas r = read_loop f r >>= λ rest. ok (oas ∷ rest)

read_loop-bytes_all :
    (items : List OffsetAndSizeAndSlot) (tail : List ℕ) (f : ℕ)
    → from_reader tail ≡ err eof
    → All Fits items
    → length items < f
    → read_loop f (bytes_all items ++ tail) ≡ ok items
unfolding read_loop loop_step
read_loop-bytes_all items tail zero e h k = absurd (omega arith)
read_loop-bytes_all [] tail (suc f) e h k = ap (λ t. loop_step t (continue f)) e
read_loop-bytes_all (oas ∷ rest) tail (suc f) e h k =
    let more : List ℕ = bytes_all rest ++ tail in
    ap (λ b. loop_step (from_reader b) (continue f))
      (append_assoc (bytes oas) (bytes_all rest) tail)
    ∙ ap (λ t. loop_step t (continue f)) (from_reader-bytes oas more h.0)
    ∙ bind_ok (read_loop f more) _ (read_loop-bytes_all rest tail f e h.1 (omega arith))

from_reader-nil : from_reader [] ≡ err eof
unfolding from_reader read_uvarint
from_reader-nil = refl

from_reader-one : (x : ℕ) → x < 2 ^ 64 → from_reader (u x) ≡ err eof
unfolding from_reader read_uvarint
from_reader-one x h =
    ap from_reader (sym (append-nil (u x)))
    ∙ bind_ok (read_uvarint (u x ++ [])) _ (read_uvarint-u x [] h)

from_reader-two : (x y : ℕ) → x < 2 ^ 64 → y < 2 ^ 64 → from_reader (u x ++ u y) ≡ err eof
unfolding from_reader read_uvarint
from_reader-two x y h₁ h₂ =
    ap (λ b. from_reader (u x ++ b)) (sym (append-nil (u y)))
    ∙ bind_ok (read_uvarint (u x ++ (u y ++ []))) _ (read_uvarint-u x (u y ++ []) h₁)
    ∙ bind_ok (read_uvarint (u y ++ [])) _ (read_uvarint-u y [] h₂)

-- `OffsetAndSizeAndSlotSliceFromBytes` reads entries of numbers of 64 bits back from what `Bytes`
-- wrote of each, one behind the other, and never runs out of fuel there. It also answers with
-- these entries, and no error, if behind them stands another one that was cut off behind its
-- offset, or behind its size.
pub slice_from_bytes-bytes_all :
    (items : List OffsetAndSizeAndSlot) (offset size : ℕ)
    → All Fits items
    → offset < 2 ^ 64
    → size < 2 ^ 64
    → (slice_from_bytes (bytes_all items) ≡ ok items)
      × (slice_from_bytes (bytes_all items ++ append_uvarint [] offset) ≡ ok items)
      × (slice_from_bytes (bytes_all items ++ append_uvarint (append_uvarint [] offset) size)
          ≡ ok items)
unfolding slice_from_bytes append_uvarint
slice_from_bytes-bytes_all items offset size h h₁ h₂ = (
  ap slice_from_bytes (sym (append-nil (bytes_all items))) ∙ whole [] from_reader-nil,
  whole (u offset) (from_reader-one offset h₁),
  whole (u offset ++ u size) (from_reader-two offset size h₁ h₂),
)
  where
    whole :
        (tail : List ℕ)
        → from_reader tail ≡ err eof
        → slice_from_bytes (bytes_all items ++ tail) ≡ ok items
    whole tail e =
        read_loop-bytes_all items tail (suc (length (bytes_all items ++ tail))) e h
          (omega (arith, length-append (bytes_all items) tail, length-bytes_all items))
