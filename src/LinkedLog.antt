-- ===== src/LinkedLog.antt =====
-- gsfa/linkedlog/offset-size-slot.go: the entries of the linked log, three numbers each, written
-- as varints. `append_uvarint` and `uvarint` are `AppendUvarint` and `Uvarint` of encoding/binary.
pub mod Entries
mod Examples
use yellowstone_faithful.Prelude.{
  ℕ, zero, suc, ◌+◌, ◌-◌, ◌*◌, ◌/◌, ◌%◌, ltb, leb, if◌then◌else◌, Bool, ◌&&◌, ◌==◌, Option, none,
  some, List, [], ◌∷◌, ◌++◌, length, Result, ok, err, panic, stuck, ◌>>=◌, ◌>>◌, guard,
}

pub data Error : Type 0 where
  invalid_length : Error
  bad_offset bad_size bad_slot : Error
  bad_uvarint : Error
  eof : Error

-- `n` bytes are left, of ten that a number of 64 bits can take.
unfoldable pub append_uvarint_in : ℕ → ℕ → List ℕ
append_uvarint_in zero x = []
append_uvarint_in (suc n) x =
    if ltb x 128 then x ∷ [] else (x % 128 + 128) ∷ append_uvarint_in n (x / 128)

unfoldable pub append_uvarint : List ℕ → ℕ → List ℕ
append_uvarint buf x = buf ++ append_uvarint_in 10 x

-- The number and what follows it; nothing where `Uvarint` returns a count that is not positive: on
-- bytes that end too early, and on a number past 64 bits.
unfoldable pub uvarint_in : ℕ → List ℕ → Option (ℕ × List ℕ)
uvarint_in zero buf = none
uvarint_in (suc n) [] = none
uvarint_in (suc n) (b ∷ bs) =
    let more = uvarint_in n bs in
    if ltb b 128
    then (if n == 0 && ltb 1 b then none else some (b, bs))
    else elim more [ none ↦ none | some (v, rest) ↦ some (b - 128 + 128 * v, rest) ]

unfoldable pub uvarint : List ℕ → Option (ℕ × List ℕ)
uvarint buf = uvarint_in 10 buf

pub record OffsetAndSizeAndSlot : Type 0 where
  pub offset : ℕ
  pub size : ℕ
  pub slot : ℕ

unfoldable pub bytes : OffsetAndSizeAndSlot → List ℕ
bytes oas = append_uvarint (append_uvarint (append_uvarint [] oas.offset) oas.size) oas.slot

-- `if n <= 0 { return e }`
unfoldable pub parsed : Error → Option (ℕ × List ℕ) → Result Error (ℕ × List ℕ)
parsed e none = err e
parsed e (some p) = ok p

unfoldable pub from_bytes : List ℕ → Result Error OffsetAndSizeAndSlot
from_bytes buf = do
  guard (leb (length buf) 30) invalid_length
  (offset, buf) ← parsed bad_offset (uvarint buf)
  (size, buf) ← parsed bad_size (uvarint buf)
  (slot, buf) ← parsed bad_slot (uvarint buf)
  ok (record { offset = offset; size = size; slot = slot })

-- `uvarintReader.ReadUvarint`, by what the reader has left.
unfoldable pub read_uvarint : List ℕ → Result Error (ℕ × List ℕ)
read_uvarint [] = err eof
read_uvarint (b ∷ bs) = parsed bad_uvarint (uvarint (b ∷ bs))

unfoldable pub from_reader : List ℕ → Result Error (OffsetAndSizeAndSlot × List ℕ)
from_reader r = do
  (offset, r) ← read_uvarint r
  (size, r) ← read_uvarint r
  (slot, r) ← read_uvarint r
  ok (record { offset = offset; size = size; slot = slot }, r)

-- What the loop of `OffsetAndSizeAndSlotSliceFromBytes` does with the result of `FromReader`: it
-- stops at the end of the file, and fails on other errors. `next` is the rest of the loop.
unfoldable pub loop_step :
    Result Error (OffsetAndSizeAndSlot × List ℕ)
    → (OffsetAndSizeAndSlot → List ℕ → Result Error (List OffsetAndSizeAndSlot))
    → Result Error (List OffsetAndSizeAndSlot)
loop_step (err eof) next = ok []
loop_step (err e) next = err e
loop_step (ok (oas, r)) next = next oas r
loop_step panic next = panic
loop_step stuck next = stuck

-- The loop, on fuel: each turn reads at least three bytes.
unfoldable pub read_loop : ℕ → List ℕ → Result Error (List OffsetAndSizeAndSlot)
read_loop zero r = stuck
read_loop (suc f) r = loop_step (from_reader r) λ oas r. do rest ← read_loop f r; ok (oas ∷ rest)

unfoldable pub slice_from_bytes : List ℕ → Result Error (List OffsetAndSizeAndSlot)
slice_from_bytes buf = read_loop (suc (length buf)) buf
