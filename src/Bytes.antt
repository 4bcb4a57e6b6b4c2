-- ===== src/Bytes.antt =====
-- Bytes as the program moves them: a byte slice is a list of numbers below 256. The functions are
-- those of Go's encoding/binary and bytes that the program calls, and the program's own
-- variants (`uintLe`, `putUintLe` of compactindexsized/compactindex.go).
pub mod Laws
use yellowstone_faithful.Prelude.{
  ℕ, zero, suc, ◌+◌, ◌-◌, ◌*◌, ◌/◌, ◌%◌, ◌^◌, ◌<◌, Bool, true, false, ◌&&◌, ◌==◌, List, [], ◌∷◌,
  ◌++◌, take, drop, length, replicate, All, Result, ok, panic, leb, if◌then◌else◌,
}

abbrev pub IsByte : ℕ → Type 0
IsByte b = b < 256

abbrev pub AreBytes : List ℕ → Type 0
AreBytes = All IsByte

-- `w` bytes of `x`, lowest first: PutUint16, PutUint32 and PutUint64 for w = 2, 4 and 8.
unfoldable pub put_le : ℕ → ℕ → List ℕ
put_le zero x = []
put_le (suc w) x = x % 256 ∷ put_le w (x / 256)

-- The number of a little-endian slice: Uint16, Uint32 and Uint64 on slices of 2, 4 and 8 bytes.
unfoldable pub get_le : List ℕ → ℕ
get_le [] = 0
get_le (b ∷ bs) = b + 256 * get_le bs

-- `bytes.Equal`.
unfoldable pub bytes_equal : List ℕ → List ℕ → Bool
bytes_equal [] [] = true
bytes_equal [] (y ∷ ys) = false
bytes_equal (x ∷ xs) [] = false
bytes_equal (x ∷ xs) (y ∷ ys) = x == y && bytes_equal xs ys

-- The bytes `lo` to `hi` of a slice that is long enough.
abbrev pub slice : List ℕ → ℕ → ℕ → List ℕ
slice buf lo n = take n (drop lo buf)

-- `buf[lo:hi]`, which panics out of range. (A slice's capacity is its length here.)
unfoldable pub slice_checked : {E : Type 0} → List ℕ → ℕ → ℕ → Result E (List ℕ)
slice_checked buf lo hi =
    if leb lo hi && leb hi (length buf) then ok (slice buf lo (hi - lo)) else panic

-- `copy(dst, src)`: `dst` behind it.
unfoldable pub copy_bytes : List ℕ → List ℕ → List ℕ
copy_bytes dst src = take (length dst) src ++ drop (length src) dst
