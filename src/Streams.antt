-- ===== src/Streams.antt =====
-- Random-access readers, as Go's io package has them: `io.ReaderAt`, `io.SectionReader`, and a
-- reader over bytes at rest (an `os.File`, a memory map, a `bytes.Reader`).
pub mod Laws
use yellowstone_faithful.Prelude.{
  ℕ, ◌+◌, ◌-◌, ◌^◌, ◌<◌, Option, none, some, List, [], length, take, drop, ltb, leb, if◌then◌else◌,
  Result, ok, err,
}
use Prim.Native.Nat.{min}

pub data IoError : Type 0 where
  eof unexpected_eof other : IoError

-- What a `ReadAt` did: the bytes that it read, and its error. As `io.ReaderAt` demands, an error
-- comes with every read that is not full.
pub record ReadResult : Type 0 where
  pub got : List ℕ
  pub error : Option IoError

-- `ReadAt(p, off)`, by the offset and `len(p)`.
abbrev pub ReaderAt : Type 0
ReaderAt = ℕ → ℕ → ReadResult

-- The reader over bytes at rest.
unfoldable pub bytes_reader : List ℕ → ReaderAt
bytes_reader content off n =
    let got : List ℕ = take n (drop off content) in
    record { got = got; error = if ltb (length got) n then some eof else none }

-- `io.NewSectionReader(r, base, size)`. An `int64` offset is given by its bits, so a negative one
-- is at least 2 ^ 63 and past the end, where `ReadAt` answers EOF in either case.
unfoldable pub section_reader : ReaderAt → ℕ → ℕ → ReaderAt
section_reader r base size off n =
    let limit : ℕ = min (base + size) (2 ^ 63 - 1) in
    let whole : ReadResult = r (base + off) n in
    let cut : ReadResult = r (base + off) (limit - (base + off)) in
    if leb (limit - base) off
    then record { got = []; error = some eof }
    else if ltb (limit - (base + off)) n
    then record cut { error = elim cut.error [ none ↦ some eof | some e ↦ some e ] }
    else whole

-- `if err != nil { return err }`, with the buffer read.
abbrev pub checked : ReadResult → Result IoError (List ℕ)
checked res = elim res.error [ none ↦ ok res.got | some e ↦ err e ]

-- `if _, err := r.ReadAt(buf, off); err != nil { return err }`
unfoldable pub read_exact : ReaderAt → ℕ → ℕ → Result IoError (List ℕ)
read_exact r off n = checked (r off n)
