-- ===== src/Meta/Decoder.antt =====
-- The interface `Decoder` of indexmeta/indexmeta.go: an `io.ByteReader` and `io.Reader`. The
-- implementations (the Borsh decoder of gagliardetto/binary, `bufio.Reader`) are not part of the
-- repository, so they are a parameter, with what their documentation says of a reader over bytes
-- that it still holds.
use yellowstone_faithful.Prelude.{
  ℕ, ◌≡◌, refl, Option, none, some, List, [], ◌∷◌, ◌++◌, length, ◌==◌, if◌then◌else◌, take, drop,
  leb, arith, take-append, drop-append, length-append,
}

pub record ByteDecoder : Type 1 where
  pub State : Type 0
  -- The bytes not read yet.
  pub remaining : State → List ℕ
  pub read_byte : State → Option (ℕ × State)
  -- A read into a buffer of this length: the buffer is filled, or the read fails.
  pub read : ℕ → State → Option (List ℕ × State)
  pub read_byte_lem :
      (s : State) (b : ℕ) (rest : List ℕ)
      → remaining s ≡ b ∷ rest
      → (s' : State) × (read_byte s ≡ some (b, s')) × (remaining s' ≡ rest)
  pub read_byte_end : (s : State) → remaining s ≡ [] → read_byte s ≡ none
  pub read_lem :
      (s : State) (front rest : List ℕ)
      → remaining s ≡ front ++ rest
      → (s' : State) × (read (length front) s ≡ some (front, s')) × (remaining s' ≡ rest)

-- `io.ReadFull` makes no read for an empty buffer.
unfoldable pub read_full : (D : ByteDecoder) → ℕ → D.State → Option (List ℕ × D.State)
read_full D n s = if n == 0 then some ([], s) else D.read n s

pub read_full_lem :
    (D : ByteDecoder) (s : D.State) (front rest : List ℕ)
    → D.remaining s ≡ front ++ rest
    → (s' : D.State) × (read_full D (length front) s ≡ some (front, s')) × (D.remaining s' ≡ rest)
unfolding read_full
read_full_lem D s [] rest e = (s, refl, e)
read_full_lem D s (b ∷ bs) rest e =
    let (s', r, q) = D.read_lem s (b ∷ bs) rest e in (s', ground arith, q)

-- A decoder over a list of bytes, as an instance of the interface.
abbrev pub list_read_byte : List ℕ → Option (ℕ × List ℕ)
list_read_byte [] = none
list_read_byte (b ∷ bs) = some (b, bs)

abbrev pub list_read : ℕ → List ℕ → Option (List ℕ × List ℕ)
list_read n bs = if leb n (length bs) then some (take n bs, drop n bs) else none

pub list_read_byte_lem :
    (s : List ℕ) (b : ℕ) (rest : List ℕ)
    → s ≡ b ∷ rest
    → (s' : List ℕ) × (list_read_byte s ≡ some (b, s')) × (s' ≡ rest)
list_read_byte_lem s b rest e = (rest, rw e, refl)

pub list_read_byte_end : (s : List ℕ) → s ≡ [] → list_read_byte s ≡ none
list_read_byte_end s e = rw e

pub list_read_lem :
    (s front rest : List ℕ)
    → s ≡ front ++ rest
    → (s' : List ℕ) × (list_read (length front) s ≡ some (front, s')) × (s' ≡ rest)
list_read_lem s front rest e = (
  rest,
  rw e (
      ground (
        arith,
        length-append front rest,
        take-append front rest (length front) refl,
        drop-append front rest (length front) refl,
      )),
  refl,
)

abbrev pub list_decoder : ByteDecoder
list_decoder = record {
  State = List ℕ;
  remaining = λ s. s;
  read_byte = list_read_byte;
  read = list_read;
  read_byte_lem = list_read_byte_lem;
  read_byte_end = list_read_byte_end;
  read_lem = list_read_lem;
}

-- A read of `n` bytes that are there.
pub read_n :
    (D : ByteDecoder) (s : D.State) (n : ℕ) (front rest : List ℕ)
    → n ≡ length front
    → D.remaining s ≡ front ++ rest
    → (s' : D.State) × (D.read n s ≡ some (front, s')) × (D.remaining s' ≡ rest)
read_n D s n front rest h e = rw h (D.read_lem s front rest e)
