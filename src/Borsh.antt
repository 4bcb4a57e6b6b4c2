-- ===== src/Borsh.antt =====
-- The Borsh encoder and decoder of gagliardetto/binary, which bucketteer and compactindexsized
-- call, as a parameter with what its documentation says: an encoder over a `bytes.Buffer` appends,
-- and does not fail; a decoder reads what the slice still holds.
use yellowstone_faithful.Prelude.{
  ℕ, ◌^◌, ◌<◌, ◌≡◌, refl, Option, none, some, List, [], ◌++◌, arith, length-append, take-append,
  drop-append,
}
use yellowstone_faithful.Bytes.{put_le, get_le}
use yellowstone_faithful.Bytes.Laws.{length-put_le, get_le-put_le}
use yellowstone_faithful.Meta.Decoder.{ByteDecoder, list_decoder, list_read}

pub record Borsh : Type 1 where
  pub bytes : ByteDecoder
  -- `NewBorshDecoder` and `ReadUint64(bin.LE)`
  pub new_decoder : List ℕ → bytes.State
  pub read_uint64 : bytes.State → Option (ℕ × bytes.State)
  pub new_decoder_lem : (buf : List ℕ) → bytes.remaining (new_decoder buf) ≡ buf
  pub read_uint64_lem :
      (s : bytes.State) (x : ℕ) (rest : List ℕ)
      → x < 2 ^ 64
      → bytes.remaining s ≡ put_le 8 x ++ rest
      → (s' : bytes.State) × (read_uint64 s ≡ some (x, s')) × (bytes.remaining s' ≡ rest)
  -- `NewBorshEncoder` over an empty buffer, `Write`, `WriteUint32` and `WriteUint64` (little
  -- endian), and the buffer's `Bytes`.
  pub Encoder : Type 0
  pub new_encoder : Encoder
  pub write : List ℕ → Encoder → Option Encoder
  pub write_uint32 : ℕ → Encoder → Option Encoder
  pub write_uint64 : ℕ → Encoder → Option Encoder
  pub written : Encoder → List ℕ
  pub new_encoder_lem : written new_encoder ≡ []
  pub write_lem :
      (xs : List ℕ) (e : Encoder)
      → (e' : Encoder) × (write xs e ≡ some e') × (written e' ≡ written e ++ xs)
  pub write_uint32_lem :
      (x : ℕ) (e : Encoder)
      → (e' : Encoder) × (write_uint32 x e ≡ some e') × (written e' ≡ written e ++ put_le 4 x)
  pub write_uint64_lem :
      (x : ℕ) (e : Encoder)
      → (e' : Encoder) × (write_uint64 x e ≡ some e') × (written e' ≡ written e ++ put_le 8 x)

-- The parameter can be met: decoders and encoders that are lists of bytes.
abbrev pub list_read_uint64 : List ℕ → Option (ℕ × List ℕ)
list_read_uint64 s = elim (list_read 8 s) [ none ↦ none | some (b, s') ↦ some (get_le b, s') ]

pub list_read_uint64_lem :
    (s : List ℕ) (x : ℕ) (rest : List ℕ)
    → x < 2 ^ 64
    → s ≡ put_le 8 x ++ rest
    → (s' : List ℕ) × (list_read_uint64 s ≡ some (x, s')) × (s' ≡ rest)
list_read_uint64_lem s x rest h e = (
  rest,
  rw e (
      ground (
        arith,
        length-append (put_le 8 x) rest,
        length-put_le 8 x,
        get_le-put_le 8 x,
        take-append (put_le 8 x) rest 8,
        drop-append (put_le 8 x) rest 8,
      )),
  refl,
)

abbrev pub list_write : List ℕ → List ℕ → Option (List ℕ)
list_write xs e = some (e ++ xs)

pub list_write_lem : (xs e : List ℕ) → (e' : List ℕ) × (list_write xs e ≡ some e') × (e' ≡ e ++ xs)
list_write_lem xs e = (e ++ xs, refl, refl)

abbrev pub list_borsh : Borsh
list_borsh = record {
  bytes = list_decoder;
  new_decoder = λ buf. buf;
  read_uint64 = list_read_uint64;
  new_decoder_lem = λ buf. refl;
  read_uint64_lem = list_read_uint64_lem;
  Encoder = List ℕ;
  new_encoder = [];
  write = list_write;
  write_uint32 = λ x. list_write (put_le 4 x);
  write_uint64 = λ x. list_write (put_le 8 x);
  written = λ e. e;
  new_encoder_lem = refl;
  write_lem = list_write_lem;
  write_uint32_lem = λ x. list_write_lem (put_le 4 x);
  write_uint64_lem = λ x. list_write_lem (put_le 8 x);
}
