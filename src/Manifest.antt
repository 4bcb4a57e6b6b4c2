-- ===== src/Manifest.antt =====
-- gsfa/manifest/manifest.go: the file that lists pairs of numbers behind a header. The file is its
-- content; opening, syncing and closing it is left out, and a write succeeds, at the end of the file.
-- The header is there as long as the file is open. `bufio.NewReader` is the parameter `new_reader`.
pub mod RoundTrip
mod Examples
use yellowstone_faithful.Prelude.{
  ℕ, zero, suc, ◌+◌, ◌-◌, ◌%◌, ◌^◌, Bool, leb, ltb, ◌==◌, if◌then◌else◌, List, [], ◌∷◌, ◌++◌,
  length, take, drop, Option, none, some, Result, ok, err, panic, stuck, ◌>>=◌, ◌>>◌, guard,
  map_err,
}
use yellowstone_faithful.Bytes.{put_le, get_le, bytes_equal}
use yellowstone_faithful.Streams.{IoError, eof, unexpected_eof}
use yellowstone_faithful.Meta.Decoder.{ByteDecoder}
use yellowstone_faithful.Meta.{Meta, MetaError, new_meta, unmarshal_with_decoder}
use yellowstone_faithful.Meta.{bytes as meta_bytes}

pub data Error : Type 0 where
  io : IoError → Error
  meta : MetaError → Error
  not_manifest unsupported_version corrupt : Error

-- "gsfamnfs"
abbrev pub magic : List ℕ
magic = 103 ∷ 115 ∷ 102 ∷ 97 ∷ 109 ∷ 110 ∷ 102 ∷ 115 ∷ []

abbrev pub version : ℕ
version = 4

abbrev pub header_len_without_meta : ℕ
header_len_without_meta = 16

pub record Header : Type 0 where
  pub version : ℕ
  pub meta_byte_size : ℕ
  pub meta_data : Meta

pub record Manifest : Type 0 where
  pub file : List ℕ
  pub header : Header

-- `io.ReadFull`
unfoldable pub read_full : ℕ → List ℕ → Result Error (List ℕ × List ℕ)
read_full n rd =
    if leb n (length rd)
    then ok (take n rd, drop n rd)
    else if length rd == 0
    then err (io eof)
    else err (io unexpected_eof)

-- `writeHeader`, into an empty file.
unfoldable pub write_header : Meta → ℕ → Result Error (List ℕ)
write_header m v = do meta_buf ← meta_bytes m; ok (magic ++ (put_le 8 v ++ meta_buf))

-- `size - headerLenWithoutMeta - metaByteSize` is a multiple of 16, of either sign.
unfoldable pub is_whole : ℕ → ℕ → Bool
is_whole size off = if leb off size then (size - off) % 16 == 0 else (off - size) % 16 == 0

module _ (D : ByteDecoder) (new_reader : List ℕ → ByteDecoder.State D) where
  -- The metadata of `readHeader`.
  unfoldable pub read_meta : ℕ → List ℕ → Result Error Header
  read_meta v rd =
      let with_meta : Result Error Header = do
        (m, _) ← map_err meta (unmarshal_with_decoder D new_meta (new_reader rd))
        meta_buf ← meta_bytes m
        ok (record { version = v; meta_byte_size = length meta_buf; meta_data = m })
      in if leb 2 v
        then with_meta
        else ok (record { version = v; meta_byte_size = 0; meta_data = new_meta })

  -- `readHeader`
  unfoldable pub read_header : List ℕ → Result Error Header
  unfolding read_meta
  read_header file = do
    (magic_buf, rd) ← read_full 8 file
    guard (bytes_equal magic_buf magic) not_manifest
    (version_buf, rd₁) ← read_full 8 rd
    read_meta (get_le version_buf) rd₁

  -- `NewManifest`, on the content that the file has.
  unfoldable pub new_manifest : List ℕ → Meta → Result Error Manifest
  unfolding is_whole
  new_manifest file m =
      let created : Result Error Manifest = do
        content ← write_header m version
        meta_buf ← meta_bytes m
        ok (record {
          file = content;
          header = record { version = version; meta_byte_size = length meta_buf; meta_data = m };
        })
      in let existing : Result Error Manifest = do
        header ← read_header file
        guard (header.version == version) unsupported_version
        guard (is_whole (length file) (header_len_without_meta + header.meta_byte_size)) corrupt
        ok (record { file = file; header = header })
        in if length file == 0 then created else existing

-- `getContentLength`, where it is not negative.
unfoldable pub content_length : Manifest → ℕ
content_length m = length m.file - header_len_without_meta - m.header.meta_byte_size

-- `Put`, with `write`.
unfoldable pub put : Manifest → ℕ → ℕ → Manifest
put m key value = record m { file = m.file ++ (put_le 8 key ++ put_le 8 value) }

-- The loop of `readAllContent`, on fuel.
unfoldable pub read_loop : ℕ → List ℕ → Result Error (List (ℕ × ℕ))
read_loop zero rd = stuck
read_loop (suc f) rd = elim (read_full 16 rd) [
  | ok (buf, rd') ↦ (do
    values ← read_loop f rd'
    ok ((get_le (take 8 buf), get_le (drop 8 buf)) ∷ values))
  | err (io eof) ↦ ok []
  | err e ↦ err e
  | panic ↦ panic
  | stuck ↦ stuck
]

-- `ReadAll`. A content length below -15 is a negative capacity, a panic.
unfoldable pub read_all : Manifest → Result Error (List (ℕ × ℕ))
unfolding read_loop
read_all m =
    let off : ℕ = header_len_without_meta + m.header.meta_byte_size in
    let section : List ℕ = take (content_length m) (drop off m.file) in
    if leb off (length m.file)
    then read_loop (length section + 1) section
    else if leb 16 (off - length m.file)
    then panic
    else ok []

-- `First`
unfoldable pub first : List (ℕ × ℕ) → Option (ℕ × ℕ)
first [] = none
first (v ∷ vs) = some v

-- `Last`
unfoldable pub last : List (ℕ × ℕ) → Option (ℕ × ℕ)
last [] = none
last (v ∷ []) = some v
last (v ∷ w ∷ vs) = last (w ∷ vs)
