-- ===== src/SlotToCid.antt =====
-- indexes/index-slot-to-cid.go: the index from slots to the CIDs of their blocks, over compactindexsized.
-- A file is its content. The format before it belongs to deprecated/compactindex36, whose `Open` and
-- `Lookup` are parameters.
pub mod Written
pub mod RoundTrip
mod Examples
use yellowstone_faithful.Prelude.{
  ℕ, ◌+◌, Bool, true, false, if◌then◌else◌, List, [], ◌∷◌, Option, none, some, Result, ok, err,
  panic, stuck, ◌>>=◌, ◌>>◌, guard, map_err,
}
use yellowstone_faithful.Bytes.{bytes_equal}
use yellowstone_faithful.Streams.{ReaderAt, ReadResult, IoError}
use yellowstone_faithful.Borsh.{Borsh}
use yellowstone_faithful.Indexes.{uint64tob}
use yellowstone_faithful.IndexMetadata
use yellowstone_faithful.IndexMetadata.{
  Cids, Metadata, is_valid_network, not, set_default_metadata, get_default_metadata,
}
use yellowstone_faithful.CompactIndex
use yellowstone_faithful.CompactIndex.Builder
use yellowstone_faithful.CompactIndex.Builder.{Builder, new_builder_sized, insert}
use yellowstone_faithful.CompactIndex.Query.{Db, open_db, lookup}

pub data Error : Type 0 where
  index : CompactIndex.Error → Error
  meta_data : IndexMetadata.Error → Error
  invalid_network invalid_root_cid is_sealed cid_undefined wrong_kind bad_cid : Error
  magic_unread : IoError → Error

-- "slot-to-cid"
abbrev pub kind : List ℕ
kind = 115 ∷ 108 ∷ 111 ∷ 116 ∷ 45 ∷ 116 ∷ 111 ∷ 45 ∷ 99 ∷ 105 ∷ 100 ∷ []

abbrev pub index_value_size : ℕ
index_value_size = 36

-- "rdcecidx"
abbrev pub old_magic : List ℕ
old_magic = 114 ∷ 100 ∷ 99 ∷ 101 ∷ 99 ∷ 105 ∷ 100 ∷ 120 ∷ []

-- `IsFileOldFormat`
unfoldable pub is_file_old_format : ReaderAt → Result Error Bool
is_file_old_format file = elim (ReadResult.error (file 0 8)) [
  | some e ↦ err (magic_unread e)
  | none ↦ ok (bytes_equal (ReadResult.got (file 0 8)) old_magic)
]

module _ (C : Cids) where
  open C use {Cid}

  pub record Writer : Type 0 where
    pub sealed : Bool
    pub meta_data : Metadata C
    pub index : Builder

  -- `NewWriter_SlotToCid`
  unfoldable pub new_writer : ℕ → Cid → List ℕ → ℕ → Result Error Writer
  new_writer epoch root_cid network num_items = do
    guard (is_valid_network network) invalid_network
    guard (not (C.is_undef root_cid)) invalid_root_cid
    b ← map_err index (new_builder_sized num_items index_value_size)
    let m : Metadata C = record {
      epoch = epoch;
      root_cid = root_cid;
      network = network;
      index_kind = kind;
    }
    set ← map_err meta_data (set_default_metadata C b.header.meta_data m)
    ok (record {
      sealed = false;
      meta_data = m;
      index = record b { header = record b.header { meta_data = set } };
    })

  -- `Put`
  unfoldable pub put : (List ℕ → ℕ) → ℕ → Writer → ℕ → Cid → Result Error Writer
  put xxhash fuel w slot cid = do
    guard (not w.sealed) is_sealed
    guard (not (C.is_undef cid)) cid_undefined
    b ← map_err index (insert xxhash fuel w.index (uint64tob slot) (C.bytes cid))
    ok (record w { index = b })

  -- `Seal`: the file, and the writer behind it.
  unfoldable pub seal : (List ℕ → ℕ) → (ℕ → ℕ → Bool) → Writer → Result Error (List ℕ × Writer)
  seal xxhash done w = do
    guard (not w.sealed) is_sealed
    file ← map_err index (Builder.seal xxhash done w.index)
    ok (file, record w { sealed = true })

  -- A reader of this format, or of the one before it, of which only its `Lookup` is known.
  pub data Reader : Type 0 where
    current : Metadata C → Db → Reader
    deprecated : (List ℕ → Result CompactIndex.Error (List ℕ)) → Reader

  -- `Meta`, `nil` for the old format.
  unfoldable pub reader_meta : Reader → Option (Metadata C)
  reader_meta (current m db) = some m
  reader_meta (deprecated old) = none

  -- `OpenWithReader_SlotToCid`, for a file of this format.
  unfoldable pub open_current : Borsh → ReaderAt → Result Error Reader
  open_current B reader = do
    db ← map_err index (open_db B reader)
    m ← map_err meta_data (get_default_metadata C db.header.meta_data)
    guard (is_valid_network m.network) invalid_network
    guard (not (C.is_undef m.root_cid)) invalid_root_cid
    guard (bytes_equal m.index_kind kind) wrong_kind
    ok (current m db)

  -- `OpenWithReader_SlotToCid`; `open_old` is the `Open` of deprecated/compactindex36.
  unfoldable pub open_with_reader :
      Borsh
      → (ReaderAt → Result CompactIndex.Error (List ℕ → Result CompactIndex.Error (List ℕ)))
      → ReaderAt
      → Result Error Reader
  unfolding open_current
  open_with_reader B open_old reader = do
    is_old ← is_file_old_format reader
    let opened : Result Error Reader =
        map_err index (open_old reader) >>= λ old. ok (deprecated old)
    (if is_old then opened else open_current B reader)

  unfoldable pub cid_or_fail : Option Cid → Result Error Cid
  cid_or_fail none = err bad_cid
  cid_or_fail (some c) = ok c

  -- `Lookup` of the index that the reader has.
  unfoldable pub lookup_in : (List ℕ → ℕ) → ℕ → Reader → List ℕ → Result CompactIndex.Error (List ℕ)
  lookup_in xxhash fuel (current m db) key = lookup xxhash fuel db key
  lookup_in xxhash fuel (deprecated old) key = old key

  -- `Get`
  unfoldable pub get : (List ℕ → ℕ) → ℕ → Reader → ℕ → Result Error Cid
  unfolding cid_or_fail lookup_in
  get xxhash fuel r slot = do
    value ← map_err index (lookup_in xxhash fuel r (uint64tob slot))
    cid_or_fail (C.cid_from_bytes value)
