-- ===== src/Lib.antt =====
-- A model of the storage formats of yellowstone-faithful (Old Faithful), and proofs about it.
--
-- The program serves the history of the Solana ledger from archives, one CAR file per epoch of
-- 432000 slots. Beside each archive stand index files, which say where in it the data of a slot, a
-- signature, a CID or an address lies, or whether it has a signature at all; the servers answer a
-- request by asking these files, reading the archive through caches, and decoding what they read.
-- The files are written once, sealed, and then only read. So what makes them correct is that a
-- reader finds in the sealed file what the writer was given, and nothing else.
--
-- The parts that are modelled, and the files that model them:
--
--   indexmeta/indexmeta.go, the key-value metadata in the header of every index file, is Meta:
--     `marshal_binary`, `unmarshal_with_decoder`, `add`, `replace`, `remove`, `get`, `get_all`,
--     `count`, `read_first` and `has_duplicate_keys` are the methods of `Meta` of these names.
--     Meta/Decoder is the interface `Decoder`, Meta/RoundTrip and Meta/KeyValues hold the proofs.
--   bucketteer/, the file that tells which signatures an epoch has, is Bucketteer. write.go is
--     Bucketteer/Writer (`new_writer`, `put`, `has`, `seal`, with `get_clean_set`, `create_header`,
--     `seal_to` for `seal` and `overwrite_start` for `overwriteFileContentAt`), read.go is
--     Bucketteer/Reader (`new_reader`, `read_header`, `has`) and, for `searchEytzinger` and
--     the table of prefixes, Bucketteer itself. The file carries the metadata of Meta in its header.
--     The other files below Bucketteer hold the proofs, from the parts of a file (CleanSet, Buckets,
--     Header, SealedFile) over the reads (Search, BucketReads) to the whole (RoundTrip, Membership).
--   The layout that buckets are stored in, `sortWithCompare` and `eytzinger` of
--     bucketteer/bucketteer.go, is Eytzinger. The copy of these functions in compactindexsized/
--     differs in the type of the items only, so Eytzinger is about items of any type; its Walk is what
--     the two copies of `searchEytzinger` have in common.
--   compactindexsized/, the index files that map keys to values of one size, is CompactIndex:
--     compactindex.go is CompactIndex itself (`header_load`, `header_bytes`, `bucket_hash` for
--     `BucketHash`, `bucket_store`, `bucket_load`, `marshal_entry`, `unmarshal_entry`), build.go is
--     CompactIndex/Builder (`new_builder_sized`, `insert`, `hash_bucket`, `mine`, `seal`) and query.go
--     is CompactIndex/Query (`open_db`, `get_bucket`, `lookup`). The proofs go from the bytes (Format,
--     Buckets, Hashing) over the side of the builder (Tuples, Inserting, NewBuilder, Mining, Attempts,
--     SealedFile) and that of the reader (Reading, Search) to both together (Lookup, RoundTrip);
--     Sealing is about the outcomes of `Seal`.
--   range-cache/, the cache of ranges of a remote file, is RangeCache: `set_range` is `setRange`,
--     `get_range` is `GetRange`, with `miss` for the function it passes and `get_range_with` for
--     `getRange`, and `delete_old_entries`. RangeCache/Steps has the relation of what goroutines do.
--     Invariant and Validity are about the writes, Reads, Transparency and Hits about the reads.
--   blocktimeindex/, the block time of each slot of an epoch, is BlockTime: `Set` and `Get` are
--     `set_time` and `get_time`, the others have their own names.
--   indexes/index-slot-to-cid.go, an index file as the servers use it, is SlotToCid, on top of
--     CompactIndex, with its metadata (indexes/metadata.go, indexes/networks.go) in IndexMetadata.
--     SlotToCid/Written is about the writer, SlotToCid/RoundTrip about the file.
--   indexes/uints.go and indexes/offset-and-size.go, the values of the indexes, are Indexes; its
--     `slice_from_bytes` is `OffsetAndSizeSliceFromBytes`. Numbers, Values and Slices hold the proofs.
--   gsfa/linkedlog/offset-size-slot.go, the entries of the log of an address, is LinkedLog; its
--     `slice_from_bytes` is `OffsetAndSizeAndSlotSliceFromBytes`.
--   gsfa/manifest/manifest.go, the list of pairs of numbers of the index by address, is Manifest; its
--     `content_length` is `getContentLength`, and `put` is `Put` with its `write`.
--   slottools/edges.go, epochs and ranges of slots, is Slots, which BlockTime uses.
--
-- A call of Go is a function into `Result` (Prelude/Results), with a case for a returned error, one
-- for a panic, and one for a loop that ran out of fuel. A method on a pointer takes the state and
-- returns it as it leaves it. Numbers are natural numbers, with the wrap of a machine word written
-- out where the code can reach it; a byte slice is a list of numbers.
--
-- Loops over slices are structural. Other loops take fuel. The recursion of `eytzinger` gets one
-- more than the length of the slice: each call doubles the index of its node, which ends it once
-- that is past the length. `searchEytzinger` gets one more than the size of the bucket, for the
-- same reason. The loop that reads entries of a linked log gets one more than the number of bytes,
-- of which each turn reads some, as does the one that reads a manifest. The loop of `BucketHash` gets
-- fuel from the caller, since it does not end for every key. `mine` makes its 1000 attempts, as the
-- code does; whether its context is done at an attempt is a parameter.
--
-- Third-party code is a parameter: the hash function xxhash.Sum64 is any function from bytes to
-- numbers, the Borsh encoder and decoder of gagliardetto/binary is the record `Borsh` (Borsh) and the
-- byte reader that metadata is decoded from the record `ByteDecoder`, with what their documentation
-- says as laws, and an instance over lists for the tests. go-cid is the record `Cids` of
-- IndexMetadata, and the index format before this one two parameters of SlotToCid. Go's
-- encoding/binary, bytes and io are modelled by what they do on slices (Bytes, Streams); `sort.Slice`
-- is an insertion sort (Sorting).
--
-- The size of a bucket's section in `Reader.Has` is a product of 32 bits, which wraps from 2 ^ 29
-- hashes on. Writes to a file succeed, and opening, flushing and syncing it are
-- left out.
--
-- Not modelled: the other index files by kind (the rest of indexes), the rest of gsfa, the
-- readers of archives (readahead, carreader, split-car-fetcher), the data
-- frames of tooling, the decoders generated from schemas, and the RPC and gRPC servers with their
-- command line, which consist of network and file access around calls of the parts above.
pub mod BlockTime
pub mod Borsh
pub mod Bucketteer
pub mod Bytes
pub mod CompactIndex
pub mod Eytzinger
pub mod IndexMetadata
pub mod Indexes
pub mod LinkedLog
pub mod Manifest
pub mod Meta
pub mod Prelude
pub mod RangeCache
pub mod SlotToCid
pub mod Slots
pub mod Sorting
pub mod Streams
