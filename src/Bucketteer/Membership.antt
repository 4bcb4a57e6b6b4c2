-- ===== src/Bucketteer/Membership.antt =====
-- bucketteer: what was `Put` is what `Has` finds, in the writer and in the sealed file.
use yellowstone_faithful.Prelude.{
  ℕ, ◌+◌, ◌<◌, ◌≡◌, sym, ap, Bool, ◌&&◌, ◌||◌, List, [], ◌∷◌, ◌++◌, length, take, All, ok, arith,
  ◌==◌, length-append,
}
use yellowstone_faithful.Streams.{bytes_reader}
use yellowstone_faithful.Meta.{Meta}
use yellowstone_faithful.Meta.RoundTrip.{IsValid}
use yellowstone_faithful.Borsh.{Borsh}
use yellowstone_faithful.Bucketteer.{prefix_to_uint16}
use yellowstone_faithful.Bucketteer.Writer
use yellowstone_faithful.Bucketteer.Writer.{Writer, new_writer, put, has_hash, seal}
use yellowstone_faithful.Bucketteer.Reader
use yellowstone_faithful.Bucketteer.Reader.{Reader, new_reader}
use yellowstone_faithful.Bucketteer.Buckets.{bucket_limit}
use yellowstone_faithful.Bucketteer.BucketReads.{IsU64}
use yellowstone_faithful.Bucketteer.SealedFile.{seal-File}
use yellowstone_faithful.Bucketteer.RoundTrip.{IsSignature, opened, has-opened, content}

-- Two signatures that the package cannot tell apart: one prefix and one hash.
abbrev pub alike : (List ℕ → ℕ) → List ℕ → List ℕ → Bool
alike xxhash sig other =
    prefix_to_uint16 (take 2 sig) == prefix_to_uint16 (take 2 other) && xxhash sig == xxhash other

has_hash-append : (xs : List ℕ) (h x : ℕ) → has_hash (xs ++ (h ∷ [])) x ≡ (has_hash xs x || h == x)
unfolding has_hash
has_hash-append [] h x = ground arith
has_hash-append (y ∷ xs) h x = ground (arith, has_hash-append xs h x)

-- After a `Put` the writer's `Has` knows what it knew, and the signature put.
pub has-put :
    (xxhash : List ℕ → ℕ) (w : Writer) (sig other : List ℕ)
    → Writer.has xxhash (put xxhash w sig) other
      ≡ (Writer.has xxhash w other || alike xxhash sig other)
unfolding Writer.has put
has-put xxhash w sig other = ground (
  arith,
  ap w.prefix_to_hashes {x = prefix_to_uint16 (take 2 sig)} {y = prefix_to_uint16 (take 2 other)},
  has_hash-append (w.prefix_to_hashes (prefix_to_uint16 (take 2 sig))) (xxhash sig) (xxhash other),
)

-- A writer within the limits of the file: every bucket has fewer than 2 ^ 29 hashes, and the hashes
-- are numbers of 64 bits.
pub record Fits (w : Writer) : Type 0 where
  pub small : (p : ℕ) → length (w.prefix_to_hashes p) < bucket_limit
  pub hashes_u64 : (p : ℕ) → All IsU64 (w.prefix_to_hashes p)

-- `Seal` writes a file, and returns its length. `NewReader` opens that file: it has the metadata
-- that was sealed in, and answers `Has` for each signature as the writer does, whatever order
-- and repetitions the signatures were put in. The writer is within the limits of the file.
pub has-seal :
    (B : Borsh) (xxhash : List ℕ → ℕ) (w : Writer) (m : Meta)
    → IsValid m
    → Fits w
    → (size : ℕ) × (file : List ℕ) × (r : Reader) × (seal B w m ≡ ok (size, file))
      × (size ≡ length file)
      × (new_reader B (bytes_reader file) ≡ ok r)
      × (r.meta_data ≡ m)
      × ((sig : List ℕ) → IsSignature sig → Reader.has xxhash r sig ≡ ok (Writer.has xxhash w sig))
has-seal B xxhash w m v fits =
    let f = seal-File B w m v fits.small in
    let (r, q, section, same, table) = opened B w m v f in
    (
      length f.header + length f.tail,
      f.header ++ f.tail,
      r,
      f.seals,
      sym (length-append f.header f.tail),
      unfold content in q,
      same,
      λ sig s. has-opened B w m v f xxhash r sig fits.small fits.hashes_u64 s section table,
    )
