-- ===== src/CompactIndex/RoundTrip.antt =====
-- compactindexsized: building an index (build.go) and reading it (query.go).
use yellowstone_faithful.Prelude.{
  ℕ, ◌^◌, ◌<◌, ◌≤◌, ◌≡◌, ◌⊎◌, ◌∙◌, refl, sym, ap, subst, inl, inr, Bool, List, [], length, Result,
  ok, err, arith, All, All-pointwise,
}
use yellowstone_faithful.Streams.{bytes_reader}
use yellowstone_faithful.Borsh.{Borsh}
use yellowstone_faithful.Meta.{Meta}
use yellowstone_faithful.Meta.RoundTrip.{IsValid as MetaIsValid}
use yellowstone_faithful.CompactIndex.{Error, not_found, Header, bucket_hash}
use yellowstone_faithful.CompactIndex.Builder.{Builder, new_builder_sized, seal}
use yellowstone_faithful.CompactIndex.Query.{Db, open_db, lookup}
use yellowstone_faithful.CompactIndex.Format.{IsValid}
use yellowstone_faithful.CompactIndex.Tuples.{Pair, Fits, Holds}
use yellowstone_faithful.CompactIndex.SealedFile.{Filled}
use yellowstone_faithful.CompactIndex.Inserting.{Member, insert_all, Tracks, Kept, insert_all-Kept}
use yellowstone_faithful.CompactIndex.NewBuilder.{
  empty_builder, empty_builder-Kept, new_builder_sized-inv, Filled-pointwise,
}
use yellowstone_faithful.CompactIndex.Lookup.{
  SealedAs, seal-SealedAs, db_of, open_db-SealedAs, lookup-hit, lookup_sound,
}

-- The builder with its metadata set, as clients do by `Metadata` before they seal.
abbrev pub with_meta : Meta → Builder → Builder
with_meta m b = record b { header = record b.header { meta_data = m } }

-- The lookups of an index of these pairs.
record Answers (xxhash : List ℕ → ℕ) (fuel : ℕ) (pairs : List Pair) (db : Db) : Type 0 where
  -- Every key inserted has the value inserted.
  pub hits : All (λ p. lookup xxhash fuel db p.key ≡ ok p.value) pairs
  -- Any key for which `BucketHash` ends has the value of some pair inserted, or is not found.
  pub sound :
      (key : List ℕ) (i : ℕ)
      → bucket_hash xxhash fuel db.header key ≡ ok i
      → ((p : Pair) × Member pairs p × (lookup xxhash fuel db key ≡ ok p.value))
        ⊎ (lookup xxhash fuel db key ≡ err not_found)

module _ (xxhash : List ℕ → ℕ) (done : ℕ → ℕ → Bool) (B : Borsh) (fuel : ℕ) (h : Header)
    (v : IsValid h) (small : h.value_size ≤ 252) (pairs : List Pair) (few : length pairs < 2 ^ 32)
    (b : Builder) (kept : Kept xxhash fuel h pairs b) where
  table : ℕ → List Pair
  table = kept.1

  tracks : Tracks xxhash fuel h pairs b.buckets table
  unfolding table
  tracks = kept.2

  kept-Filled : Filled xxhash done h small table 0 b.buckets
  kept-Filled =
      Filled-pointwise xxhash done h small table 0 b.buckets
        (λ k. (tracks.fits k, omega (arith, tracks.few k)))
        (λ k c e.
          subst (λ j. Holds h.value_size c (table j)) {x = k} (omega arith) (tracks.held k c e))

  kept-SealedAs :
      (file : List ℕ) → seal xxhash done b ≡ ok file → SealedAs xxhash done B h v small table file
  kept-SealedAs file e =
      seal-SealedAs xxhash done B h v small table b.buckets file tracks.count kept-Filled (
        subst (λ h. seal xxhash done (record { header = h; buckets = b.buckets }) ≡ ok file) kept.0
          e)

  kept-Answers :
      (file : List ℕ)
      → length file < 2 ^ 48
      → seal xxhash done b ≡ ok file
      → (db : Db) × (open_db B (bytes_reader file) ≡ ok db)
        × (db.header ≡ h)
        × Answers xxhash fuel pairs db
  kept-Answers file short e =
      let s = kept-SealedAs file e in
      (
        db_of xxhash done B h v small table file,
        open_db-SealedAs xxhash done B h v small table file s,
        refl,
        record {
          hits = All-pointwise _ pairs (λ j p at.
              let (i, hashed, (k, q)) = tracks.complete p (j, at) in
              lookup-hit xxhash done B h v small table file s short fuel p.key i hashed
                (omega (arith, tracks.few i)) k p q refl);
          sound = λ key i hashed.
              elim (lookup_sound xxhash done B h v small table file s short fuel key i hashed
                (omega (arith, tracks.few i))) [
                  | inl (k, p, q, found) ↦ inl (p, tracks.sound i p (k, q), found)
                  | inr missing ↦ inr missing
                ];
        },
      )

pub Kept-with_meta :
    (xxhash : List ℕ → ℕ) (fuel : ℕ) (pairs : List Pair) (m : Meta) (b : Builder) (h : Header)
    → Kept xxhash fuel h pairs b
    → Kept xxhash fuel (with_meta m (record b { header = h })).header pairs (with_meta m b)
unfolding bucket_hash
Kept-with_meta xxhash fuel pairs m b h (same, held_in, t) = (
  ap {A = Header} {B = Header} (λ h. record h { meta_data = m }) same,
  held_in,
  record {
    count = t.count;
    held = t.held;
    fits = t.fits;
    few = t.few;
    sound = t.sound;
    only = t.only;
    complete = t.complete;
  },
)

db_injective : {x y : Db} → ◌≡◌ {A = Result Error Db} (ok x) (ok y) → x ≡ y
db_injective q = cc

-- Only the number of buckets of the header counts.
pub bucket_hash-buckets :
    (xxhash : List ℕ → ℕ) (fuel : ℕ) (h k : Header) (key : List ℕ)
    → h.num_buckets ≡ k.num_buckets
    → bucket_hash xxhash fuel h key ≡ bucket_hash xxhash fuel k key
unfolding bucket_hash
bucket_hash-buckets xxhash fuel h k key e =
    ap (λ n. bucket_hash xxhash fuel (record h { num_buckets = n }) key) e

module _ (xxhash : List ℕ → ℕ) (done : ℕ → ℕ → Bool) (B : Borsh) (fuel num_items n : ℕ) (m : Meta)
    (pairs : List Pair) {b b' : Builder} {file : List ℕ} (items : num_items < 2 ^ 45)
    (small : n ≤ 252) (vm : MetaIsValid m) (fits : All (Fits n) pairs) (few : length pairs < 2 ^ 32)
    (new : new_builder_sized num_items n ≡ ok b) (filled : insert_all xxhash fuel b pairs ≡ ok b')
    (sealed : seal xxhash done (with_meta m b') ≡ ok file) (short : length file < 2 ^ 48) where
  seal-Answers :
      (db : Db) × (open_db B (bytes_reader file) ≡ ok db)
      × (db.header ≡ record { value_size = n; num_buckets = b.header.num_buckets; meta_data = m })
      × Answers xxhash fuel pairs db
  seal-Answers =
      let (lo, hi, pos, same) = new_builder_sized-inv num_items n b items new in
      let k : ℕ = b.header.num_buckets in
      let h : Header = record { value_size = n; num_buckets = k; meta_data = m } in
      let kept = Kept-with_meta xxhash fuel pairs m b' (Builder.header (empty_builder n k)) (
        insert_all-Kept xxhash fuel (Builder.header (empty_builder n k)) pairs []
          (empty_builder n k) b' fits (empty_builder-Kept xxhash fuel n k)
          (subst (λ b. insert_all xxhash fuel b pairs ≡ ok b') (sym same) filled)) in
      let v : IsValid h = record {
        value_size_pos = pos;
        value_size_lt = omega arith;
        num_buckets_pos = lo;
        num_buckets_lt = hi;
        meta_valid = vm;
      } in
      kept-Answers xxhash done B fuel h v small pairs few (with_meta m b') kept file short sealed

  -- Insert pairs into a new builder for fewer than 2 ^ 45 items and values of `n` bytes, 252 at most,
  -- where keys have fewer than 2 ^ 16 bytes and values have `n`, and there are fewer than 2 ^ 32 pairs.
  -- Give it valid metadata, and seal it. If all this succeeds and the file has fewer than 2 ^ 48
  -- bytes, then it opens, with the metadata and the size that were given, and `Lookup` of every
  -- inserted key gives the value inserted with it.
  pub lookup-seal :
      (db : Db) × (open_db B (bytes_reader file) ≡ ok db)
      × (db.header.meta_data ≡ m)
      × (db.header.value_size ≡ n)
      × All (λ p. lookup xxhash fuel db p.key ≡ ok p.value) pairs
  lookup-seal =
      let (db, opened, eq, answers) = seal-Answers in
      (db, opened, ap Header.meta_data eq, ap Header.value_size eq, answers.hits)

  -- Under the same conditions, for any key at all for which the loop of `BucketHash` ends, `Lookup`
  -- gives the value of one of the pairs inserted or reports that the key is not found.
  pub lookup-seal_any :
      (key : List ℕ) (i : ℕ) (db : Db)
      → bucket_hash xxhash fuel b.header key ≡ ok i
      → open_db B (bytes_reader file) ≡ ok db
      → ((p : Pair) × Member pairs p × (lookup xxhash fuel db key ≡ ok p.value))
        ⊎ (lookup xxhash fuel db key ≡ err not_found)
  lookup-seal_any key i db hashed opened =
      let (db', opened', eq, answers) = seal-Answers in
      let same : db' ≡ db = db_injective (sym opened' ∙ opened) in
      subst
        (λ db.
          ((p : Pair) × Member pairs p × (lookup xxhash fuel db key ≡ ok p.value))
          ⊎ (lookup xxhash fuel db key ≡ err not_found))
        same
        (answers.sound key i (
          bucket_hash-buckets xxhash fuel db'.header b.header key (ap Header.num_buckets eq)
          ∙ hashed))
