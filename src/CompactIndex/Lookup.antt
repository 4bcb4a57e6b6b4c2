-- ===== src/CompactIndex/Lookup.antt =====
-- compactindexsized: `Lookup` in the file that `Seal` leaves behind, for buckets with known pairs.
use yellowstone_faithful.Prelude.{
  ℕ, zero, suc, ◌+◌, ◌*◌, ◌%◌, ◌^◌, ◌<◌, ◌≤◌, ◌≡◌, ◌⊎◌, ◌∙◌, refl, sym, ap, subst, inl, inr, false,
  some, Option, Bool, List, [], ◌∷◌, ◌++◌, map, length, get_elem?, ok, err, bind_ok, arith, All,
  append_assoc, append-nil, length-append, replicate,
}
use yellowstone_faithful.Streams.{bytes_reader}
use yellowstone_faithful.Borsh.{Borsh}
use yellowstone_faithful.CompactIndex.{
  not_found, Header, header_bytes, bucket_hash, BucketHeader, bucket_store, Entry, entry_hash64,
  bucket_key_hash,
}
use yellowstone_faithful.CompactIndex.Builder.{TempBucket, seal, seal_buckets}
use yellowstone_faithful.CompactIndex.Query.{
  Db, open_db, get_bucket, load_entry, search_eytzinger, bucket_lookup, lookup_bucket, lookup,
}
use yellowstone_faithful.CompactIndex.Format.{IsValid, encode_header, header_bytes-encode}
use yellowstone_faithful.CompactIndex.Buckets.{entries_bytes}
use yellowstone_faithful.CompactIndex.Hashing.{bucket_hash-lt}
use yellowstone_faithful.CompactIndex.Tuples.{Pair, entry_for, Distinct}
use yellowstone_faithful.CompactIndex.SealedFile.{
  Filled, Placed, hdr_of, zeros, seal_buckets-Sealed,
}
use yellowstone_faithful.CompactIndex.Reading.{
  open_db-encode, bucket_of, get_bucket-bytes, load_entry-bytes,
}
use yellowstone_faithful.CompactIndex.Search.{
  Reads, search_eytzinger-sorted, length-sort_with_compare,
}

pub length-map : {A B : Type 0} (f : A → B) (xs : List A) → length (map f xs) ≡ length xs
length-map f [] = refl
length-map f (x ∷ xs) = ap suc (length-map f xs)

-- An entry of the pairs is that of one of them.
Among-map :
    (f : Pair → Entry) (ps : List Pair) (j : ℕ) (e : Entry)
    → get_elem? (map f ps) j ≡ some e
    → (p : Pair) × (get_elem? ps j ≡ some p) × (f p ≡ e)
Among-map f [] j e q = cc
Among-map f (p ∷ ps) zero e q = (p, refl, cc)
Among-map f (p ∷ ps) (suc j) e q = Among-map f ps j e q

some_injective : {a b : Entry} → ◌≡◌ {A = Option Entry} (some a) (some b) → a ≡ b
some_injective q = cc

pair_injective : {a b : Pair} → ◌≡◌ {A = Option Pair} (some a) (some b) → a ≡ b
pair_injective q = cc

-- Entries of distinct hashes are known by them.
All-at :
    (P : Entry → Type 0) (es : List Entry) (j : ℕ) (e : Entry)
    → All P es
    → get_elem? es j ≡ some e
    → P e
All-at P [] j e f q = cc
All-at P (o ∷ es) zero e f q = subst P (cc) f.0
All-at P (o ∷ es) (suc j) e f q = All-at P es j e f.1 q

Distinct-eq :
    (es : List Entry) (j k : ℕ) (a b : Entry)
    → Distinct es
    → get_elem? es j ≡ some a
    → get_elem? es k ≡ some b
    → a.hash ≡ b.hash
    → a ≡ b
Distinct-eq [] j k a b d q r e = cc
Distinct-eq (o ∷ es) zero zero a b d q r e = cc
Distinct-eq (o ∷ es) zero (suc k) a b d q r e =
    absurd (All-at _ es k b d.0 r (sym e ∙ ap Entry.hash (sym (some_injective q))))
Distinct-eq (o ∷ es) (suc j) zero a b d q r e =
    absurd (All-at _ es j a d.0 q (e ∙ ap Entry.hash (sym (some_injective r))))
Distinct-eq (o ∷ es) (suc j) (suc k) a b d q r e = Distinct-eq es j k a b d.1 q r e

get_elem?-map :
    (f : Pair → Entry) (ps : List Pair) (j : ℕ) (p : Pair)
    → get_elem? ps j ≡ some p
    → get_elem? (map f ps) j ≡ some (f p)
get_elem?-map f [] j p q = cc
get_elem?-map f (o ∷ ps) zero p q = ap (λ o. some (f o)) (pair_injective q)
get_elem?-map f (o ∷ ps) (suc j) p q = get_elem?-map f ps j p q

module _ (xxhash : List ℕ → ℕ) (done : ℕ → ℕ → Bool) (B : Borsh) (h : Header) (v : IsValid h)
    (small : h.value_size ≤ 252) (table : ℕ → List Pair) where
  front : List ℕ
  front = encode_header h

  -- The database that opens on the file.
  abbrev pub db_of : List ℕ → Db
  db_of file = record {
    header = h;
    header_size = length (encode_header h);
    stream = bytes_reader file;
    prefetch = false;
  }

  -- The file of buckets that hold the pairs of the table.
  pub record SealedAs (file : List ℕ) : Type 0 where
    pub heads : List ℕ
    pub body : List ℕ
    pub whole : file ≡ encode_header h ++ (heads ++ body)
    pub heads_length : length heads ≡ h.num_buckets * 16
    pub placed :
        (j : ℕ)
        → j < h.num_buckets
        → Placed xxhash done h small table
            (length (encode_header h) + h.num_buckets * 16)
            heads
            body
            j

  pub seal-SealedAs :
      (bs : List TempBucket) (file : List ℕ)
      → length bs ≡ h.num_buckets
      → Filled xxhash done h small table 0 bs
      → seal xxhash done (record { header = h; buckets = bs }) ≡ ok file
      → SealedAs file
  unfolding seal zeros
  seal-SealedAs bs file count filled e =
      let e₁ : seal_buckets xxhash done h (length (encode_header h)) 0 bs
            (encode_header h ++ replicate (h.num_buckets * 16) 0)
          ≡ ok file =
        sym (bind_ok (header_bytes h) _ (header_bytes-encode h v.meta_valid)) ∙ e in
      let start : encode_header h ++ replicate (h.num_buckets * 16) 0
          ≡ encode_header h ++ ([] ++ (zeros (length bs * 16) ++ [])) =
        ap (λ n. encode_header h ++ replicate (n * 16) 0) (sym count)
        ∙ ap (λ l. encode_header h ++ l) (sym (append-nil (replicate (length bs * 16) 0))) in
      let (heads, body, whole, s) =
        seal_buckets-Sealed xxhash done h small table (encode_header h)
          (length (encode_header h) + h.num_buckets * 16) 0 h.num_buckets bs [] [] file filled refl
          (omega (arith, count)) refl
          (subst (λ l. seal_buckets xxhash done h (length (encode_header h)) 0 bs l ≡ ok file) start
            e₁) in
      record {
        heads = heads;
        body = body;
        whole = whole;
        heads_length = s.heads_length;
        placed = λ j lt. s.placed j (omega arith) lt;
      }

  pub open_db-SealedAs :
      (file : List ℕ) → SealedAs file → open_db B (bytes_reader file) ≡ ok (db_of file)
  open_db-SealedAs file s =
      ap (λ l. open_db B (bytes_reader l)) s.whole
      ∙ open_db-encode B h (s.heads ++ s.body) v
      ∙ ap (λ l. ok (db_of l)) (sym s.whole)

  module _ (file : List ℕ) (s : SealedAs file) (short : length file < 2 ^ 48) (fuel : ℕ)
      (key : List ℕ) (i : ℕ) (hashed : bucket_hash xxhash fuel h key ≡ ok i)
      (few : length (table i) < 2 ^ 32) where
    in_range : i < h.num_buckets
    in_range = bucket_hash-lt xxhash fuel h key i v.num_buckets_lt hashed

    here :
        Placed xxhash done h small table
          (length (encode_header h) + h.num_buckets * 16)
          s.heads
          s.body
          i
    here = s.placed i in_range

    hdr : BucketHeader
    hdr =
        hdr_of here.domain (length (table i))
          (length (encode_header h) + h.num_buckets * 16 + length here.body_before)

    -- The file around the bucket's header, and around its entries.
    at_header :
        file
        ≡ (encode_header h ++ here.heads_before)
          ++ (bucket_store hdr ++ (here.heads_after ++ s.body))
    unfolding hdr
    at_header =
        s.whole ∙ ap (λ l. encode_header h ++ (l ++ s.body)) here.heads_split ∙ simp append_assoc

    at_entries :
        file
        ≡ (encode_header h ++ (s.heads ++ here.body_before))
          ++ (entries_bytes here.laid ++ here.body_after)
    at_entries =
        s.whole ∙ ap (λ l. encode_header h ++ (s.heads ++ l)) here.body_split ∙ simp append_assoc

    offset :
        length (encode_header h ++ (s.heads ++ here.body_before))
        ≡ length (encode_header h) + h.num_buckets * 16 + length here.body_before
    offset = omega (
      arith,
      s.heads_length,
      length-append (encode_header h) (s.heads ++ here.body_before),
      length-append s.heads here.body_before,
    )

    within : length (encode_header h) + h.num_buckets * 16 + length here.body_before < 2 ^ 48
    within = omega (
      arith,
      offset,
      ap length at_entries,
      length-append (encode_header h ++ (s.heads ++ here.body_before))
          (entries_bytes here.laid ++ here.body_after),
    )

    same_count : length here.laid ≡ length (table i)
    same_count =
        length-sort_with_compare (map (entry_for xxhash here.domain) (table i)) here.laid
          here.outcome.sorted
        ∙ length-map (entry_for xxhash here.domain) (table i)

    get_bucket-here :
        get_bucket (db_of file) i ≡ ok (bucket_of (bytes_reader file) hdr h.value_size)
    unfolding hdr
    get_bucket-here =
        ap (λ l. get_bucket (db_of l) i) at_header
        ∙ get_bucket-bytes h (encode_header h ++ here.heads_before) (here.heads_after ++ s.body) hdr
            (length (encode_header h)) i v small in_range
            (omega (arith, here.heads_at, length-append (encode_header h) here.heads_before)) refl
            (omega (arith, here.outcome.domain_lt)) few within
        ∙ ap (λ l. ok (bucket_of (bytes_reader l) hdr h.value_size)) (sym at_header)

    -- `Lookup` is the search in the bucket's entries.
    lookup-search :
        lookup xxhash fuel (db_of file) key
        ≡ search_eytzinger
            (length here.laid)
            (entry_hash64 xxhash here.domain key % 2 ^ 24)
            (load_entry (bucket_of (bytes_reader file) hdr h.value_size))
    unfolding lookup lookup_bucket bucket_lookup bucket_key_hash hdr
    lookup-search =
        bind_ok (lookup_bucket xxhash fuel (db_of file) key) _
          (bind_ok (bucket_hash xxhash fuel h key) _ hashed ∙ get_bucket-here)
        ∙ ap
            (λ c.
              search_eytzinger c (entry_hash64 xxhash here.domain key % 2 ^ 24)
                (load_entry (bucket_of (bytes_reader file) hdr h.value_size)))
            (sym same_count)

    load_entry-laid : Reads here.laid (load_entry (bucket_of (bytes_reader file) hdr h.value_size))
    unfolding hdr
    load_entry-laid k e q =
        ap (λ l. load_entry (bucket_of (bytes_reader l) hdr h.value_size) k) at_entries
        ∙ load_entry-bytes hdr h.value_size small here.laid here.outcome.fits
            (encode_header h ++ (s.heads ++ here.body_before)) here.body_after k e (sym offset)
            (sym same_count) (omega (arith, ap length at_entries)) q

    -- A pair of the bucket is found by its key.
    pub lookup-hit :
        (j : ℕ) (p : Pair)
        → get_elem? (table i) j ≡ some p
        → p.key ≡ key
        → lookup xxhash fuel (db_of file) key ≡ ok p.value
    lookup-hit j p q same =
        let f : Pair → Entry = entry_for xxhash here.domain in
        let x : ℕ = entry_hash64 xxhash here.domain key % 2 ^ 24 in
        let own : Entry.hash (f p) ≡ x =
          ap (λ k. entry_hash64 xxhash here.domain k % 2 ^ 24) same in
        elim (search_eytzinger-sorted (map f (table i)) here.laid x
          (load_entry (bucket_of (bytes_reader file) hdr h.value_size)) here.outcome.sorted
          load_entry-laid) [
            | inl (e, (k, r), hash, found) ↦
                let eq =
                  Distinct-eq (map f (table i)) k j e (f p) here.outcome.distinct r
                    (get_elem?-map f (table i) j p q) (hash ∙ sym own) in
                lookup-search ∙ found ∙ ap (λ e. ok (Entry.value e)) eq
            | inr (missing, _) ↦
                absurd
                  (All-at _ (map f (table i)) j (f p) missing (get_elem?-map f (table i) j p q) own)
          ]

    -- What is found belongs to a pair of the bucket; else the key is not found.
    pub lookup_sound :
        ((j : ℕ) × (p : Pair) × (get_elem? (table i) j ≡ some p)
          × (lookup xxhash fuel (db_of file) key ≡ ok p.value))
        ⊎ (lookup xxhash fuel (db_of file) key ≡ err not_found)
    lookup_sound =
        let f : Pair → Entry = entry_for xxhash here.domain in
        elim (search_eytzinger-sorted (map f (table i)) here.laid
          (entry_hash64 xxhash here.domain key % 2 ^ 24)
          (load_entry (bucket_of (bytes_reader file) hdr h.value_size)) here.outcome.sorted
          load_entry-laid) [
            | inl (e, (k, r), _, found) ↦
                let (p, q, same) = Among-map f (table i) k e r in
                inl (k, p, q, lookup-search ∙ found ∙ ap (λ e. ok (Entry.value e)) (sym same))
            | inr (_, missing) ↦ inr (lookup-search ∙ missing)
          ]
