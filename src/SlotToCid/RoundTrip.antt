-- ===== src/SlotToCid/RoundTrip.antt =====
-- indexes/index-slot-to-cid.go: writing an index and reading it.
use yellowstone_faithful.Prelude.{
  ℕ, ◌^◌, ◌<◌, ◌≤◌, ◌≡◌, ◌∙◌, refl, sym, ap, subst, map_err-inv, leb, zero, suc, Bool-cases, inl,
  inr, length-take, not_ltb, Bool, true, false, ltb, List, [], ◌∷◌, ◌++◌, map, length, take, none,
  some, Result, ok, guard, map_err, bind_ok, bind_inv, guard-true, arith, All, set, if_false,
}
use yellowstone_faithful.Bytes.{bytes_equal}
use yellowstone_faithful.Bytes.Laws.{length-put_le, bytes_equal_iff, bytes_equal_self}
use yellowstone_faithful.Streams.{ReaderAt, ReadResult, bytes_reader}
use yellowstone_faithful.Borsh.{Borsh}
use yellowstone_faithful.Indexes.{uint64tob}
use yellowstone_faithful.Indexes.Numbers.{uint64_lem}
use yellowstone_faithful.Meta.{
  Meta, new_meta, add, get_from, max_num_kvs, max_key_size, max_value_size, too_many_kvs,
  key_too_long, value_too_long,
}
use yellowstone_faithful.Meta.{get as meta_get}
use yellowstone_faithful.Meta.RoundTrip.{IsValid as MetaIsValid}
use yellowstone_faithful.IndexMetadata
use yellowstone_faithful.IndexMetadata.{
  Cids, Metadata, is_valid_network, not, set_default_metadata, get_default_metadata, epoch_key,
  root_cid_key, network_key, found, epoch_of, root_cid_undefined, invalid_network, kind_empty,
  bad_cid,
}
use yellowstone_faithful.CompactIndex.{Header, bucket_hash}
use yellowstone_faithful.CompactIndex
use yellowstone_faithful.CompactIndex.Builder.{kind_key}
use yellowstone_faithful.CompactIndex.{magic, invalid_magic}
use yellowstone_faithful.CompactIndex.Builder
use yellowstone_faithful.CompactIndex.Query.{Db, open_db, read_filled, fail, lookup}
use yellowstone_faithful.CompactIndex.Lookup.{length-map}
use yellowstone_faithful.SlotToCid
use yellowstone_faithful.CompactIndex.Tuples.{Pair}
use yellowstone_faithful.CompactIndex.RoundTrip.{with_meta, lookup-seal}
use yellowstone_faithful.SlotToCid.{
  Error, index, meta_data, is_sealed, Writer, Reader, current, new_writer, put, seal,
  is_file_old_format, open_current, open_with_reader, reader_meta, old_magic, invalid_root_cid,
  wrong_kind, cid_or_fail, lookup_in, get, kind,
}
use yellowstone_faithful.SlotToCid.Written.{
  put_all, pair_of, put_all-inv, pairs-Fits, new_writer-inv,
}

-- The metadata that `setDefaultMetadata` makes of none.
abbrev default_meta : (C : Cids) → Metadata C → Meta
default_meta C m = record {
  key_vals =
      (record { key = epoch_key; value = uint64tob m.epoch })
      ∷ (record { key = root_cid_key; value = C.bytes m.root_cid })
      ∷ (record { key = network_key; value = m.network })
      ∷ (record { key = kind_key; value = m.index_kind })
      ∷ [];
}

not-false : (b : Bool) {u : Unit {0}} (x : IndexMetadata.Error) → guard (not b) x ≡ ok u → b ≡ false
unfolding not
not-false true x e = cc
not-false false x e = refl

not-true : (b : Bool) → b ≡ false → not b ≡ true
unfolding not
not-true true h = cc
not-true false h = refl

guard-inv : (b : Bool) {u : Unit {0}} (x : IndexMetadata.Error) → guard b x ≡ ok u → b ≡ true
guard-inv true x e = refl
guard-inv false x e = cc

module _ (C : Cids) (m : Metadata C) where
  abbrev IsDefault : Meta → Type 0
  IsDefault set =
      (set ≡ default_meta C m)
      × (C.is_undef m.root_cid ≡ false)
      × (is_valid_network m.network ≡ true)
      × (length (C.bytes m.root_cid) ≤ 255)
      × (length m.network ≤ 255)
      × (length m.index_kind ≤ 255)

  add-inv :
      (before : Meta) (key value : List ℕ) {after : Meta}
      → map_err IndexMetadata.meta (add before key value) ≡ ok after
      → (after
          ≡ record { key_vals = before.key_vals ++ ((record { key = key; value = value }) ∷ []) })
        × (length value ≤ 255)
  unfolding add
  add-inv before key value e =
      let q = map_err-inv IndexMetadata.meta (add before key value) e in
      let (_, _, q₁) =
        bind_inv (guard (ltb (length before.key_vals) max_num_kvs) too_many_kvs) _ q in
      let (_, _, q₂) = bind_inv (guard (leb (length key) max_key_size) key_too_long) _ q₁ in
      let (_, short, q₃) =
        bind_inv (guard (leb (length value) max_value_size) value_too_long) _ q₂ in
      (cc q₃, ground arith)

  set_default_metadata-inv :
      (set : Meta) → set_default_metadata C new_meta m ≡ ok set → IsDefault set
  unfolding set_default_metadata
  set_default_metadata-inv set e =
      let put_kv : List ℕ → List ℕ → Meta → Meta =
        λ k v t. record { key_vals = Meta.key_vals t ++ ((record { key = k; value = v }) ∷ []) } in
      let (m₁, q₁, e₁) =
        bind_inv (map_err IndexMetadata.meta (add new_meta epoch_key (uint64tob m.epoch))) _ e in
      let (s₁, _) = add-inv new_meta epoch_key (uint64tob m.epoch) q₁ in
      let (_, u, e₂) = bind_inv (guard (not (C.is_undef m.root_cid)) root_cid_undefined) _ e₁ in
      let (m₂, q₂, e₃) =
        bind_inv (map_err IndexMetadata.meta (add m₁ root_cid_key (C.bytes m.root_cid))) _ e₂ in
      let (s₂, l₂) = add-inv m₁ root_cid_key (C.bytes m.root_cid) q₂ in
      let (_, n, e₄) = bind_inv (guard (is_valid_network m.network) invalid_network) _ e₃ in
      let (m₃, q₃, e₅) =
        bind_inv (map_err IndexMetadata.meta (add m₂ network_key m.network)) _ e₄ in
      let (s₃, l₃) = add-inv m₂ network_key m.network q₃ in
      let (_, _, e₆) = bind_inv (guard (ltb 0 (length m.index_kind)) kind_empty) _ e₅ in
      let (s₄, l₄) = add-inv m₃ kind_key m.index_kind e₆ in
      (
        s₄
            ∙ ap (put_kv kind_key m.index_kind) (
                s₃
                ∙ ap (put_kv network_key m.network)
                    (s₂ ∙ ap (put_kv root_cid_key (C.bytes m.root_cid)) s₁)),
        not-false (C.is_undef m.root_cid) root_cid_undefined u,
        guard-inv (is_valid_network m.network) invalid_network n,
        l₂,
        l₃,
        l₄,
      )

  get-default :
      m.epoch < 2 ^ 64
      → C.is_undef m.root_cid ≡ false
      → get_default_metadata C (default_meta C m) ≡ ok m
  unfolding get_default_metadata found epoch_of meta_get get_from bytes_equal
  get-default he hc =
      bind_ok (epoch_of (uint64tob m.epoch)) _ (rw (uint64_lem m.epoch he, epoch_of) refl)
      ∙ bind_ok (found (C.cast (C.bytes m.root_cid)) bad_cid) _
          (rw (C.cast_lem m.root_cid hc, found) refl)

take-take : (m n : ℕ) (xs : List ℕ) → m ≤ n → take m (take n xs) ≡ take m xs
take-take zero n xs h = refl
take-take (suc m) zero xs h = absurd (omega arith)
take-take (suc m) (suc n) [] h = refl
take-take (suc m) (suc n) (x ∷ xs) h = ap (λ l. x ∷ l) (take-take m n xs (omega arith))

read_filled-inv :
    (file : List ℕ) (n : ℕ) {got : List ℕ}
    → read_filled (bytes_reader file) 0 n ≡ ok got
    → (got ≡ take n file) × (n ≤ length file)
unfolding read_filled bytes_reader fail
read_filled-inv file n e = elim (Bool-cases (ltb (length (take n file)) n)) [
  | inl short ↦ cc (rw short at e)
  | inr full ↦ let k = length-take n file in (cc (rw full at e), ground arith)
]

read_whole : (file : List ℕ) → 8 ≤ length file → ReadResult.error (bytes_reader file 0 8) ≡ none
unfolding bytes_reader
read_whole file h =
    let k = length-take 8 file in if_false _ _ _ (not_ltb (length (take 8 file)) 8 (omega arith))

not_old : bytes_equal magic old_magic ≡ false
unfolding bytes_equal
not_old = refl

guard-equal : (b : Bool) {u : Unit {0}} (x : CompactIndex.Error) → guard b x ≡ ok u → b ≡ true
guard-equal true x e = refl
guard-equal false x e = cc

-- A file that `Open` of compactindexsized takes is none of the old format.
open_db-new :
    (B : Borsh) (file : List ℕ) (db : Db)
    → open_db B (bytes_reader file) ≡ ok db
    → is_file_old_format (bytes_reader file) ≡ ok false
unfolding open_db is_file_old_format bytes_reader
open_db-new B file db e =
    let (got, q, e₁) = bind_inv (read_filled (bytes_reader file) 0 12) _ e in
    let (_, g, _) = bind_inv (guard (bytes_equal (take 8 got) magic) invalid_magic) _ e₁ in
    let (same, enough) = read_filled-inv file 12 q in
    let start : take 8 file ≡ magic =
      sym (take-take 8 12 file (omega arith))
      ∙ ap (take 8) (sym same)
      ∙ (bytes_equal_iff (take 8 got) magic).0 (guard-equal _ invalid_magic g) in
    rw (read_whole file (omega arith), is_file_old_format)
      (ap (λ l. ok (bytes_equal l old_magic)) start ∙ ap ok not_old)

All-unmap :
    (C : Cids) (P : Pair → Type 0) (es : List (ℕ × Cids.Cid C)) (f : ℕ × Cids.Cid C → Pair)
    → All P (map f es)
    → All (λ e. P (f e)) es
All-unmap C P [] f h = tt
All-unmap C P (e ∷ es) f h = (h.0, All-unmap C P es f h.1)

file_injective :
    {A : Type 0} {x y : List ℕ × A} → ◌≡◌ {A = Result Error (List ℕ × A)} (ok x) (ok y) → x ≡ y
file_injective q = cc

module _ (C : Cids) (xxhash : List ℕ → ℕ) (done : ℕ → ℕ → Bool) (B : Borsh) (fuel : ℕ) where
  open C use {Cid}

  found_cid : (c : Cid) → cid_or_fail C (some c) ≡ ok c
  unfolding cid_or_fail
  found_cid c = refl

  default_meta-IsValid :
      (m : Metadata C) (t : Meta) → IsDefault C m t → MetaIsValid (default_meta C m)
  unfolding uint64tob
  default_meta-IsValid m t (_, _, _, l₂, l₃, l₄) = (
    omega arith,
    (
      (omega arith, omega (arith, length-put_le 8 m.epoch)),
      ((omega arith, l₂), ((omega arith, l₃), ((omega arith, l₄), tt))),
    ),
  )

  gets :
      (md : Metadata C) (db : Db) (es : List (ℕ × Cid))
      → All (λ p. lookup xxhash fuel db p.key ≡ ok p.value) (map (pair_of C xxhash fuel) es)
      → All (λ e. C.is_undef e.1 ≡ false) es
      → All (λ e. get C xxhash fuel (current md db) e.0 ≡ ok e.1) es
  unfolding get lookup_in
  gets md db [] h d = tt
  gets md db (e ∷ es) h d = (
    bind_ok (map_err index (lookup xxhash fuel db (uint64tob e.0))) _ (ap (map_err index) h.0)
        ∙ ap (cid_or_fail C) (C.cid_from_bytes_lem e.1 d.0)
        ∙ found_cid e.1,
    gets md db es h.1 d.1,
  )

  -- Make a writer for fewer than 2 ^ 45 items, put CIDs of 36 bytes in it, fewer than 2 ^ 32, and seal
  -- it. If all this succeeds, and the file has fewer than 2 ^ 48 bytes, then
  -- `OpenWithReader_SlotToCid` opens it, with the metadata that the writer was made with, and `Get` of
  -- each slot gives the CID that was put.
  pub get-put_all :
      (open_old : ReaderAt
        → Result CompactIndex.Error (List ℕ → Result CompactIndex.Error (List ℕ)))
      (epoch num_items : ℕ) (root : Cid) (network : List ℕ) (es : List (ℕ × Cid))
      {w w' w'' : Writer C} {file : List ℕ}
      → epoch < 2 ^ 64
      → num_items < 2 ^ 45
      → All (λ e. length (C.bytes e.1) ≡ 36) es
      → length es < 2 ^ 32
      → new_writer C epoch root network num_items ≡ ok w
      → put_all C xxhash fuel w es ≡ ok w'
      → seal C xxhash done w' ≡ ok (file, w'')
      → length file < 2 ^ 48
      → (r : Reader C) × (open_with_reader C B open_old (bytes_reader file) ≡ ok r)
        × (reader_meta C r
            ≡ some
                (record { epoch = epoch; root_cid = root; network = network; index_kind = kind }))
        × All (λ e. get C xxhash fuel r e.0 ≡ ok e.1) es
  unfolding open_with_reader open_current seal reader_meta
  get-put_all open_old epoch num_items root network es {w} {w'} {w''} {file} he items fits few new
        filled sealed short =
      let md : Metadata C = record {
        epoch = epoch;
        root_cid = root;
        network = network;
        index_kind = kind;
      } in
      let (b, m, q, set, same) =
        new_writer-inv C xxhash fuel epoch num_items root network w items new in
      let ok_set = set_default_metadata-inv C md m set in
      let (b', inserted, same', defined) = put_all-inv C xxhash fuel m es w w' b same filled in
      let (_, _, e₁) = bind_inv (guard (not w'.sealed) is_sealed) _ sealed in
      let (file', s, e₂) = bind_inv (map_err index (Builder.seal xxhash done w'.index)) _ e₁ in
      let whole : Builder.seal xxhash done (with_meta m b') ≡ ok file =
        subst (λ i. Builder.seal xxhash done i ≡ ok file) same'
          (map_err-inv index _ s ∙ ap (λ p. ok p.0) (file_injective e₂)) in
      let vm : MetaIsValid m =
        subst MetaIsValid (sym ok_set.0) (default_meta-IsValid md m ok_set) in
      let ps : List Pair = map (pair_of C xxhash fuel) es in
      let (db, opened, meta_same, _, hits) =
        lookup-seal xxhash done B fuel num_items 36 m ps {b = b} {b' = b'} {file = file} items
          (omega arith) vm (pairs-Fits C xxhash fuel es fits)
          (omega (arith, length-map (pair_of C xxhash fuel) es)) q inserted whole short in
      (
        current md db,
        bind_ok (is_file_old_format (bytes_reader file)) _ (open_db-new B file db opened)
            ∙ bind_ok (map_err index (open_db B (bytes_reader file))) _ (ap (map_err index) opened)
            ∙ bind_ok (map_err meta_data (get_default_metadata C db.header.meta_data)) _ (
                ap (λ t. map_err meta_data (get_default_metadata C t)) (meta_same ∙ ok_set.0)
                ∙ ap (map_err meta_data) (get-default C md he ok_set.1))
            ∙ bind_ok (guard (is_valid_network network) SlotToCid.invalid_network) _
                (guard-true _ SlotToCid.invalid_network ok_set.2)
            ∙ bind_ok (guard (not (C.is_undef root)) invalid_root_cid) _
                (guard-true _ invalid_root_cid (not-true (C.is_undef root) ok_set.1))
            ∙ bind_ok (guard (bytes_equal kind kind) wrong_kind) _
                (guard-true _ wrong_kind (bytes_equal_self kind)),
        refl,
        gets md db es hits defined,
      )
