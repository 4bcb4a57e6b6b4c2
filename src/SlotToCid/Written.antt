-- ===== src/SlotToCid/Written.antt =====
-- indexes/index-slot-to-cid.go: the builder behind a writer.
use yellowstone_faithful.Prelude.{
  ℕ, ◌^◌, ◌<◌, ◌≡◌, ◌∙◌, refl, sym, ap, subst, Bool, true, false, List, [], ◌∷◌, map, length,
  Result, ok, ◌>>=◌, guard, map_err, map_err-inv, bind_ok, bind_inv, arith, All, get_elem?, set,
  or_panic,
}
use yellowstone_faithful.Bytes.Laws.{length-put_le}
use yellowstone_faithful.Indexes.{uint64tob}
use yellowstone_faithful.Meta.{Meta, new_meta}
use yellowstone_faithful.IndexMetadata.{Cids, Metadata, is_valid_network, not, set_default_metadata}
use yellowstone_faithful.CompactIndex.{bucket_hash}
use yellowstone_faithful.CompactIndex.Builder.{Builder, insert, write_tuple, new_builder_sized}
use yellowstone_faithful.CompactIndex.Tuples.{Pair, Fits}
use yellowstone_faithful.CompactIndex.Inserting.{insert-inv, insert_all}
use yellowstone_faithful.CompactIndex.NewBuilder.{new_builder_sized-inv}
use yellowstone_faithful.CompactIndex.RoundTrip.{with_meta, bucket_hash-buckets}
use yellowstone_faithful.SlotToCid.{
  Error, index, meta_data, invalid_network, invalid_root_cid, is_sealed, cid_undefined, Writer,
  new_writer, put, kind,
}

-- The metadata of the header makes no difference to an insertion.
insert-with_meta :
    (xxhash : List ℕ → ℕ) (fuel : ℕ) (m : Meta) (b c : Builder) (key value : List ℕ)
    → insert xxhash fuel (with_meta m b) key value ≡ ok c
    → (c' : Builder) × (insert xxhash fuel b key value ≡ ok c') × (with_meta m c' ≡ c)
unfolding insert
insert-with_meta xxhash fuel m b c key value e =
    let (i, bucket, hashed, at, same) = insert-inv xxhash fuel (with_meta m b) c key value e in
    (
      record b { buckets = set b.buckets i (write_tuple bucket key value) },
      bind_ok (bucket_hash xxhash fuel b.header key) _
            (bucket_hash-buckets xxhash fuel b.header (with_meta m b).header key refl ∙ hashed)
          ∙ bind_ok (or_panic (get_elem? b.buckets i)) _ (ap or_panic at),
      same,
    )

guard-not : (b : Bool) {u : Unit {0}} (x : Error) → guard (not b) x ≡ ok u → b ≡ false
unfolding not
guard-not true x e = cc
guard-not false x e = refl

module _ (C : Cids) (xxhash : List ℕ → ℕ) (fuel : ℕ) where
  open C use {Cid}

  -- What a `Put` inserts.
  abbrev pub pair_of : ℕ × Cid → Pair
  pair_of e = record { key = uint64tob e.0; value = C.bytes e.1 }

  abbrev pub put_all : Writer C → List (ℕ × Cid) → Result Error (Writer C)
  put_all w [] = ok w
  put_all w (e ∷ es) = put C xxhash fuel w e.0 e.1 >>= λ w'. put_all w' es

  writer_injective : {x y : Writer C} → ◌≡◌ {A = Result Error (Writer C)} (ok x) (ok y) → x ≡ y
  writer_injective q = cc

  pub put_all-inv :
      (m : Meta) (es : List (ℕ × Cid)) (w w' : Writer C) (b : Builder)
      → w.index ≡ with_meta m b
      → put_all w es ≡ ok w'
      → (b' : Builder) × (insert_all xxhash fuel b (map pair_of es) ≡ ok b')
        × (w'.index ≡ with_meta m b')
        × All (λ e. C.is_undef e.1 ≡ false) es
  unfolding put
  put_all-inv m [] w w' b h e = (b, refl, sym (ap Writer.index (writer_injective e)) ∙ h, tt)
  put_all-inv m (e ∷ es) w w' b h q =
      let (w₁, q₁, rest) = bind_inv (put C xxhash fuel w e.0 e.1) _ q in
      let (_, _, q₂) = bind_inv (guard (not w.sealed) is_sealed) _ q₁ in
      let (_, u, q₃) = bind_inv (guard (not (C.is_undef e.1)) cid_undefined) _ q₂ in
      let (c, q₄, q₅) =
        bind_inv (map_err index (insert xxhash fuel w.index (uint64tob e.0) (C.bytes e.1))) _ q₃ in
      let inserted =
        subst (λ i. insert xxhash fuel i (uint64tob e.0) (C.bytes e.1) ≡ ok c) h
          (map_err-inv index _ q₄) in
      let (c', q₆, same) =
        insert-with_meta xxhash fuel m b c (uint64tob e.0) (C.bytes e.1) inserted in
      let (b', q₇, end, defined) =
        put_all-inv m es w₁ w' c' (sym (ap Writer.index (writer_injective q₅)) ∙ sym same) rest in
      (
        b',
        bind_ok (insert xxhash fuel b (uint64tob e.0) (C.bytes e.1)) _ q₆ ∙ q₇,
        end,
        (guard-not (C.is_undef e.1) cid_undefined u, defined),
      )

  pub pairs-Fits :
      (es : List (ℕ × Cid))
      → All (λ e. length (C.bytes e.1) ≡ 36) es
      → All (Fits 36) (map pair_of es)
  unfolding uint64tob
  pairs-Fits [] h = tt
  pairs-Fits (e ∷ es) h = ((omega (arith, length-put_le 8 e.0), h.0), pairs-Fits es h.1)

  pub new_writer-inv :
      (epoch num_items : ℕ) (root : Cid) (network : List ℕ) (w : Writer C)
      → num_items < 2 ^ 45
      → new_writer C epoch root network num_items ≡ ok w
      → (b : Builder) × (m : Meta) × (new_builder_sized num_items 36 ≡ ok b)
        × (set_default_metadata C new_meta
              (record { epoch = epoch; root_cid = root; network = network; index_kind = kind })
            ≡ ok m)
        × (w.index ≡ with_meta m b)
  unfolding new_writer
  new_writer-inv epoch num_items root network w items e =
      let (_, _, e₁) = bind_inv (guard (is_valid_network network) invalid_network) _ e in
      let (_, _, e₂) = bind_inv (guard (not (C.is_undef root)) invalid_root_cid) _ e₁ in
      let (b, q, e₃) = bind_inv (map_err index (new_builder_sized num_items 36)) _ e₂ in
      let new = map_err-inv index _ q in
      let md : Metadata C = record {
        epoch = epoch;
        root_cid = root;
        network = network;
        index_kind = kind;
      } in
      let (m, q₂, e₄) =
        bind_inv (map_err meta_data (set_default_metadata C b.header.meta_data md)) _ e₃ in
      let (_, _, _, same) = new_builder_sized-inv num_items 36 b items new in
      (
        b,
        m,
        new,
        subst (λ b. set_default_metadata C (Builder.header b).meta_data md ≡ ok m) (sym same)
            (map_err-inv meta_data _ q₂),
        sym (ap Writer.index (writer_injective e₄)),
      )
