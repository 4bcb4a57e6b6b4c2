-- ===== src/CompactIndex/Sealing.antt =====
-- compactindexsized/build.go: when `Seal` succeeds.
use yellowstone_faithful.Prelude.{
  ℕ, ◌+◌, ◌*◌, ◌^◌, ◌<◌, ◌≤◌, ◌≡◌, ◌⊎◌, ◌∙◌, refl, sym, ap, subst, inl, inr, false, Bool, List, [],
  ◌∷◌, ◌++◌, map, length, replicate, ok, err, bind_ok, bind_err, arith, All,
}
use yellowstone_faithful.Meta.{Meta}
use yellowstone_faithful.Meta.RoundTrip.{IsValid as MetaIsValid}
use yellowstone_faithful.CompactIndex.{Header, collision, header_bytes}
use yellowstone_faithful.CompactIndex.Builder.{
  Builder, TempBucket, new_builder_sized, mine, seal_bucket, seal_buckets, seal,
}
use yellowstone_faithful.CompactIndex.Format.{encode_header, header_bytes-encode}
use yellowstone_faithful.CompactIndex.Tuples.{Pair, Fits, Holds, entry_for, Distinct}
use yellowstone_faithful.CompactIndex.Mining.{mine-Mined}
use yellowstone_faithful.CompactIndex.Attempts.{mine-cases}
use yellowstone_faithful.CompactIndex.SealedFile.{Filled, seal_bucket-mined}
use yellowstone_faithful.CompactIndex.Inserting.{insert_all, in_bucket, Kept, insert_all-Kept}
use yellowstone_faithful.CompactIndex.NewBuilder.{
  empty_builder, empty_builder-Kept, new_builder_sized-inv, Filled-pointwise,
}
use yellowstone_faithful.CompactIndex.RoundTrip.{with_meta, Kept-with_meta}

-- Whatever the domain, two of the pairs have one hash.
abbrev pub Collide : (List ℕ → ℕ) → List Pair → Type 0
Collide xxhash ps = (d : ℕ) → d < 1000 → ¬ Distinct (map (entry_for xxhash d) ps)

module _ (xxhash : List ℕ → ℕ) (done : ℕ → ℕ → Bool) (calm : (i d : ℕ) → done i d ≡ false)
    (h : Header) (small : h.value_size ≤ 252) where
  seal_bucket-cases :
      (header_size i : ℕ) (b : TempBucket) (ps : List Pair) (file : List ℕ)
      → Holds h.value_size b ps
      → All (Fits h.value_size) ps
      → length ps < 2 ^ 32
      → ((out : List ℕ) × (seal_bucket xxhash done h header_size i b file ≡ ok out))
        ⊎ ((seal_bucket xxhash done h header_size i b file ≡ err collision) × Collide xxhash ps)
  unfolding seal_bucket
  seal_bucket-cases header_size i b ps file holds f few =
      elim (mine-cases xxhash (done i) (calm i) h.value_size b ps holds f) [
        | inl ((laid, domain), q) ↦
            let m = mine-Mined xxhash (done i) h.value_size b ps laid domain holds f q in
            inl (
              _,
              seal_bucket-mined xxhash done h small header_size i b ps file laid domain holds few
                  m.fits q,
            )
        | inr (q, others) ↦ inr (bind_err (mine xxhash (done i) b 1000) _ q, others)
      ]

  seal_buckets-cases :
      (table : ℕ → List Pair) (header_size i : ℕ) (bs : List TempBucket) (file : List ℕ)
      → Filled xxhash done h small table i bs
      → ((out : List ℕ) × (seal_buckets xxhash done h header_size i bs file ≡ ok out))
        ⊎ ((seal_buckets xxhash done h header_size i bs file ≡ err collision)
            × (k : ℕ) × (k < i + length bs)
            × Collide xxhash (table k))
  unfolding seal_buckets
  seal_buckets-cases table header_size i [] file f = inl (file, refl)
  seal_buckets-cases table header_size i (b ∷ bs) file f =
      let next = seal_buckets xxhash done h header_size (i + 1) bs in
      elim (seal_bucket-cases header_size i b (table i) file f.0 f.1 f.2) [
        | inr (q, others) ↦ inr (bind_err _ next q, i, omega arith, others)
        | inl (out, q) ↦
            let start = bind_ok (seal_bucket xxhash done h header_size i b file) next q in
            elim (seal_buckets-cases table header_size (i + 1) bs out f.3) [
              | inl (end, e) ↦ inl (end, start ∙ e)
              | inr (e, k, lt, others) ↦ inr (start ∙ e, k, omega arith, others)
            ]
      ]

  Kept-cases :
      (fuel : ℕ) (pairs : List Pair) (b : Builder)
      → MetaIsValid h.meta_data
      → length pairs < 2 ^ 32
      → Kept xxhash fuel h pairs b
      → ((file : List ℕ) × (seal xxhash done b ≡ ok file))
        ⊎ ((seal xxhash done b ≡ err collision)
            × (i : ℕ) × (i < h.num_buckets)
            × Collide xxhash (in_bucket xxhash fuel h i pairs))
  unfolding seal
  Kept-cases fuel pairs b vm few (same, table, t) =
      let front : List ℕ = encode_header h in
      let start : List ℕ = front ++ replicate (h.num_buckets * 16) 0 in
      let e : seal xxhash done b ≡ seal_buckets xxhash done h (length front) 0 b.buckets start =
        ap (λ h. seal xxhash done (record { header = h; buckets = b.buckets })) same
        ∙ bind_ok (header_bytes h) _ (header_bytes-encode h vm) in
      let full =
        Filled-pointwise xxhash done h small table 0 b.buckets
          (λ k. (t.fits k, omega (arith, t.few k)))
          (λ k c e.
            subst (λ j. Holds h.value_size c (table j)) {x = k} (omega arith) (t.held k c e)) in
      elim (seal_buckets-cases table (length front) 0 b.buckets start full) [
        | inl (file, q) ↦ inl (file, e ∙ q)
        | inr (q, i, lt, others) ↦
            inr (e ∙ q, i, omega (arith, t.count), subst (Collide xxhash) (t.only i) others)
      ]

-- Insert pairs into a new builder, under the conditions of the round trip, give it valid metadata, and
-- seal it with a context that is never done. Then `Seal` succeeds, or it fails with `ErrCollision`, and
-- then there is a bucket for whose keys each of the 1000 domains makes two of the 24-bit hashes equal.
-- It does not fail in another way, panic, or go on for ever.
pub seal-cases :
    (xxhash : List ℕ → ℕ) (done : ℕ → ℕ → Bool) (fuel num_items n : ℕ) (m : Meta)
    (pairs : List Pair) {b b' : Builder}
    → num_items < 2 ^ 45
    → n ≤ 252
    → MetaIsValid m
    → All (Fits n) pairs
    → length pairs < 2 ^ 32
    → new_builder_sized num_items n ≡ ok b
    → insert_all xxhash fuel b pairs ≡ ok b'
    → ((i d : ℕ) → done i d ≡ false)
    → ((file : List ℕ) × (seal xxhash done (with_meta m b') ≡ ok file))
      ⊎ ((seal xxhash done (with_meta m b') ≡ err collision)
          × (i : ℕ) × (i < b'.header.num_buckets)
          × Collide xxhash (in_bucket xxhash fuel (with_meta m b').header i pairs))
seal-cases xxhash done fuel num_items n m pairs {b} {b'} items small vm fits few new filled calm =
    let (lo, hi, pos, same) = new_builder_sized-inv num_items n b items new in
    let h₀ : Header = Builder.header (empty_builder n b.header.num_buckets) in
    let inserted =
      insert_all-Kept xxhash fuel h₀ pairs [] (empty_builder n b.header.num_buckets) b' fits
        (empty_builder-Kept xxhash fuel n b.header.num_buckets)
        (subst (λ b. insert_all xxhash fuel b pairs ≡ ok b') (sym same) filled) in
    let kept = Kept-with_meta xxhash fuel pairs m b' h₀ inserted in
    let h : Header = (with_meta m b').header in
    Kept-cases xxhash done calm h (subst (λ h. Header.value_size h ≤ 252) (sym kept.0) small) fuel
      pairs (with_meta m b') vm few
      (subst (λ h. Kept xxhash fuel h pairs (with_meta m b')) (sym kept.0) kept)
