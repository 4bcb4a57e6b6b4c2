-- ===== src/Bucketteer/Buckets.antt =====
-- bucketteer/write.go: where the loop of `seal` over the prefixes puts the buckets.
use yellowstone_faithful.Prelude.{
  ℕ, zero, suc, ◌+◌, ◌*◌, ◌%◌, ◌^◌, ◌≤◌, ◌<◌, ◌≡◌, refl, sym, ◌∙◌, List, [], ◌∷◌, ◌++◌, length,
  Result, ok, arith, length-append, append_assoc, append-nil, ℕ_discrete,
}
use yellowstone_faithful.Bytes.{put_le}
use yellowstone_faithful.Bytes.Laws.{length-put_le}
use yellowstone_faithful.Sorting.{sort_by, length-sort_by}
use yellowstone_faithful.Eytzinger.Layout.{layout_total}
use yellowstone_faithful.Bucketteer.{BucketError, PrefixToHashes, update}
use yellowstone_faithful.Bucketteer.Writer.{
  Sealing, sort_with_compare, get_clean_set, hash_bytes, bucket_bytes, seal_bucket, seal_buckets,
}
use yellowstone_faithful.Bucketteer.CleanSet.{get_clean_set_lem}

-- The bytes of a bucket's header, and of the largest bucket.
abbrev pub bucket_limit : ℕ
bucket_limit = 2 ^ 29

value_or_nil : Result BucketError (List ℕ) → List ℕ
value_or_nil (ok x) = x
value_or_nil _ = []

-- The hashes of a bucket in the order of the file.
pub laid : List ℕ → List ℕ
unfolding value_or_nil
laid hashes = value_or_nil (sort_with_compare (get_clean_set hashes))

pub sort_with_compare-laid :
    (hashes : List ℕ)
    → (sort_with_compare (get_clean_set hashes) ≡ ok (laid hashes))
      × (length (laid hashes) ≤ length hashes)
unfolding laid sort_with_compare
sort_with_compare-laid hashes =
    let clean : List ℕ = get_clean_set hashes in
    let (out, e, same, _) = layout_total {E = BucketError} 0 (sort_by (λ x. x) clean) in
    let (_, _, fewer) = get_clean_set_lem hashes in
    rw e (refl, omega (arith, length-sort_by (λ x. x) clean))

length-hash_bytes : (hs : List ℕ) → length (hash_bytes hs) ≡ length hs * 8
unfolding hash_bytes
length-hash_bytes [] = refl
length-hash_bytes (h ∷ hs) =
    omega
      (arith, length-append (put_le 8 h) (hash_bytes hs), length-put_le 8 h, length-hash_bytes hs)

pub length-bucket_bytes : (hs : List ℕ) → length (bucket_bytes hs) ≡ 4 + length hs * 8
unfolding bucket_bytes
length-bucket_bytes hs = omega (
  arith,
  length-append (put_le 4 (length hs % 2 ^ 32)) (hash_bytes hs),
  length-put_le 4 (length hs % 2 ^ 32),
  length-hash_bytes hs,
)

module _ (hashes : PrefixToHashes) (small : (p : ℕ) → length (hashes p) < bucket_limit) where
  -- `base` bytes of header stand in front of the buckets, and the next bucket comes last.
  pub record Aligned (base i : ℕ) (s : Sealing) : Type 0 where
    pub length_out : length s.out ≡ base + s.previous_offset
    pub within : s.previous_offset ≤ i * (4 + 2 ^ 32)
    pub total : s.total_written ≡ length s.out

  -- The state behind the round for `i`.
  stepped : ℕ → Sealing → Sealing
  stepped i s = record {
    out = s.out ++ bucket_bytes (laid (hashes i));
    prefix_to_offset = update s.prefix_to_offset i s.previous_offset;
    previous_offset = (s.previous_offset + (4 + length (laid (hashes i)) * 8)) % 2 ^ 64;
    total_written = s.total_written + (4 + length (laid (hashes i)) * 8);
  }

  seal_bucket-ok : (i : ℕ) (s : Sealing) → seal_bucket hashes i s ≡ ok (stepped i s)
  unfolding seal_bucket stepped
  seal_bucket-ok i s = rw (sort_with_compare-laid (hashes i)).0

  stepped-Aligned :
      (base i : ℕ) (s : Sealing) → i < 65536 → Aligned base i s → Aligned base (i + 1) (stepped i s)
  unfolding stepped
  stepped-Aligned base i s h a = omega (
    arith,
    length-append s.out (bucket_bytes (laid (hashes i))),
    length-bucket_bytes (laid (hashes i)),
    (sort_with_compare-laid (hashes i)).1,
    small i,
  )

  -- The bucket of `p` stands in the output where the table says.
  abbrev pub Placed : ℕ → Sealing → ℕ → Type 0
  Placed base s p =
      (front : List ℕ) × (back : List ℕ) × (s.out
        ≡ front ++ (bucket_bytes (laid (hashes p)) ++ back))
      × (length front ≡ base + s.prefix_to_offset p)

  -- What the rounds from `i` up to `j` have done to `s`.
  pub record Sealed (base i j : ℕ) (s after : Sealing) : Type 0 where
    pub aligned : Aligned base j after
    pub tail : List ℕ
    pub grown : after.out ≡ s.out ++ tail
    pub before : (p : ℕ) → p < i → after.prefix_to_offset p ≡ s.prefix_to_offset p
    pub placed : (p : ℕ) → i ≤ p → p < j → Placed base after p
    pub bounded : (p : ℕ) → i ≤ p → p < j → after.prefix_to_offset p ≤ p * (4 + 2 ^ 32)

  none-Sealed : (base i j : ℕ) (s : Sealing) → j ≡ i → Aligned base i s → Sealed base i j s s
  none-Sealed base i j s e a = record {
    aligned = rw e a;
    tail = [];
    grown = sym (append-nil s.out);
    before = λ p _. refl;
    placed = λ p lo hi. absurd (omega arith);
    bounded = λ p lo hi. absurd (omega arith);
  }

  module _ (base i j : ℕ) (s after : Sealing) (a : Aligned base i s)
      (r : Sealed base (i + 1) j (stepped i s) after) where
    own_offset : after.prefix_to_offset i ≡ s.previous_offset
    unfolding stepped
    own_offset = r.before i (omega arith) ∙ ground arith

    own-Placed : Placed base after i
    unfolding stepped
    own-Placed = (
      s.out,
      r.tail,
      r.grown ∙ append_assoc s.out (bucket_bytes (laid (hashes i))) r.tail,
      omega (arith, own_offset, a.length_out),
    )

    step-Sealed : Sealed base i j s after
    unfolding stepped
    step-Sealed = record {
      aligned = r.aligned;
      tail = bucket_bytes (laid (hashes i)) ++ r.tail;
      grown = r.grown ∙ append_assoc s.out (bucket_bytes (laid (hashes i))) r.tail;
      before = λ p h. r.before p (omega arith) ∙ ground arith;
      placed = λ p lo hi. elim (ℕ_discrete p i) [
        | yes e ↦ rw e own-Placed
        | no ne ↦ r.placed p (omega arith) hi
      ];
      bounded = λ p lo hi. elim (ℕ_discrete p i) [
        | yes e ↦ rw e (omega (arith, own_offset, a.within))
        | no ne ↦ r.bounded p (omega arith) hi
      ];
    }

  pub seal_buckets-Sealed :
      (base n i j : ℕ) (s : Sealing)
      → Aligned base i s
      → j ≡ i + n
      → j ≤ 65536
      → (after : Sealing) × (seal_buckets n i hashes s ≡ ok after) × Sealed base i j s after
  unfolding seal_buckets
  seal_buckets-Sealed base zero i j s a e h = (s, refl, none-Sealed base i j s (omega arith) a)
  seal_buckets-Sealed base (suc n) i j s a e h =
      let (after, q, r) =
        seal_buckets-Sealed base n (i + 1) j (stepped i s)
          (stepped-Aligned base i s (omega arith) a) (omega arith) h in
      (after, rw (seal_bucket-ok i s) q, step-Sealed base i j s after a r)
