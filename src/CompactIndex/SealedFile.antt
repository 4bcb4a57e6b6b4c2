-- ===== src/CompactIndex/SealedFile.antt =====
-- compactindexsized/build.go: the file that `Seal` leaves behind.
use yellowstone_faithful.Prelude.{
  ℕ, zero, suc, ◌+◌, ◌*◌, ◌%◌, ◌^◌, ◌<◌, ◌≤◌, ◌≡◌, ◌∙◌, sym, ap, ap₂, subst, Bool, List, [], ◌∷◌,
  ◌++◌, length, drop, replicate, Result, ok, bind_inv, bind_ok, arith, All, All-imp, append_assoc,
  append-nil, ◌>>=◌, length-append, length-replicate, take-append, drop-append, ℕ_discrete,
}
use yellowstone_faithful.CompactIndex.{Error, Header, BucketHeader, bucket_store, Entry}
use yellowstone_faithful.CompactIndex.Builder.{
  TempBucket, mine, marshal_entries, write_at, entry_stride, seal_bucket, seal_buckets,
}
use yellowstone_faithful.CompactIndex.Buckets.{
  length-bucket_store, descriptor, entries_bytes, marshal_entries-bytes,
}
use yellowstone_faithful.CompactIndex.Tuples.{Pair, Fits, Holds}
use yellowstone_faithful.CompactIndex.Mining.{EntryFits, Mined, mine-Mined}

write_at-inside :
    (pre old suf bs : List ℕ) (off : ℕ)
    → off ≡ length pre
    → length old ≡ length bs
    → write_at (pre ++ (old ++ suf)) off bs ≡ pre ++ (bs ++ suf)
unfolding write_at
write_at-inside pre old suf bs off h₁ h₂ =
    ap₂ (λ xs ys. xs ++ (bs ++ ys)) (take-append pre (old ++ suf) off h₁)
      (ap (drop (off + length bs)) (sym (append_assoc pre old suf))
        ∙ drop-append (pre ++ old) suf (off + length bs) (omega (arith, length-append pre old)))

-- `n` bytes that are zero.
unfoldable pub zeros : ℕ → List ℕ
zeros n = replicate n 0

zeros-add : (a b : ℕ) → zeros (a + b) ≡ zeros a ++ zeros b
unfolding zeros
zeros-add zero b = ap (λ k. replicate k 0) {x = 0 + b} (omega arith)
zeros-add (suc a) b =
    ap (λ k. replicate k 0) {x = suc a + b} {y = suc (a + b)} (omega arith)
    ∙ ap (λ l. 0 ∷ l) (zeros-add a b)

pub entry_stride-eq : (n : ℕ) → n ≤ 252 → entry_stride n ≡ 3 + n
unfolding entry_stride
entry_stride-eq n h = omega arith

-- The header of a bucket of `count` entries.
abbrev pub hdr_of : ℕ → ℕ → ℕ → BucketHeader
hdr_of domain count offset = record {
  hash_domain = domain;
  num_entries = count;
  hash_len = 3;
  file_offset = offset;
}

-- The end of `sealBucket`.
abbrev write_bucket : ℕ → ℕ → ℕ → ℕ → List ℕ → ℕ → List Entry → Result Error (List ℕ)
write_bucket domain count stride width file off laid = do
  written ←
      marshal_entries
        (record {
          bucket_header = hdr_of domain count (length file);
          stride = stride;
          offset_width = width;
        })
        (replicate stride 0) laid
  ok (write_at (file ++ written) off (bucket_store (hdr_of domain count (length file))))

write_bucket-ok :
    (n domain count : ℕ) (file : List ℕ) (off : ℕ) (laid : List Entry)
    → n ≤ 252
    → All (EntryFits n) laid
    → write_bucket domain count (3 + n) n file off laid
      ≡ ok (
          write_at
            (file ++ entries_bytes laid)
            off
            (bucket_store (hdr_of domain count (length file))))
write_bucket-ok n domain count file off laid small f =
    bind_ok
      (marshal_entries (descriptor (hdr_of domain count (length file)) n) (replicate (3 + n) 0)
        laid)
      _
      (marshal_entries-bytes (hdr_of domain count (length file)) n laid (replicate (3 + n) 0) small
        (All-imp _ _ (λ e g. g.1) laid f) (length-replicate (3 + n) 0))

ok_injective : {x y : List ℕ} → ◌≡◌ {A = Result Error (List ℕ)} (ok x) (ok y) → x ≡ y
ok_injective q = cc

module _ (xxhash : List ℕ → ℕ) (done : ℕ → ℕ → Bool) (h : Header) (small : h.value_size ≤ 252) where
  -- What one round of the loop writes for a bucket of these pairs that was mined.
  pub seal_bucket-mined :
      (header_size i : ℕ) (b : TempBucket) (ps : List Pair) (file : List ℕ) (laid : List Entry)
      (domain : ℕ)
      → Holds h.value_size b ps
      → length ps < 2 ^ 32
      → All (EntryFits h.value_size) laid
      → mine xxhash (done i) b 1000 ≡ ok (laid, domain)
      → seal_bucket xxhash done h header_size i b file
        ≡ ok (
            write_at
              (file ++ entries_bytes laid)
              (header_size + i * 16)
              (bucket_store (hdr_of domain (length ps) (length file))))
  unfolding seal_bucket
  seal_bucket-mined header_size i b ps file laid domain holds few fits q =
      let n : ℕ = h.value_size in
      let off : ℕ = header_size + i * 16 in
      bind_ok (mine xxhash (done i) b 1000) _ q
      ∙ ap (λ c. write_bucket domain c (entry_stride n) (n % 256) file off laid)
          {x = b.records % 2 ^ 32} {y = length ps} (omega (arith, holds.counted))
      ∙ ap (λ s. write_bucket domain (length ps) s (n % 256) file off laid)
          (entry_stride-eq n small)
      ∙ ap (λ w. write_bucket domain (length ps) (3 + n) w file off laid) {x = n % 256} {y = n}
          (omega arith)
      ∙ write_bucket-ok n domain (length ps) file off laid small fits

  seal_bucket-inv :
      (header_size i : ℕ) (b : TempBucket) (ps : List Pair) (file file' : List ℕ)
      → Holds h.value_size b ps
      → All (Fits h.value_size) ps
      → length ps < 2 ^ 32
      → seal_bucket xxhash done h header_size i b file ≡ ok file'
      → (laid : List Entry) × (domain : ℕ) × Mined xxhash h.value_size ps laid domain
        × (file'
            ≡ write_at
                (file ++ entries_bytes laid)
                (header_size + i * 16)
                (bucket_store (hdr_of domain (length ps) (length file))))
  unfolding seal_bucket
  seal_bucket-inv header_size i b ps file file' holds f few e =
      let ((laid, domain), q, _) = bind_inv (mine xxhash (done i) b 1000) _ e in
      let m = mine-Mined xxhash (done i) h.value_size b ps laid domain holds f q in
      let out = seal_bucket-mined header_size i b ps file laid domain holds few m.fits q in
      (laid, domain, m, ok_injective (sym e ∙ out))

  -- The bucket `j` of the table, in the table's bytes and those behind it, `start` bytes into the
  -- file.
  pub record Placed (table : ℕ → List Pair) (start : ℕ) (heads body : List ℕ) (j : ℕ) : Type 0 where
    pub laid : List Entry
    pub domain : ℕ
    pub outcome : Mined xxhash h.value_size (table j) laid domain
    pub heads_before : List ℕ
    pub heads_after : List ℕ
    pub body_before : List ℕ
    pub body_after : List ℕ
    pub heads_split :
        heads
        ≡ heads_before
          ++ (bucket_store (hdr_of domain (length (table j)) (start + length body_before))
              ++ heads_after)
    pub heads_at : length heads_before ≡ j * 16
    pub body_split : body ≡ body_before ++ (entries_bytes laid ++ body_after)

  -- The buckets from `i` on hold the pairs of the table.
  abbrev pub Filled : (ℕ → List Pair) → ℕ → List TempBucket → Type 0
  Filled table i [] = Unit {0}
  Filled table i (b ∷ bs) =
      Holds h.value_size b (table i)
      × All (Fits h.value_size) (table i)
      × (length (table i) < 2 ^ 32)
      × Filled table (i + 1) bs

  -- What the rounds from `i` on make of the table and of what stands behind it.
  pub record Sealed (table : ℕ → List Pair) (start i j : ℕ) (heads body heads' body' : List ℕ)
      : Type 0 where
    pub new_heads : List ℕ
    pub heads_grown : heads' ≡ heads ++ new_heads
    pub heads_length : length heads' ≡ j * 16
    pub new_body : List ℕ
    pub body_grown : body' ≡ body ++ new_body
    pub placed : (k : ℕ) → i ≤ k → k < j → Placed table start heads' body' k

  module _ (table : ℕ → List Pair) (front : List ℕ) (start : ℕ) where
    -- The file between two rounds, with the table not yet written of `left` buckets.
    abbrev between : List ℕ → ℕ → List ℕ → List ℕ
    between heads left body = front ++ (heads ++ (zeros (left * 16) ++ body))

    length-between :
        (heads : List ℕ) (left : ℕ) (body : List ℕ)
        → length (between heads left body)
          ≡ length front + (length heads + (left * 16 + length body))
    unfolding zeros
    length-between heads left body = omega (
      arith,
      length-append front (heads ++ (zeros (left * 16) ++ body)),
      length-append heads (zeros (left * 16) ++ body),
      length-append (zeros (left * 16)) body,
      length-replicate {A = ℕ} (left * 16) 0,
    )

    -- A round writes the next head in place of zeros, and its entries at the end.
    between_step :
        (heads : List ℕ) (left : ℕ) (body entries head : List ℕ) (off : ℕ)
        → length head ≡ 16
        → off ≡ length front + length heads
        → write_at (between heads (suc left) body ++ entries) off head
          ≡ between (heads ++ head) left (body ++ entries)
    unfolding zeros
    between_step heads left body entries head off hh ho =
        ap (λ b. write_at b off head) regroup
        ∙ write_at-inside (front ++ heads) (zeros 16) (zeros (left * 16) ++ (body ++ entries)) head
            off (omega (arith, length-append front heads)) (sym hh)
        ∙ simp append_assoc
      where
        regroup :
            between heads (suc left) body ++ entries
            ≡ (front ++ heads) ++ (zeros 16 ++ (zeros (left * 16) ++ (body ++ entries)))
        regroup =
            ap (λ l. (front ++ (heads ++ (l ++ body))) ++ entries)
              (ap zeros {x = suc left * 16} {y = 16 + left * 16} (omega arith)
                ∙ zeros-add 16 (left * 16))
            ∙ simp append_assoc

    pub seal_buckets-Sealed :
        (i j : ℕ) (bs : List TempBucket) (heads body file' : List ℕ)
        → Filled table i bs
        → length heads ≡ i * 16
        → j ≡ i + length bs
        → start ≡ length front + j * 16
        → seal_buckets xxhash done h (length front) i bs (between heads (length bs) body) ≡ ok file'
        → (heads' : List ℕ) × (body' : List ℕ) × (file' ≡ front ++ (heads' ++ body'))
          × Sealed table start i j heads body heads' body'
    unfolding seal_buckets
    seal_buckets-Sealed i j [] heads body file' f hl hj hs e = (
      heads,
      body,
      sym (unfold zeros in ok_injective e),
      record {
        new_heads = [];
        heads_grown = sym (append-nil heads);
        heads_length = omega (arith, hl, hj);
        new_body = [];
        body_grown = sym (append-nil body);
        placed = λ k lo hi. absurd (omega (arith, hj));
      },
    )
    seal_buckets-Sealed i j (b ∷ bs) heads body file' f hl hj hs e =
        let file : List ℕ = between heads (suc (length bs)) body in
        let (file₁, q, e₁) =
          bind_inv (seal_bucket xxhash done h (length front) i b file)
            (seal_buckets xxhash done h (length front) (i + 1) bs) e in
        let (laid, domain, m, q₁) =
          seal_bucket-inv (length front) i b (table i) file file₁ f.0 f.1 f.2 q in
        let offset : length file ≡ start + length body =
          omega (arith, length-between heads (suc (length bs)) body) in
        let head : List ℕ = bucket_store (hdr_of domain (length (table i)) (start + length body)) in
        let q₂ : file₁ ≡ between (heads ++ head) (length bs) (body ++ entries_bytes laid) =
          q₁
          ∙ ap
              (λ o.
                write_at (file ++ entries_bytes laid) (length front + i * 16)
                  (bucket_store (hdr_of domain (length (table i)) o)))
              offset
          ∙ between_step heads (length bs) body (entries_bytes laid) head (length front + i * 16)
              (length-bucket_store (hdr_of domain (length (table i)) (start + length body)))
              (omega arith) in
        let (heads', body', q₃, s) =
          seal_buckets-Sealed (i + 1) j bs (heads ++ head) (body ++ entries_bytes laid) file' f.3
            (omega (
              arith,
              hl,
              length-append heads head,
              length-bucket_store (hdr_of domain (length (table i)) (start + length body)),
            ))
            (omega arith) hs
            (subst (λ l. seal_buckets xxhash done h (length front) (i + 1) bs l ≡ ok file') q₂
              e₁) in
        let own : Placed table start heads' body' i = record {
          laid = laid;
          domain = domain;
          outcome = m;
          heads_before = heads;
          heads_after = s.new_heads;
          body_before = body;
          body_after = s.new_body;
          heads_split = s.heads_grown ∙ append_assoc heads head s.new_heads;
          heads_at = hl;
          body_split = s.body_grown ∙ append_assoc body (entries_bytes laid) s.new_body;
        } in
        (
          heads',
          body',
          q₃,
          record {
            new_heads = head ++ s.new_heads;
            heads_grown = own.heads_split;
            heads_length = s.heads_length;
            new_body = entries_bytes laid ++ s.new_body;
            body_grown = own.body_split;
            placed = λ k lo hi. elim (ℕ_discrete k i) [
              | yes same ↦ subst (Placed table start heads' body') (sym same) own
              | no ne ↦ s.placed k (omega arith) hi
            ];
          },
        )
