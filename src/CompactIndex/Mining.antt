-- ===== src/CompactIndex/Mining.antt =====
-- compactindexsized/build.go: `mine` on a temporary bucket.
use yellowstone_faithful.Prelude.{
  ℕ, zero, suc, ◌+◌, ◌%◌, ◌^◌, ◌<◌, ◌≡◌, ◌⊎◌, subst, inl, inr, false, Bool, List, [], ◌∷◌, map,
  length, Result, ok, err, panic, stuck, bind_inv, arith, All, Bool-cases,
}
use yellowstone_faithful.Eytzinger.Members.{layout-All}
use yellowstone_faithful.Sorting.{sort_by, sort_by-All}
use yellowstone_faithful.CompactIndex.{Error, Entry, collision, entry_hash64}
use yellowstone_faithful.CompactIndex.Builder.{
  TempBucket, hash_entries, hash_bucket, sort_with_compare, zero_entry, mined, mine_loop, mine,
}
use yellowstone_faithful.CompactIndex.Tuples.{
  Pair, Fits, Holds, tuples, entry_for, Distinct, hash_entries-tuples,
}

-- An entry of the file: a hash of 24 bits with a value of `n` bytes.
abbrev pub EntryFits : ℕ → Entry → Type 0
EntryFits n e = (e.hash < 2 ^ 24) × (length e.value ≡ n)

-- What mining a bucket of these pairs comes to.
pub record Mined (xxhash : List ℕ → ℕ) (n : ℕ) (ps : List Pair) (laid : List Entry) (domain : ℕ)
    : Type 0 where
  pub domain_lt : domain < 1000
  pub distinct : Distinct (map (entry_for xxhash domain) ps)
  pub sorted : sort_with_compare (map (entry_for xxhash domain) ps) ≡ ok laid
  pub fits : All (EntryFits n) laid

mined-inv :
    (xxhash : List ℕ → ℕ) (r : Result Error (List Entry)) (domain : ℕ)
    (next : Result Error (List Entry × ℕ)) (laid : List Entry) (found : ℕ)
    → mined xxhash r domain next ≡ ok (laid, found)
    → ((r ≡ ok laid) × (found ≡ domain)) ⊎ (next ≡ ok (laid, found))
unfolding mined
mined-inv xxhash (ok entries) domain next laid found e = inl (cc, cc)
mined-inv xxhash (err collision) domain next laid found e = inr e
mined-inv xxhash (err _) domain next laid found e = cc
mined-inv xxhash panic domain next laid found e = cc
mined-inv xxhash stuck domain next laid found e = cc

module _ (xxhash : List ℕ → ℕ) (done : ℕ → Bool) (b : TempBucket) where
  mine_loop-inv :
      (left domain : ℕ) (laid : List Entry) (found : ℕ)
      → mine_loop xxhash done b left domain ≡ ok (laid, found)
      → (hash_bucket xxhash b.value_size b.records b.file found ≡ ok laid) × (found < domain + left)
  unfolding mine_loop
  mine_loop-inv zero domain laid found e = cc
  mine_loop-inv (suc left) domain laid found e = elim (Bool-cases (done domain)) [
    | inl stop ↦ cc (rw stop at e)
    | inr go ↦
        elim (mined-inv xxhash (hash_bucket xxhash b.value_size b.records b.file domain) domain
          (mine_loop xxhash done b left (domain + 1)) laid found (rw go at e)) [
            | inl (q, same) ↦ (rw same q, omega arith)
            | inr later ↦
                let (q, lt) = mine_loop-inv left (domain + 1) laid found later in (q, omega arith)
          ]
  ]

entries-Fits :
    (xxhash : List ℕ → ℕ) (n domain : ℕ) (ps : List Pair)
    → All (Fits n) ps
    → All (EntryFits n) (map (entry_for xxhash domain) ps)
entries-Fits xxhash n domain [] f = tt
entries-Fits xxhash n domain (p ∷ ps) f =
    ((mod_lt (entry_hash64 xxhash domain p.key), f.0.1), entries-Fits xxhash n domain ps f.1)
  where
    mod_lt : (x : ℕ) → x % 2 ^ 24 < 2 ^ 24
    mod_lt x = omega arith

sort_with_compare-Fits :
    (n : ℕ) (es laid : List Entry)
    → All (EntryFits n) es
    → sort_with_compare es ≡ ok laid
    → All (EntryFits n) laid
unfolding sort_with_compare
sort_with_compare-Fits n es laid f e =
    layout-All (EntryFits n) zero_entry (sort_by Entry.hash es) laid
      (sort_by-All Entry.hash (EntryFits n) es f) e

pub mine-Mined :
    (xxhash : List ℕ → ℕ) (done : ℕ → Bool) (n : ℕ) (b : TempBucket) (ps : List Pair)
    (laid : List Entry) (domain : ℕ)
    → Holds n b ps
    → All (Fits n) ps
    → mine xxhash done b 1000 ≡ ok (laid, domain)
    → Mined xxhash n ps laid domain
unfolding mine hash_bucket
mine-Mined xxhash done n b ps laid domain h f e =
    let (q, lt) = mine_loop-inv xxhash done b 1000 0 laid domain e in
    let (es, q₁, q₂) =
      bind_inv (hash_entries xxhash b.value_size domain b.records b.file (λ i. false))
        sort_with_compare q in
    let q₃ : hash_entries xxhash n domain (length ps) (tuples ps) (λ i. false) ≡ ok es =
      subst (λ m. hash_entries xxhash m domain (length ps) (tuples ps) (λ i. false) ≡ ok es)
        h.size_same
        (subst (λ k. hash_entries xxhash b.value_size domain k (tuples ps) (λ i. false) ≡ ok es)
          h.counted
          (subst (λ l. hash_entries xxhash b.value_size domain b.records l (λ i. false) ≡ ok es)
            h.written q₁)) in
    let (same, _, distinct) = hash_entries-tuples xxhash n domain ps (λ i. false) es f q₃ in
    let sorted = subst (λ l. sort_with_compare l ≡ ok laid) same q₂ in
    record {
      domain_lt = lt;
      distinct = subst Distinct same distinct;
      sorted = sorted;
      fits = sort_with_compare-Fits n _ laid (entries-Fits xxhash n domain ps f) sorted;
    }
