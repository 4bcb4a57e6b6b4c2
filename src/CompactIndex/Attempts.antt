-- ===== src/CompactIndex/Attempts.antt =====
-- compactindexsized/build.go: on which buckets `mine` succeeds.
use yellowstone_faithful.Prelude.{
  ℕ, zero, suc, ◌+◌, ◌<◌, ◌≤◌, ◌≡◌, ◌≢◌, ◌⊎◌, ◌∙◌, refl, sym, ap, subst, inl, inr, true, false,
  Bool, List, [], ◌∷◌, map, length, Result, ok, err, ◌>>=◌, guard, bind_ok, arith, All, Bool-cases,
  ℕ_discrete,
}
use yellowstone_faithful.Eytzinger.Layout.{layout_total}
use yellowstone_faithful.Sorting.{sort_by}
use yellowstone_faithful.CompactIndex.{Error, Entry, collision}
use yellowstone_faithful.CompactIndex.Builder.{
  TempBucket, Bitmap, set_bit, not_bool, hash_entries, hash_bucket, sort_with_compare, zero_entry,
  mined, mine_loop, mine,
}
use yellowstone_faithful.CompactIndex.Tuples.{
  Pair, Fits, Holds, tuples, entry_for, Distinct, hash_entries_end, hash_entries_step,
}

-- No entry's bit is set, and no two entries have one hash.
abbrev Free : Bitmap → List Entry → Type 0
Free bitmap es = All (λ e. bitmap (Entry.hash e) ≡ false) es × Distinct es

set_bit-free : (bitmap : Bitmap) (i j : ℕ) → j ≢ i → bitmap j ≡ false → set_bit bitmap i j ≡ false
set_bit-free bitmap i j ne e = ground arith

Free-tail :
    (bitmap : Bitmap) (e : Entry) (es : List Entry)
    → Free bitmap (e ∷ es)
    → Free (set_bit bitmap e.hash) es
Free-tail bitmap e es ((_, clear), (ne, distinct)) = (go es clear ne, distinct)
  where
    go :
        (os : List Entry)
        → All (λ o. bitmap (Entry.hash o) ≡ false) os
        → All (λ o. Entry.hash o ≢ e.hash) os
        → All (λ o. set_bit bitmap e.hash (Entry.hash o) ≡ false) os
    go [] c n = tt
    go (o ∷ os) c n = (set_bit-free bitmap e.hash o.hash n.0 c.0, go os c.1 n.1)

guard-set : (b : Bool) → b ≡ true → guard (not_bool b) collision ≡ err collision
unfolding not_bool
guard-set b e = rw e refl

guard-clear : (b : Bool) → b ≡ false → guard (not_bool b) collision ≡ ok tt
unfolding not_bool
guard-clear b e = rw e refl

module _ (xxhash : List ℕ → ℕ) (n nonce : ℕ) where
  hash_entries-cases :
      (ps : List Pair) (bitmap : Bitmap)
      → All (Fits n) ps
      → (hash_entries xxhash n nonce (length ps) (tuples ps) bitmap
          ≡ ok (map (entry_for xxhash nonce) ps))
        ⊎ ((hash_entries xxhash n nonce (length ps) (tuples ps) bitmap ≡ err collision)
            × ¬ Free bitmap (map (entry_for xxhash nonce) ps))
  hash_entries-cases [] bitmap f = inl (hash_entries_end xxhash n nonce [] bitmap)
  hash_entries-cases (p ∷ ps) bitmap f =
      let own : Entry = entry_for xxhash nonce p in
      let next : Bitmap = set_bit bitmap own.hash in
      let step = hash_entries_step xxhash n nonce p (length ps) (tuples ps) bitmap f.0 in
      elim (Bool-cases (bitmap own.hash)) [
        | inl taken ↦ inr (
          step
              ∙ ap
                  (λ g. g >>= λ _.
                    hash_entries xxhash n nonce (length ps) (tuples ps) next >>= λ es.
                    ok (own ∷ es))
                  (guard-set _ taken),
          λ free. cc (taken, free.0.0),
        )
        | inr clear ↦
            let start =
              step
              ∙ bind_ok (guard (not_bool (bitmap own.hash)) collision) _ (guard-clear _ clear) in
            elim (hash_entries-cases ps next f.1) [
              | inl q ↦ inl (start ∙ ap (λ r. r >>= λ es. ok (own ∷ es)) q)
              | inr (q, used) ↦ inr (
                start ∙ ap (λ r. r >>= λ es. ok (own ∷ es)) q,
                λ free. used (Free-tail bitmap own (map (entry_for xxhash nonce) ps) free),
              )
            ]
      ]

  -- One attempt on a temporary bucket of these pairs.
  hash_bucket-cases :
      (b : TempBucket) (ps : List Pair)
      → Holds n b ps
      → All (Fits n) ps
      → ((laid : List Entry) × (hash_bucket xxhash b.value_size b.records b.file nonce ≡ ok laid))
        ⊎ ((hash_bucket xxhash b.value_size b.records b.file nonce ≡ err collision)
            × ¬ Distinct (map (entry_for xxhash nonce) ps))
  unfolding hash_bucket sort_with_compare
  hash_bucket-cases b ps h f =
      let same : hash_entries xxhash b.value_size nonce b.records b.file (λ i. false)
          ≡ hash_entries xxhash n nonce (length ps) (tuples ps) (λ i. false) =
        ap (λ m. hash_entries xxhash m nonce b.records b.file (λ i. false)) h.size_same
        ∙ ap (λ k. hash_entries xxhash n nonce k b.file (λ i. false)) h.counted
        ∙ ap (λ l. hash_entries xxhash n nonce (length ps) l (λ i. false)) h.written in
      let es : List Entry = map (entry_for xxhash nonce) ps in
      elim (hash_entries-cases ps (λ i. false) f) [
        | inl q ↦
            let (laid, e, _, _) = layout_total {E = Error} zero_entry (sort_by Entry.hash es) in
            inl (laid, ap (λ r. r >>= sort_with_compare) (same ∙ q) ∙ e)
        | inr (q, used) ↦
            inr (ap (λ r. r >>= sort_with_compare) (same ∙ q), λ d. used (unset es, d))
      ]
    where
      unset : (es : List Entry) → All (λ e. false ≡ false) es
      unset [] = tt
      unset (e ∷ es) = (refl, unset es)

mined-ok :
    (xxhash : List ℕ → ℕ) (r : Result Error (List Entry)) (domain : ℕ)
    (next : Result Error (List Entry × ℕ)) (laid : List Entry)
    → r ≡ ok laid
    → mined xxhash r domain next ≡ ok (laid, domain)
unfolding mined
mined-ok xxhash r domain next laid e = rw e refl

mined-collision :
    (xxhash : List ℕ → ℕ) (r : Result Error (List Entry)) (domain : ℕ)
    (next : Result Error (List Entry × ℕ))
    → r ≡ err collision
    → mined xxhash r domain next ≡ next
unfolding mined
mined-collision xxhash r domain next e = rw e refl

module _ (xxhash : List ℕ → ℕ) (done : ℕ → Bool) (calm : (d : ℕ) → done d ≡ false) (n : ℕ)
    (b : TempBucket) (ps : List Pair) (h : Holds n b ps) (f : All (Fits n) ps) where
  mine_loop_step :
      (left domain : ℕ)
      → mine_loop xxhash done b (suc left) domain
        ≡ mined xxhash
            (hash_bucket xxhash b.value_size b.records b.file domain)
            domain
            (mine_loop xxhash done b left (domain + 1))
  unfolding mine_loop
  mine_loop_step left domain = rw (calm domain) refl

  mine_loop_end : (domain : ℕ) → mine_loop xxhash done b zero domain ≡ err collision
  unfolding mine_loop
  mine_loop_end domain = refl

  mine_loop-cases :
      (left domain : ℕ)
      → ((r : List Entry × ℕ) × (mine_loop xxhash done b left domain ≡ ok r))
        ⊎ ((mine_loop xxhash done b left domain ≡ err collision)
            × ((d : ℕ) → domain ≤ d → d < domain + left → ¬ Distinct (map (entry_for xxhash d) ps)))
  mine_loop-cases zero domain = inr (mine_loop_end domain, λ d lo hi. absurd (omega arith))
  mine_loop-cases (suc left) domain =
      let step = mine_loop_step left domain in
      elim (hash_bucket-cases xxhash n domain b ps h f) [
        | inl (laid, q) ↦ inl ((laid, domain), step ∙ mined-ok xxhash _ domain _ laid q)
        | inr (q, same) ↦
            let again = step ∙ mined-collision xxhash _ domain _ q in
            elim (mine_loop-cases left (domain + 1)) [
              | inl (r, e) ↦ inl (r, again ∙ e)
              | inr (e, others) ↦ inr (
                again ∙ e,
                λ d lo hi. elim (ℕ_discrete d domain) [
                  | yes eq ↦ subst (λ d. ¬ Distinct (map (entry_for xxhash d) ps)) (sym eq) same
                  | no ne ↦ others d (omega arith) (omega arith)
                ],
              )
            ]
      ]

  -- Where its context is never done, `mine` succeeds unless every domain it tries has a collision.
  pub mine-cases :
      ((r : List Entry × ℕ) × (mine xxhash done b 1000 ≡ ok r))
      ⊎ ((mine xxhash done b 1000 ≡ err collision)
          × ((d : ℕ) → d < 1000 → ¬ Distinct (map (entry_for xxhash d) ps)))
  unfolding mine
  mine-cases = elim (mine_loop-cases 1000 0) [
    | inl found ↦ inl found
    | inr (q, others) ↦ inr (q, λ d hi. others d (omega arith) (omega arith))
  ]
