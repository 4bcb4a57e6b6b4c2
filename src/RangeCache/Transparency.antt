-- ===== src/RangeCache/Transparency.antt =====
-- range-cache/range-cache.go: `GetRange` against a direct read of the file, alone and among the
-- operations of other goroutines.
use yellowstone_faithful.Prelude.{
  if_true, if_false, not_ltb, ℕ, ◌+◌, ◌%◌, ◌^◌, ◌<◌, ◌≤◌, ◌≡◌, ◌⊎◌, ◌∙◌, refl, sym, ap, subst, inl,
  inr, Bool, true, false, List, length, Result, ok, err, arith, Option-cases, Option, none, some,
  replicate, length-replicate, lt→ltb,
}
use yellowstone_faithful.Bytes.{slice, copy_bytes}
use yellowstone_faithful.Bytes.Laws.{length-slice, copy_bytes-full}
use yellowstone_faithful.Streams.{ReaderAt, ReadResult, IoError}
use yellowstone_faithful.RangeCache.{
  Error, RangeCache, sub64, int64_lt, get_range_from_cache, miss, or_miss, get_range_with,
  get_range, set_range, done_context, fetch, invalid_range, checked_length,
}
use yellowstone_faithful.RangeCache.Validity.{
  IsValid, range_check, whole_length, same_end, same_length, set_range-IsValid,
}
use yellowstone_faithful.RangeCache.Reads.{Answer, get_range_from_cache-Answer}

-- The remote file answers a read within it with its bytes, or with an error.
abbrev pub Serves : ReaderAt → List ℕ → Type 0
Serves fetcher file =
    (off n : ℕ)
    → off + n ≤ length file
    → ReadResult.error (fetcher off n) ≡ none
    → ReadResult.got (fetcher off n) ≡ slice file off n

module _ (file : List ℕ) (small : length file < 2 ^ 63) (start ln : ℕ)
    (inside : start + ln ≤ length file) where
  not_larger :
      (size : ℕ) → size ≡ length file → int64_lt size (sub64 ((start + ln) % 2 ^ 64) start) ≡ false
  not_larger size h = ground arith

  pub get_range_with-inside :
      (done : ℕ → Bool) (rc : RangeCache) (m : RangeCache × Result Error (List ℕ))
      → IsValid file rc
      → get_range_with done rc start ((start + ln) % 2 ^ 64) m
        ≡ or_miss rc (get_range_from_cache done rc (record { start = start; end = start + ln })) m
  unfolding get_range_with
  get_range_with-inside done rc m v =
      if_false _ _ _ (
        range_check start ln rc.size (omega arith) (omega arith) (omega (arith, v.size_same))
        ∙ not_ltb rc.size (start + ln) (omega (arith, v.size_same)))
      ∙ if_false _ _ _ (not_larger rc.size v.size_same)
      ∙ ap
          (λ end. or_miss rc (get_range_from_cache done rc (record { start = start; end = end })) m)
          (same_end start ln (length file) inside small)

module _ (file : List ℕ) (small : length file < 2 ^ 63) (fetcher : ReaderAt)
    (serves : Serves fetcher file) (start ln : ℕ) where
  -- What a read of a range within the file can answer: the bytes, the error of the context of the
  -- look-up, or that of the fetcher.
  abbrev pub Read : (ℕ → Bool) → Result Error (List ℕ) → Type 0
  Read done o =
      (o ≡ ok (slice file start ln))
      ⊎ (((o ≡ err done_context) × (k : ℕ) × (done k ≡ true))
          ⊎ ((e : IoError) × (ReadResult.error (fetcher start ln) ≡ some e) × (o ≡ err (fetch e))))

  module _ (inside : start + ln ≤ length file) where
    fetched :
        ReadResult.error (fetcher start ln) ≡ none
        → copy_bytes (replicate ln 0) (ReadResult.got (fetcher start ln)) ≡ slice file start ln
    fetched q =
        let e = serves start ln inside q in
        copy_bytes-full (replicate ln 0) (ReadResult.got (fetcher start ln)) (
          omega
            (arith, ap length e, length-slice file start ln inside, length-replicate {A = ℕ} ln 0))
        ∙ e

    -- A miss, with the length that it computes.
    missed : (ℕ → Bool) → ℕ → RangeCache → RangeCache × Result Error (List ℕ)
    missed done now rc =
        let res : ReadResult = fetcher start ln in
        let v : List ℕ = copy_bytes (replicate ln 0) res.got in
        let (rc', _) = set_range done now rc start ln v in
        elim res.error [ none ↦ (rc', ok v) | some e ↦ (rc, err (fetch e)) ]

    miss-missed :
        (done : ℕ → Bool) (now : ℕ) (rc : RangeCache)
        → miss fetcher done now rc start ln ≡ missed done now rc
    unfolding miss missed
    miss-missed done now rc =
        ap
          (λ n.
            let res : ReadResult = fetcher start n in
            let v : List ℕ = copy_bytes (replicate n 0) res.got in
            let (rc', _) = set_range done now rc start ln v in
            elim res.error as (λ _. RangeCache × Result Error (List ℕ)) [
              | none ↦ (rc', ok v)
              | some e ↦ (rc, err (fetch e))
            ])
          (whole_length start ln (length file) inside small)

    -- A miss leaves a valid cache, and answers the bytes of the file or the fetcher's error.
    pub miss_lem :
        (done look : ℕ → Bool) (now : ℕ) (rc : RangeCache)
        → IsValid file rc
        → IsValid file (miss fetcher done now rc start ln).0
          × Read look (miss fetcher done now rc start ln).1
    unfolding missed
    miss_lem done look now rc v =
        subst (λ q. IsValid file q.0 × Read look q.1) (sym (miss-missed done now rc))
          (elim (Option-cases (ReadResult.error (fetcher start ln))) [
            | inl fine ↦
                rw (fine, missed)
                  (
                    set_range-IsValid file small done now rc start ln _ v (omega arith)
                        (omega arith) (fetched fine),
                    inl (ap ok (fetched fine)),
                  )
            | inr (e, failed) ↦ rw (failed, missed) (v, inr (inr (e, refl, refl)))
          ])

    or_miss-Read :
        (done : ℕ → Bool) (rc : RangeCache) (o : Result Error (Option (List ℕ)))
        (m : RangeCache × Result Error (List ℕ))
        → IsValid file rc
        → Answer file small done start ln inside o
        → IsValid file m.0 × Read done m.1
        → IsValid file (or_miss rc o m).0 × Read done (or_miss rc o m).1
    unfolding or_miss
    or_miss-Read done rc o m v (inl q) r = rw q r
    or_miss-Read done rc o m v (inr (inl q)) r = rw q (v, inl refl)
    or_miss-Read done rc o m v (inr (inr (q, k, d))) r = rw q (v, inr (inl (refl, k, d)))

    checked_length-Read :
        (done : ℕ → Bool) (n : ℕ) (o : Result Error (List ℕ))
        → n ≡ ln
        → Read done o
        → Read done (checked_length n o)
    checked_length-Read done n o h (inl q) =
        rw q (inl (if_true _ _ _ (same_length _ ln n (length-slice file start ln inside) h)))
    checked_length-Read done n o h (inr (inl (q, k, d))) = rw q (inr (inl (refl, k, d)))
    checked_length-Read done n o h (inr (inr (e, f, q))) = rw q (inr (inr (e, f, refl)))

    -- A read whose look-up meets one valid cache, and whose miss, if there is one, meets another one:
    -- between them other goroutines may have changed it.
    pub get_range_with-Read :
        (done done_set : ℕ → Bool) (now : ℕ) (rc rc₂ : RangeCache)
        → IsValid file rc
        → IsValid file rc₂
        → IsValid file
            (get_range_with done rc start
              ((start + ln) % 2 ^ 64)
              (miss fetcher done_set now rc₂ start ln)).0
          × Read done (
              checked_length
                (sub64 ((start + ln) % 2 ^ 64) start)
                (get_range_with done rc start
                  ((start + ln) % 2 ^ 64)
                  (miss fetcher done_set now rc₂ start ln)).1)
    get_range_with-Read done done_set now rc rc₂ v v₂ =
        let (valid, read) =
          subst (λ q. IsValid file q.0 × Read done q.1)
            (sym (
              get_range_with-inside file small start ln inside done rc
                (miss fetcher done_set now rc₂ start ln) v))
            (or_miss-Read done rc _ (miss fetcher done_set now rc₂ start ln) v
              (get_range_from_cache-Answer file small done start ln inside rc v)
              (miss_lem done_set done now rc₂ v₂)) in
        (
          valid,
          checked_length-Read done _ _ (whole_length start ln (length file) inside small) read,
        )

    -- On a valid cache of a file of fewer than 2 ^ 63 bytes, whose remote serves it, `GetRange` of a
    -- range within the file answers the bytes of the file, or the error of a context that is done, or
    -- that of the fetcher. It leaves a valid cache.
    pub get_range-Read :
        (done done_set : ℕ → Bool) (now : ℕ) (rc : RangeCache)
        → IsValid file rc
        → IsValid file (get_range fetcher done done_set now rc start ln).0
          × Read done (get_range fetcher done done_set now rc start ln).1
    unfolding get_range
    get_range-Read done done_set now rc v = get_range_with-Read done done_set now rc rc v v

  -- A range that does not lie within the file is refused, and the cache is left as it is.
  pub get_range_beyond :
      (done done_set : ℕ → Bool) (now : ℕ) (rc : RangeCache)
      → start < 2 ^ 64
      → ln < 2 ^ 64
      → length file < start + ln
      → IsValid file rc
      → get_range fetcher done done_set now rc start ln ≡ (rc, err invalid_range)
  unfolding get_range get_range_with
  get_range_beyond done done_set now rc hs hl beyond v =
      ap
        (λ (q : RangeCache × Result Error (List ℕ)).
          (q.0, checked_length (sub64 ((start + ln) % 2 ^ 64) start) q.1))
        (if_true _ _ _ (
          range_check start ln rc.size hs hl (omega (arith, v.size_same))
          ∙ lt→ltb rc.size (start + ln) (omega (arith, v.size_same))))
