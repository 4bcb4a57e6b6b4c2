-- ===== src/Streams/Laws.antt =====
-- Lemmas on reads of bytes that are there.
use yellowstone_faithful.Prelude.{
  ℕ, ◌+◌, ◌-◌, ◌^◌, ◌≤◌, ◌<◌, ◌≡◌, refl, ap, ◌∙◌, none, some, List, ◌++◌, length, take, drop, ltb,
  leb, false, if◌then◌else◌, ok, arith, take-append, drop-append,
}
use Prim.Native.Nat.{min}
use yellowstone_faithful.Streams.{
  ReaderAt, ReadResult, checked, eof, bytes_reader, section_reader, read_exact,
}

drop_at :
    (pre mid suf : List ℕ) (off : ℕ)
    → off ≡ length pre
    → take (length mid) (drop off (pre ++ (mid ++ suf))) ≡ mid
drop_at pre mid suf off h =
    ap (take (length mid)) (drop-append pre (mid ++ suf) off h) ∙ take-append mid suf _ refl

pub bytes_reader-full :
    (pre mid suf : List ℕ) (off : ℕ)
    → off ≡ length pre
    → bytes_reader (pre ++ (mid ++ suf)) off (length mid) ≡ record { got = mid; error = none }
unfolding bytes_reader
bytes_reader-full pre mid suf off h =
    ap
      (λ (l : List ℕ).
        let res : ReadResult = record {
          got = l;
          error = if ltb (length l) (length mid) then some eof else none;
        } in
        res)
      (drop_at pre mid suf off h)
    ∙ full
  where
    full :
        ◌≡◌ {A = ReadResult}
          (record { got = mid; error = if ltb (length mid) (length mid) then some eof else none })
          (record { got = mid; error = none })
    full = ground arith

read_exact-full :
    (r : ReaderAt) (off n : ℕ) (bs : List ℕ)
    → r off n ≡ record { got = bs; error = none }
    → read_exact r off n ≡ ok bs
unfolding read_exact
read_exact-full r off n bs e = ap checked e

read_exact-same :
    (r r' : ReaderAt) (off off' n : ℕ)
    → r off n ≡ r' off' n
    → read_exact r off n ≡ read_exact r' off' n
unfolding read_exact
read_exact-same r r' off off' n e = ap checked e

-- Reading what stands between `pre` and `suf`.
pub read_exact-bytes :
    (pre mid suf : List ℕ) (off n : ℕ)
    → off ≡ length pre
    → n ≡ length mid
    → read_exact (bytes_reader (pre ++ (mid ++ suf))) off n ≡ ok mid
read_exact-bytes pre mid suf off n ho hn =
    rw hn (read_exact-full _ off (length mid) mid (bytes_reader-full pre mid suf off ho))

pub section_reader-inside :
    (r : ReaderAt) (base size off n : ℕ)
    → off + n ≤ size
    → 0 < n
    → base + off + n < 2 ^ 63
    → section_reader r base size off n ≡ r (base + off) n
unfolding section_reader
section_reader-inside r base size off n hs hn hb = rw (more, fits)
  where
    more : leb (min (base + size) (2 ^ 63 - 1) - base) off ≡ false
    more = ground arith

    fits : ltb (min (base + size) (2 ^ 63 - 1) - (base + off)) n ≡ false
    fits = ground arith

-- The same through a section of the bytes that starts behind `base` of them.
pub read_exact-section :
    (r : ReaderAt) (base size off n : ℕ) {bs : List ℕ}
    → off + n ≤ size
    → 0 < n
    → base + off + n < 2 ^ 63
    → read_exact r (base + off) n ≡ ok bs
    → read_exact (section_reader r base size) off n ≡ ok bs
read_exact-section r base size off n hs hn hb e =
    read_exact-same _ r off (base + off) n (section_reader-inside r base size off n hs hn hb) ∙ e
