-- ===== src/BlockTime/Truncated.antt =====
-- blocktimeindex/writer.go: `unmarshalBinary` on a file that was cut off.
use yellowstone_faithful.Prelude.{
  ℕ, zero, suc, ◌+◌, ◌-◌, ◌%◌, ◌^◌, ◌<◌, ◌≤◌, ◌≡◌, ◌∙◌, refl, sym, ap, List, [], ◌∷◌, ◌++◌, length,
  take, All, ok, bind_ok, append_assoc, append-nil, arith, length-append, All-append_left, subst,
}
use yellowstone_faithful.Prelude.Int.{ℤ, pos, negsuc}
use yellowstone_faithful.Bytes.{put_le, get_le}
use yellowstone_faithful.Bytes.Laws.{length-put_le, get_le-put_le}
use yellowstone_faithful.BlockTime.{
  Index, IsValid, FitsTime, marshal_binary, read_buf, read_values, from_bytes,
}
use yellowstone_faithful.BlockTime.RoundTrip.{
  header, time_bytes, times_bytes, marshal_index_iff, read_buf-append, from_bytes-header,
}

-- The low `4 - cut` bytes of a time.
read_part :
    (n cut : ℕ)
    → cut < 4
    → (buf : List ℕ) × (r : List ℕ) × (read_buf 4 (take (4 - cut) (put_le 4 n)) ≡ ok (buf, r))
      × (get_le buf ≡ n % 256 ^ (4 - cut))
unfolding read_buf put_le get_le
read_part n zero h = (_, _, refl, omega arith)
read_part n (suc zero) h = (_, _, refl, omega arith)
read_part n (suc (suc zero)) h = (_, _, refl, omega arith)
read_part n (suc (suc (suc zero))) h = (_, _, refl, omega arith)
read_part n (suc (suc (suc (suc k)))) h = absurd (omega arith)

read_values-cut :
    (ts : List ℤ) (n cut : ℕ)
    → cut < 4
    → All FitsTime ts
    → read_values (length (ts ++ (pos n ∷ []))) (times_bytes ts ++ take (4 - cut) (put_le 4 n))
      ≡ ok (ts ++ (pos (n % 256 ^ (4 - cut)) ∷ []))
unfolding read_values FitsTime
read_values-cut [] n cut h f =
    let (buf, r, q, e) = read_part n cut h in
    bind_ok (read_buf 4 (take (4 - cut) (put_le 4 n))) _ q ∙ ap (λ k. ok (pos k ∷ [])) e
read_values-cut (negsuc m ∷ ts) n cut h f = absurd (omega (arith, f.0))
read_values-cut (pos m ∷ ts) n cut h f =
    let tail : List ℕ = times_bytes ts ++ take (4 - cut) (put_le 4 n) in
    bind_ok (read_buf 4 ((put_le 4 m ++ times_bytes ts) ++ take (4 - cut) (put_le 4 n))) _ (
      ap (read_buf 4) (append_assoc (put_le 4 m) (times_bytes ts) _)
      ∙ read_buf-append 3 (put_le 4 m) tail (length-put_le 4 m))
    ∙ bind_ok (read_values (length (ts ++ (pos n ∷ []))) tail) _ (read_values-cut ts n cut h f.1)
    ∙ ap (λ k. ok (pos k ∷ (ts ++ (pos (n % 256 ^ (4 - cut)) ∷ []))))
        (get_le-put_le 4 m (omega (arith, f.0)))

times_bytes-append : (ts us : List ℤ) → times_bytes (ts ++ us) ≡ times_bytes ts ++ times_bytes us
times_bytes-append [] us = refl
times_bytes-append (t ∷ ts) us =
    ap (λ l. time_bytes t ++ l) (times_bytes-append ts us)
    ∙ sym (append_assoc (time_bytes t) (times_bytes ts) (times_bytes us))

take-append_more :
    (xs ys : List ℕ) (n m : ℕ) → n ≡ length xs + m → take n (xs ++ ys) ≡ xs ++ take m ys
take-append_more [] ys n m h = ap (λ k. take k ys) {x = n} (omega (arith, h))
take-append_more (x ∷ xs) ys zero m h = absurd (omega arith)
take-append_more (x ∷ xs) ys (suc n) m h =
    ap (λ l. x ∷ l) (take-append_more xs ys n m (omega arith))

take-cut :
    (xs ys : List ℕ) (cut : ℕ)
    → cut ≤ length ys
    → take (length (xs ++ ys) - cut) (xs ++ ys) ≡ xs ++ take (length ys - cut) ys
take-cut xs ys cut h =
    take-append_more xs ys _ (length ys - cut) (omega (arith, length-append xs ys))

-- The bytes of an index that lost its end.
cut_bytes :
    (hd : List ℕ) (ts : List ℤ) (n cut : ℕ) {vs : List ℤ} {b : List ℕ}
    → cut < 4
    → vs ≡ ts ++ (pos n ∷ [])
    → b ≡ hd ++ times_bytes vs
    → take (length b - cut) b ≡ hd ++ (times_bytes ts ++ take (4 - cut) (put_le 4 n))
cut_bytes hd ts n cut {vs} {b} h e q =
    ap (λ l. take (length l - cut) l) whole
    ∙ take-cut (hd ++ times_bytes ts) (put_le 4 n) cut (omega (arith, length-put_le 4 n))
    ∙ ap (λ k. (hd ++ times_bytes ts) ++ take (k - cut) (put_le 4 n)) (length-put_le 4 n)
    ∙ append_assoc hd (times_bytes ts) (take (4 - cut) (put_le 4 n))
  where
    whole : b ≡ (hd ++ times_bytes ts) ++ put_le 4 n
    whole =
        q
        ∙ ap (λ l. hd ++ l)
            (ap times_bytes e
              ∙ times_bytes-append ts (pos n ∷ [])
              ∙ ap (λ l. times_bytes ts ++ l) (append-nil (put_le 4 n)))
        ∙ sym (append_assoc hd (times_bytes ts) (put_le 4 n))

-- A file of a valid index that lost fewer than four bytes at its end is still read without an
-- error: the last time keeps its low bytes only, and the others are as they were.
pub from_bytes-truncated :
    (i : Index) (ts : List ℤ) (n cut : ℕ) (b : List ℕ)
    → IsValid i
    → i.values ≡ ts ++ (pos n ∷ [])
    → marshal_binary i ≡ ok b
    → cut < 4
    → from_bytes (take (length b - cut) b)
      ≡ ok (record i { values = ts ++ (pos (n % 256 ^ (4 - cut)) ∷ []) })
from_bytes-truncated i ts n cut b v e m h =
    let (fit, q) = (marshal_index_iff i b).0 m in
    let fit' : All FitsTime ts =
      All-append_left FitsTime ts (pos n ∷ []) (subst (All FitsTime) e fit) in
    let tail : List ℕ = times_bytes ts ++ take (4 - cut) (put_le 4 n) in
    ap from_bytes (cut_bytes (header i) ts n cut h e q)
    ∙ from_bytes-header i tail (ts ++ (pos (n % 256 ^ (4 - cut)) ∷ [])) v (
        ap (λ k. read_values k tail) (sym v.filled ∙ ap length e) ∙ read_values-cut ts n cut h fit')
