-- ===== src/CompactIndex/Tuples.antt =====
-- compactindexsized/build.go: what `writeTuple` put into a temporary file, and what `hashBucket`
-- makes of it.
use yellowstone_faithful.Prelude.{
  ℕ, suc, ◌+◌, ◌%◌, ◌^◌, ◌<◌, ◌≡◌, ◌≢◌, ◌∙◌, refl, sym, ap, ap₂, subst, ◌>>=◌, true, false, Bool,
  List, [], ◌∷◌, ◌++◌, map, length, take, replicate, Result, ok, guard, bind_ok, bind_inv, arith,
  append_assoc, append-nil, length-append, length-replicate, take-append, drop-append, All, All-imp,
}
use yellowstone_faithful.Bytes.{put_le, get_le, copy_bytes}
use yellowstone_faithful.Bytes.Laws.{length-put_le, get_le-put_le, copy_bytes-full}
use yellowstone_faithful.CompactIndex.{Error, Entry, entry_hash64, collision}
use yellowstone_faithful.CompactIndex.Builder.{
  TempBucket, write_tuple, read_full, Bitmap, set_bit, not_bool, hash_entries,
}

-- What a client inserts.
pub record Pair : Type 0 where
  pub key : List ℕ
  pub value : List ℕ

-- A key whose length fits two bytes, with a value of `n` bytes.
abbrev pub Fits : ℕ → Pair → Type 0
Fits n p = (length p.key < 2 ^ 16) × (length p.value ≡ n)

abbrev pub tuple_bytes : Pair → List ℕ
tuple_bytes p = (put_le 2 (length p.key) ++ p.value) ++ p.key

abbrev pub tuples : List Pair → List ℕ
tuples [] = []
tuples (p ∷ ps) = tuple_bytes p ++ tuples ps

-- A temporary bucket that holds these pairs.
pub record Holds (n : ℕ) (b : TempBucket) (ps : List Pair) : Type 0 where
  pub size_same : b.value_size ≡ n
  pub counted : b.records ≡ length ps
  pub written : b.file ≡ tuples ps

tuples-append : (ps qs : List Pair) → tuples (ps ++ qs) ≡ tuples ps ++ tuples qs
tuples-append [] qs = refl
tuples-append (p ∷ ps) qs =
    ap (λ l. tuple_bytes p ++ l) (tuples-append ps qs)
    ∙ sym (append_assoc (tuple_bytes p) (tuples ps) (tuples qs))

same_length : (k : ℕ) → k < 2 ^ 16 → k % 2 ^ 16 ≡ k
same_length k h = omega arith

pub write_tuple-Holds :
    (n : ℕ) (b : TempBucket) (ps : List Pair) (p : Pair)
    → Fits n p
    → Holds n b ps
    → Holds n (write_tuple b p.key p.value) (ps ++ (p ∷ []))
unfolding write_tuple
write_tuple-Holds n b ps p (hk, hv) h = record {
  size_same = h.size_same;
  counted = omega (arith, h.counted, length-append ps (p ∷ []));
  written =
      ap₂ (λ m l. l ++ ((put_le 2 m ++ copy_bytes (replicate b.value_size 0) p.value) ++ p.key))
        (same_length (length p.key) hk) h.written
      ∙ ap (λ l. tuples ps ++ ((put_le 2 (length p.key) ++ l) ++ p.key))
          (copy_bytes-full (replicate b.value_size 0) p.value
            (omega (arith, hv, h.size_same, length-replicate {A = ℕ} b.value_size 0)))
      ∙ ap (λ l. tuples ps ++ l) (sym (append-nil (tuple_bytes p)))
      ∙ sym (tuples-append ps (p ∷ []));
}

-- The entry of a pair.
abbrev pub entry_for : (List ℕ → ℕ) → ℕ → Pair → Entry
entry_for xxhash nonce p = record {
  hash = entry_hash64 xxhash nonce p.key % 2 ^ 24;
  value = p.value;
}

-- No two entries have one hash.
abbrev pub Distinct : List Entry → Type 0
Distinct [] = Unit {0}
Distinct (e ∷ es) = All (λ o. Entry.hash o ≢ e.hash) es × Distinct es

ok_injective : {x y : List Entry} → ◌≡◌ {A = Result Error (List Entry)} (ok x) (ok y) → x ≡ y
ok_injective q = cc

not_bool-false : (b : Bool) {u : Unit {0}} → guard (not_bool b) collision ≡ ok u → b ≡ false
unfolding not_bool
not_bool-false true e = cc
not_bool-false false e = refl

set_bit-false :
    (bitmap : Bitmap) (i j : ℕ) → set_bit bitmap i j ≡ false → (j ≢ i) × (bitmap j ≡ false)
set_bit-false bitmap i j e = (λ same. ground arith, ground arith)

read_full-append :
    (n : ℕ) (xs rest : List ℕ) → n ≡ length xs → read_full n (xs ++ rest) ≡ ok (xs, rest)
unfolding read_full
read_full-append n xs rest h =
    ground (arith, length-append xs rest, take-append xs rest n h, drop-append xs rest n h)

module _ (xxhash : List ℕ → ℕ) (n nonce : ℕ) where
  pub hash_entries_end :
      (rd : List ℕ) (bitmap : Bitmap) → hash_entries xxhash n nonce 0 rd bitmap ≡ ok []
  unfolding hash_entries
  hash_entries_end rd bitmap = refl

  -- One round of the loop, on a tuple.
  pub hash_entries_step :
      (p : Pair) (k : ℕ) (rest : List ℕ) (bitmap : Bitmap)
      → Fits n p
      → hash_entries xxhash n nonce (suc k) (tuple_bytes p ++ rest) bitmap ≡ (
          guard (not_bool (bitmap (Entry.hash (entry_for xxhash nonce p)))) collision >>= λ _.
          hash_entries xxhash n nonce k rest
            (set_bit bitmap (Entry.hash (entry_for xxhash nonce p)))
          >>= λ es. ok (entry_for xxhash nonce p ∷ es))
  unfolding hash_entries put_le
  hash_entries_step p k rest bitmap (hk, hv) =
      let static : List ℕ = put_le 2 (length p.key) ++ p.value in
      let two = length-put_le 2 (length p.key) in
      bind_ok (read_full (2 + n) (tuple_bytes p ++ rest)) _ (
        ap (read_full (2 + n)) (append_assoc static p.key rest)
        ∙ read_full-append (2 + n) static (p.key ++ rest)
            (omega (arith, hv, length-append (put_le 2 (length p.key)) p.value)))
      ∙ bind_ok (read_full (get_le (take 2 static)) (p.key ++ rest)) _ (
          read_full-append (get_le (take 2 static)) p.key rest (
            ap get_le (take-append (put_le 2 (length p.key)) p.value 2 (sym two))
            ∙ get_le-put_le 2 (length p.key) hk))

  pub hash_entries-tuples :
      (ps : List Pair) (bitmap : Bitmap) (es : List Entry)
      → All (Fits n) ps
      → hash_entries xxhash n nonce (length ps) (tuples ps) bitmap ≡ ok es
      → (es ≡ map (entry_for xxhash nonce) ps)
        × All (λ e. bitmap (Entry.hash e) ≡ false) es
        × Distinct es
  hash_entries-tuples [] bitmap es f e =
      let s : [] ≡ es = ok_injective (sym (hash_entries_end [] bitmap) ∙ e) in
      subst (λ l. (l ≡ []) × All (λ e. bitmap (Entry.hash e) ≡ false) l × Distinct l) s
        (refl, tt, tt)
  hash_entries-tuples (p ∷ ps) bitmap es f e =
      let e' = sym (hash_entries_step p (length ps) (tuples ps) bitmap f.0) ∙ e in
      let own : Entry = entry_for xxhash nonce p in
      let (_, free, e₁) = bind_inv (guard (not_bool (bitmap own.hash)) collision) _ e' in
      let (rest, q, e₂) =
        bind_inv (hash_entries xxhash n nonce (length ps) (tuples ps) (set_bit bitmap own.hash)) _
          e₁ in
      let (same, clear, distinct) = hash_entries-tuples ps (set_bit bitmap own.hash) rest f.1 q in
      let s : own ∷ rest ≡ es = cc e₂ in
      subst
        (λ l.
          (l ≡ map (entry_for xxhash nonce) (p ∷ ps))
          × All (λ e. bitmap (Entry.hash e) ≡ false) l
          × Distinct l)
        s
        (
          ap (λ l. own ∷ l) same,
          (
            not_bool-false _ free,
            All-imp _ _ (λ o h. (set_bit-false bitmap own.hash o.hash h).1) rest clear,
          ),
          (All-imp _ _ (λ o h. (set_bit-false bitmap own.hash o.hash h).0) rest clear, distinct),
        )
