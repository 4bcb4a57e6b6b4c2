-- ===== src/BlockTime/RoundTrip.antt =====
-- blocktimeindex/writer.go: `marshalBinary` and `unmarshalBinary` against each other.
use yellowstone_faithful.Prelude.{
  ℕ, suc, ◌^◌, ◌<◌, ◌≡◌, ◌↔◌, ◌∙◌, refl, sym, ap, List, [], ◌∷◌, ◌++◌, length, replicate, All,
  Result, ok, bind_ok, bind_inv, take-append, drop-append, append_assoc, append-nil, arith,
}
use yellowstone_faithful.Prelude.Int.{ℤ, pos, negsuc}
use yellowstone_faithful.Bytes.{put_le, bytes_equal}
use yellowstone_faithful.Bytes.Laws.{length-put_le, get_le-put_le}
use yellowstone_faithful.Slots.{calc_epoch_for_slot}
use yellowstone_faithful.BlockTime.{
  Index, IsValid, Error, FitsTime, magic, make_values, blocktime_to_bytes, marshal_values,
  marshal_binary, read_buf, read_values, check_epochs, read_capacity, from_bytes,
}

-- The four bytes of a time that fits.
abbrev pub time_bytes : ℤ → List ℕ
time_bytes (pos n) = put_le 4 n
time_bytes (negsuc n) = []

abbrev pub times_bytes : List ℤ → List ℕ
times_bytes [] = []
times_bytes (t ∷ ts) = time_bytes t ++ times_bytes ts

abbrev pub header : Index → List ℕ
header i =
    magic ++ (put_le 8 i.start ++ (put_le 8 i.end ++ (put_le 8 i.epoch ++ put_le 8 i.capacity)))

blocktime_to_bytes-ok : (t : ℤ) → FitsTime t → blocktime_to_bytes t ≡ ok (time_bytes t)
unfolding blocktime_to_bytes FitsTime
blocktime_to_bytes-ok (pos n) h = ground arith
blocktime_to_bytes-ok (negsuc n) h = absurd (omega arith)

blocktime_to_bytes-FitsTime : (t : ℤ) {b : List ℕ} → blocktime_to_bytes t ≡ ok b → FitsTime t
unfolding blocktime_to_bytes FitsTime
blocktime_to_bytes-FitsTime (pos n) e = ground arith
blocktime_to_bytes-FitsTime (negsuc n) e = cc

marshal_values-ok :
    (ts : List ℤ) (out : List ℕ)
    → All FitsTime ts
    → marshal_values ts out ≡ ok (out ++ times_bytes ts)
unfolding marshal_values
marshal_values-ok [] out h = ap ok (sym (append-nil out))
marshal_values-ok (t ∷ ts) out h =
    bind_ok (blocktime_to_bytes t) _ (blocktime_to_bytes-ok t h.0)
    ∙ marshal_values-ok ts (out ++ time_bytes t) h.1
    ∙ ap ok (append_assoc out (time_bytes t) (times_bytes ts))

marshal_values-FitsTime :
    (ts : List ℤ) (out : List ℕ) {b : List ℕ} → marshal_values ts out ≡ ok b → All FitsTime ts
unfolding marshal_values
marshal_values-FitsTime [] out e = tt
marshal_values-FitsTime (t ∷ ts) out e =
    let (b, q, e') = bind_inv (blocktime_to_bytes t) (λ b. marshal_values ts (out ++ b)) e in
    (blocktime_to_bytes-FitsTime t q, marshal_values-FitsTime ts (out ++ b) e')

-- `MarshalBinary` succeeds exactly on an index of times from 0 up to 2 ^ 32 - 1, and then returns
-- the header and four bytes for each time.
pub marshal_index_iff :
    (i : Index) (b : List ℕ)
    → (marshal_binary i ≡ ok b) ↔ (All FitsTime i.values × (b ≡ header i ++ times_bytes i.values))
unfolding marshal_binary
marshal_index_iff i b = (
  λ e.
      let h = marshal_values-FitsTime i.values (header i) e in
      (h, ok_injective (sym e ∙ marshal_values-ok i.values (header i) h)),
  λ h. rw h.1 (marshal_values-ok i.values (header i) h.0),
)
  where
    ok_injective : {x y : List ℕ} → ◌≡◌ {A = Result Error (List ℕ)} (ok x) (ok y) → x ≡ y
    ok_injective q = cc

-- A full read.
pub read_buf-append :
    (n : ℕ) (xs rest : List ℕ) → length xs ≡ suc n → read_buf (suc n) (xs ++ rest) ≡ ok (xs, rest)
unfolding read_buf
read_buf-append n [] rest h = absurd (omega arith)
read_buf-append n (x ∷ xs) rest h =
    ground (
      arith,
      take-append xs rest n (omega arith),
      drop-append xs rest n (omega arith),
      append-nil xs,
    )

read_values-times :
    (ts : List ℤ) (rest : List ℕ)
    → All FitsTime ts
    → read_values (length ts) (times_bytes ts ++ rest) ≡ ok ts
unfolding read_values FitsTime
read_values-times [] rest h = refl
read_values-times (negsuc n ∷ ts) rest h = absurd (omega (arith, h.0))
read_values-times (pos n ∷ ts) rest h =
    bind_ok (read_buf 4 ((put_le 4 n ++ times_bytes ts) ++ rest)) _ (
      ap (read_buf 4) (append_assoc (put_le 4 n) (times_bytes ts) rest)
      ∙ read_buf-append 3 (put_le 4 n) (times_bytes ts ++ rest) (length-put_le 4 n))
    ∙ bind_ok (read_values (length ts) (times_bytes ts ++ rest)) _ (read_values-times ts rest h.1)
    ∙ ap (λ k. ok (pos k ∷ ts)) (get_le-put_le 4 n (omega (arith, h.0)))

make_values-same : (n : ℕ) → n < 2 ^ 63 → (vs : List ℤ) × (make_values n ≡ ok vs)
unfolding make_values
make_values-same n h = (replicate n (pos 0), ground arith)

read_number :
    (n : ℕ) (rest : List ℕ) → n < 2 ^ 64 → read_buf 8 (put_le 8 n ++ rest) ≡ ok (put_le 8 n, rest)
read_number n rest h = read_buf-append 7 (put_le 8 n) rest (length-put_le 8 n)

check_epochs-ok : (i : Index) → IsValid i → check_epochs i.start i.end i.epoch ≡ ok tt
unfolding check_epochs
check_epochs-ok i v = ground (arith, v.start_epoch, v.end_epoch)

read_capacity-ok :
    (i : Index) (tail : List ℕ) (vs : List ℤ)
    → IsValid i
    → read_values i.capacity tail ≡ ok vs
    → read_capacity i.start i.end i.epoch (put_le 8 i.capacity ++ tail)
      ≡ ok (record i { values = vs })
unfolding read_capacity
read_capacity-ok i tail vs v e =
    let (_, q) = make_values-same i.capacity v.capacity_lt in
    let same = get_le-put_le 8 i.capacity (omega (arith, v.capacity_lt)) in
    bind_ok (read_buf 8 (put_le 8 i.capacity ++ tail)) _
      (read_number i.capacity tail (omega (arith, v.capacity_lt)))
    ∙ rw same
        (bind_ok (make_values i.capacity) _ q ∙ bind_ok (read_values i.capacity tail) _ e ∙ refl)

epoch_lt : (start epoch : ℕ) → start < 2 ^ 64 → calc_epoch_for_slot start ≡ epoch → epoch < 2 ^ 64
unfolding calc_epoch_for_slot
epoch_lt start epoch lt same = omega arith

-- Behind the header of a valid index, `FromBytes` returns what the loop over the values reads.
pub from_bytes-header :
    (i : Index) (tail : List ℕ) (vs : List ℤ)
    → IsValid i
    → read_values i.capacity tail ≡ ok vs
    → from_bytes (header i ++ tail) ≡ ok (record i { values = vs })
unfolding from_bytes bytes_equal
from_bytes-header i tail vs v e =
    let r₄ : List ℕ = put_le 8 i.capacity ++ tail in
    let r₃ : List ℕ = put_le 8 i.epoch ++ r₄ in
    let r₂ : List ℕ = put_le 8 i.end ++ r₃ in
    let r₁ : List ℕ = put_le 8 i.start ++ r₂ in
    let split : header i ++ tail ≡ magic ++ r₁ = simp append_assoc in
    let small : i.epoch < 2 ^ 64 = epoch_lt i.start i.epoch v.start_lt v.start_epoch in
    let number = λ (n : ℕ) (lt : n < 2 ^ 64). get_le-put_le 8 n (omega arith) in
    bind_ok (read_buf 14 (header i ++ tail)) _
      (ap (read_buf 14) split ∙ read_buf-append 13 magic r₁ refl)
    ∙ bind_ok (read_buf 8 r₁) _ (read_number i.start r₂ v.start_lt)
    ∙ bind_ok (read_buf 8 r₂) _ (read_number i.end r₃ v.end_lt)
    ∙ bind_ok (read_buf 8 r₃) _ (read_number i.epoch r₄ small)
    ∙ rw (number i.start v.start_lt, number i.end v.end_lt, number i.epoch small)
        (bind_ok (check_epochs i.start i.end i.epoch) _ (check_epochs-ok i v)
          ∙ read_capacity-ok i tail vs v e)

-- What `MarshalBinary` wrote of an index that keeps its invariant, `FromBytes` reads back to the
-- same index, with anything behind it.
pub from_bytes-marshal_binary :
    (i : Index) (b rest : List ℕ)
    → IsValid i
    → marshal_binary i ≡ ok b
    → from_bytes (b ++ rest) ≡ ok i
from_bytes-marshal_binary i b rest v e =
    let (h, q) = (marshal_index_iff i b).0 e in
    let tail : List ℕ = times_bytes i.values ++ rest in
    let split : b ++ rest ≡ header i ++ tail =
      rw q (append_assoc (header i) (times_bytes i.values) rest) in
    ap from_bytes split
    ∙ from_bytes-header i tail i.values v
        (ap (λ n. read_values n tail) (sym v.filled) ∙ read_values-times i.values rest h)
