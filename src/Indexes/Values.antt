-- ===== src/Indexes/Values.antt =====
-- indexes/offset-and-size.go: an offset with a size, and slices of them, as bytes and back.
use yellowstone_faithful.Prelude.{
  ℕ, ◌^◌, ◌<◌, ◌≡◌, ◌↔◌, ◌∙◌, sym, ap, ap₂, subst, ◌==◌, if◌then◌else◌, List, [], ◌∷◌, ◌++◌, length,
  take, drop, Result, ok, panic, guard, bind_ok, bind_inv, arith, length-append, length-take,
  length-drop, take-append-drop, take-append, drop-append, All-append_left, All-append_right,
}
use yellowstone_faithful.Bytes.{put_le, get_le, IsByte, AreBytes}
use yellowstone_faithful.Bytes.Laws.{length-put_le, put_le-get_le, get_le-put_le, get_le-lt}
use yellowstone_faithful.Indexes.{
  Error, OffsetAndSize, invalid_length, clone_and_pad, uint24tob, b_to_uint24, uint48tob,
  b_to_uint48, bytes, from_bytes, is_valid,
}

uint24tob-ok : (v : ℕ) → v < 2 ^ 24 → uint24tob v ≡ ok (put_le 3 v)
unfolding uint24tob put_le
uint24tob-ok v h = ground arith

uint48tob-ok : (v : ℕ) → v < 2 ^ 48 → uint48tob v ≡ ok (put_le 6 v)
unfolding uint48tob put_le
uint48tob-ok v h = ground arith

b_to_uint24-ok : (b : List ℕ) → length b ≡ 3 → b_to_uint24 b ≡ ok (get_le b)
unfolding b_to_uint24 clone_and_pad get_le
b_to_uint24-ok (x ∷ y ∷ z ∷ []) h = ground arith
b_to_uint24-ok _ h = absurd (omega arith)

b_to_uint48-ok : (b : List ℕ) → length b ≡ 6 → b_to_uint48 b ≡ ok (get_le b)
unfolding b_to_uint48 clone_and_pad get_le
b_to_uint48-ok (x ∷ y ∷ z ∷ u ∷ v ∷ w ∷ []) h = ground arith
b_to_uint48-ok _ h = absurd (omega arith)

-- `Bytes` returns the six bytes of the offset and the three of the size if both fit, and
-- panics if not; for a size of 32 bits.
pub bytes_lem :
    (oas : OffsetAndSize)
    → oas.size < 2 ^ 32
    → bytes oas ≡ (if is_valid oas then ok (put_le 6 oas.offset ++ put_le 3 oas.size) else panic)
unfolding bytes uint24tob uint48tob is_valid put_le
bytes_lem oas h = ground arith

bytes-Fits :
    (oas : OffsetAndSize) (b : List ℕ)
    → oas.size < 2 ^ 32
    → bytes oas ≡ ok b
    → (oas.offset < 2 ^ 48) × (oas.size < 2 ^ 24) × (b ≡ put_le 6 oas.offset ++ put_le 3 oas.size)
unfolding is_valid
bytes-Fits oas b h e =
    let q = sym (bytes_lem oas h) ∙ e in (ground arith, ground arith, ground arith)

pub from_bytes-parts :
    (xs ys : List ℕ)
    → length xs ≡ 6
    → length ys ≡ 3
    → from_bytes (xs ++ ys) ≡ ok (record { offset = get_le xs; size = get_le ys })
unfolding from_bytes
from_bytes-parts xs ys h₁ h₂ =
    bind_ok (guard (length (xs ++ ys) == 9) invalid_length) _ {a = tt} size_right
    ∙ bind_ok (b_to_uint48 (take 6 (xs ++ ys))) _
        (ap b_to_uint48 (take-append xs ys 6 (sym h₁)) ∙ b_to_uint48-ok xs h₁)
    ∙ bind_ok (b_to_uint24 (drop 6 (xs ++ ys))) _
        (ap b_to_uint24 (drop-append xs ys 6 (sym h₁)) ∙ b_to_uint24-ok ys h₂)
  where
    size_right : guard (length (xs ++ ys) == 9) invalid_length ≡ ok tt
    size_right = ground (arith, length-append xs ys)

from_bytes-length : (b : List ℕ) (oas : OffsetAndSize) → from_bytes b ≡ ok oas → length b ≡ 9
unfolding from_bytes
from_bytes-length b oas e =
    let (_, g, _) = bind_inv (guard (length b == 9) invalid_length) _ e in nine (length b) g
  where
    nine : (n : ℕ) {u : Unit {0}} → guard (n == 9) invalid_length ≡ ok u → n ≡ 9
    nine n g = ground arith

pub put_le_back : (xs : List ℕ) (n : ℕ) → AreBytes xs → length xs ≡ n → put_le n (get_le xs) ≡ xs
put_le_back xs n h e = ap (λ k. put_le k (get_le xs)) (sym e) ∙ put_le-get_le xs h

pub get_le_lt : (xs : List ℕ) (n : ℕ) → AreBytes xs → length xs ≡ n → get_le xs < 256 ^ n
get_le_lt xs n h e = subst (λ k. get_le xs < 256 ^ k) e (get_le-lt xs h)

bytes-ok :
    (oas : OffsetAndSize)
    → oas.offset < 2 ^ 48
    → oas.size < 2 ^ 24
    → bytes oas ≡ ok (put_le 6 oas.offset ++ put_le 3 oas.size)
unfolding is_valid
bytes-ok oas h₁ h₂ = ground (arith, bytes_lem oas (omega arith))

bytes-parts :
    (xs ys : List ℕ)
    → AreBytes xs
    → AreBytes ys
    → length xs ≡ 6
    → length ys ≡ 3
    → bytes (record { offset = get_le xs; size = get_le ys }) ≡ ok (xs ++ ys)
bytes-parts xs ys h₁ h₂ e₁ e₂ =
    bytes-ok (record { offset = get_le xs; size = get_le ys }) (get_le_lt xs 6 h₁ e₁)
      (get_le_lt ys 3 h₂ e₂)
    ∙ ap₂ (λ us ws. ok (us ++ ws)) (put_le_back xs 6 h₁ e₁) (put_le_back ys 3 h₂ e₂)

-- `Bytes` and `FromBytes` are each other's inverse: an offset and a size, of 32 bits, are written
-- to some bytes exactly if they are read from them.
pub bytes-from_bytes :
    (oas : OffsetAndSize) (b : List ℕ)
    → oas.size < 2 ^ 32
    → AreBytes b
    → (bytes oas ≡ ok b) ↔ (from_bytes b ≡ ok oas)
bytes-from_bytes oas b h bs = (written, read)
  where
    written : bytes oas ≡ ok b → from_bytes b ≡ ok oas
    written e =
        let (h₁, h₂, q) = bytes-Fits oas b h e in
        ap from_bytes q
        ∙ from_bytes-parts (put_le 6 oas.offset) (put_le 3 oas.size) (length-put_le 6 oas.offset)
            (length-put_le 3 oas.size)
        ∙ ap₂ (λ o s. ok (record { offset = o; size = s })) (get_le-put_le 6 oas.offset h₁)
            (get_le-put_le 3 oas.size h₂)

    same : {x y : OffsetAndSize} → ◌≡◌ {A = Result Error OffsetAndSize} (ok x) (ok y) → x ≡ y
    same q = cc

    read : from_bytes b ≡ ok oas → bytes oas ≡ ok b
    read e =
        let nine = from_bytes-length b oas e in
        let split = take-append-drop 6 b in
        let both : AreBytes (take 6 b ++ drop 6 b) = subst AreBytes (sym split) bs in
        let e₁ : length (take 6 b) ≡ 6 = omega (arith, length-take 6 b) in
        let e₂ : length (drop 6 b) ≡ 3 = omega (arith, length-drop 6 b) in
        let q = sym e ∙ ap from_bytes (sym split) ∙ from_bytes-parts (take 6 b) (drop 6 b) e₁ e₂ in
        ap bytes (same q)
        ∙ bytes-parts (take 6 b) (drop 6 b) (All-append_left IsByte (take 6 b) (drop 6 b) both)
            (All-append_right IsByte (take 6 b) (drop 6 b) both) e₁ e₂
        ∙ ap ok split
