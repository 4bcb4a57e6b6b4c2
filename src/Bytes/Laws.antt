-- ===== src/Bytes/Laws.antt =====
-- Lemmas on little-endian numbers and on `bytes.Equal`.
use yellowstone_faithful.Prelude.{
  ℕ, zero, suc, ◌+◌, ◌-◌, ◌*◌, ◌/◌, ◌^◌, ◌<◌, ◌≤◌, ◌-◌, ◌≡◌, ◌↔◌, refl, ap, ap₂, ◌∙◌, true, List,
  [], ◌∷◌, ◌++◌, length, arith, ok, length-append, take-append, drop-append, take_all, drop_all,
  append-nil, drop, length-take, length-drop,
}
use native.Mathlib.Nat.{pow-suc}
use yellowstone_faithful.Bytes.{
  put_le, get_le, bytes_equal, AreBytes, slice_checked, copy_bytes, slice,
}

pub length-put_le : (w x : ℕ) → length (put_le w x) ≡ w
unfolding put_le
length-put_le zero x = refl
length-put_le (suc w) x = ap suc (length-put_le w (x / 256))

pub put_le-AreBytes : (w x : ℕ) → AreBytes (put_le w x)
unfolding put_le
put_le-AreBytes zero x = tt
put_le-AreBytes (suc w) x = (omega arith, put_le-AreBytes w (x / 256))

pub get_le-put_le : (w x : ℕ) → x < 256 ^ w → get_le (put_le w x) ≡ x
unfolding put_le get_le
get_le-put_le zero x h = omega arith
get_le-put_le (suc w) x h = omega (arith, get_le-put_le w (x / 256) (omega arith))

pub put_le-get_le : (bs : List ℕ) → AreBytes bs → put_le (length bs) (get_le bs) ≡ bs
unfolding put_le get_le
put_le-get_le [] h = refl
put_le-get_le (b ∷ bs) h =
    ap₂ ◌∷◌ (omega arith) (
      ap (put_le (length bs)) {x = (b + 256 * get_le bs) / 256} (omega arith)
      ∙ put_le-get_le bs h.1)

pub get_le-lt : (bs : List ℕ) → AreBytes bs → get_le bs < 256 ^ length bs
unfolding get_le
get_le-lt [] h = omega arith
get_le-lt (b ∷ bs) h = omega (arith, get_le-lt bs h.1, pow-suc 256 (length bs))

pub bytes_equal_iff : (xs ys : List ℕ) → (bytes_equal xs ys ≡ true) ↔ (xs ≡ ys)
unfolding bytes_equal
bytes_equal_iff [] [] = ground arith
bytes_equal_iff [] (y ∷ ys) = ground arith
bytes_equal_iff (x ∷ xs) [] = ground arith
bytes_equal_iff (x ∷ xs) (y ∷ ys) = ground (arith, bytes_equal_iff xs ys)

pub bytes_equal_self : (xs : List ℕ) → bytes_equal xs xs ≡ true
bytes_equal_self xs = (bytes_equal_iff xs xs).1 refl

pub slice_checked-inside :
    {E : Type 0} (pre mid suf : List ℕ) (lo hi : ℕ)
    → lo ≡ length pre
    → hi ≡ lo + length mid
    → slice_checked {E = E} (pre ++ (mid ++ suf)) lo hi ≡ ok mid
unfolding slice_checked
slice_checked-inside pre mid suf lo hi h₁ h₂ = ground (
  arith,
  length-append pre (mid ++ suf),
  length-append mid suf,
  drop-append pre (mid ++ suf) lo h₁,
  take-append mid suf (hi - lo) (omega arith),
)

pub slice_checked-ok :
    {E : Type 0} (buf : List ℕ) (lo hi : ℕ)
    → lo ≤ hi
    → hi ≤ length buf
    → slice_checked {E = E} buf lo hi ≡ ok (slice buf lo (hi - lo))
unfolding slice_checked
slice_checked-ok buf lo hi h₁ h₂ = ground arith

pub length-slice : (buf : List ℕ) (lo n : ℕ) → lo + n ≤ length buf → length (slice buf lo n) ≡ n
length-slice buf lo n h = omega (arith, length-take n (drop lo buf), length-drop lo buf)

-- A copy of as many bytes.
pub copy_bytes-full : (dst src : List ℕ) → length src ≡ length dst → copy_bytes dst src ≡ src
unfolding copy_bytes
copy_bytes-full dst src h =
    ap₂ ◌++◌ (take_all src (length dst) (omega arith)) (drop_all dst (length src) (omega arith))
    ∙ append-nil src
