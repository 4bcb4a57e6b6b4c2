-- ===== src/CompactIndex/Hashing.antt =====
-- compactindexsized/compactindex.go: `BucketHash`.
use yellowstone_faithful.Prelude.{
  ℕ, zero, suc, ◌%◌, ◌^◌, ◌<◌, ◌≤◌, ◌≡◌, ◌==◌, ◌↔◌, ◌∙◌, refl, List, ok, stuck, ltb, bind_ok,
  bind_inv, arith, Bool-cases, inl, inr,
}
use yellowstone_faithful.CompactIndex.{Header, hash_uint64, threshold, rotate, bucket_hash}

hash_uint64_zero : hash_uint64 0 ≡ 0
unfolding hash_uint64
hash_uint64_zero = refl

rotate_zero : (f r : ℕ) → 0 < r → rotate f r 0 ≡ stuck
unfolding rotate
rotate_zero zero r h = refl
rotate_zero (suc f) r h = ground (arith, rotate_zero f r h, hash_uint64_zero)

-- On a key whose sum is 0 the loop of `BucketHash` never ends, whatever the fuel, unless the number
-- of buckets divides 2 ^ 64.
pub bucket_hash_endless :
    (xxhash : List ℕ → ℕ) (fuel : ℕ) (h : Header) (key : List ℕ)
    → 0 < threshold h.num_buckets
    → 0 < h.num_buckets
    → xxhash key ≡ 0
    → bucket_hash xxhash fuel h key ≡ stuck
unfolding bucket_hash
bucket_hash_endless xxhash fuel h key hr hn e =
    rw e (ground (arith, rotate_zero fuel (threshold h.num_buckets) hr))

-- The hash of `BucketHash`'s loop, taken k times.
abbrev pub hash_times : ℕ → ℕ → ℕ
hash_times zero u = u
hash_times (suc k) u = hash_times k (hash_uint64 u)

-- Of u, its hash, the hash of that and so on, fewer than the fuel, `out` is the first that is at
-- least r.
abbrev pub FirstAbove : ℕ → ℕ → ℕ → ℕ → Type 0
FirstAbove fuel r u out =
    (k : ℕ) × (k < fuel)
    × ((j : ℕ) → j < k → hash_times j u < r)
    × (r ≤ out)
    × (out ≡ hash_times k u)

FirstAbove-suc :
    (f r u out : ℕ) → u < r → FirstAbove f r (hash_uint64 u) out → FirstAbove (suc f) r u out
FirstAbove-suc f r u out below (k, lt, before, le, e) = (suc k, omega arith, earlier, le, e)
  where
    earlier : (j : ℕ) → j < suc k → hash_times j u < r
    earlier zero lt' = below
    earlier (suc j) lt' = before j (omega arith)

FirstAbove-rest :
    (f r u out : ℕ) → u < r → FirstAbove (suc f) r u out → FirstAbove f r (hash_uint64 u) out
FirstAbove-rest f r u out below (zero, lt, before, le, e) = absurd (omega arith)
FirstAbove-rest f r u out below (suc k, lt, before, le, e) =
    (k, omega arith, λ j lt'. before (suc j) (omega arith), le, e)

FirstAbove-now : (f r u out : ℕ) → r ≤ u → FirstAbove (suc f) r u out → u ≡ out
FirstAbove-now f r u out above (zero, lt, before, le, e) = cc
FirstAbove-now f r u out above (suc k, lt, before, le, e) =
    let below : u < r = before zero (omega arith) in absurd (omega arith)

rotate_iff : (f r u out : ℕ) → (rotate f r u ≡ ok out) ↔ FirstAbove f r u out
unfolding rotate
rotate_iff zero r u out = (λ e. cc, λ (k, lt, before, le, q). absurd (omega arith))
rotate_iff (suc f) r u out = elim (Bool-cases (ltb u r)) [
  | inl t ↦ rw t (
    λ e. FirstAbove-suc f r u out (ground arith) ((rotate_iff f r (hash_uint64 u) out).0 e),
    λ first.
        (rotate_iff f r (hash_uint64 u) out).1 (FirstAbove-rest f r u out (ground arith) first),
  )
  | inr above ↦ rw above (
    λ e. (zero, omega arith, λ j lt. absurd (omega arith), ground arith, cc),
    λ first. let e = FirstAbove-now f r u out (ground arith) first in cc,
  )
]

threshold_lem : (n : ℕ) → 0 < n → n < 2 ^ 32 → threshold n ≡ 2 ^ 64 % n
unfolding threshold
threshold_lem n pos h = grind arith

-- For a number of buckets below 2 ^ 32, `BucketHash` returns i exactly where that number is not 0
-- and i is the remainder by it of the first number, among the sum of the key, its hash, the hash of
-- that and so on, that is not below the remainder of 2 ^ 64 by it, if the fuel lets the loop come
-- to that number.
pub bucket_hash_iff :
    (xxhash : List ℕ → ℕ) (fuel : ℕ) (h : Header) (key : List ℕ) (i : ℕ)
    → h.num_buckets < 2 ^ 32
    → (bucket_hash xxhash fuel h key ≡ ok i) ↔ (
        (0 < h.num_buckets)
        × (u : ℕ) × FirstAbove fuel (2 ^ 64 % h.num_buckets) (xxhash key) u
        × (i ≡ u % h.num_buckets))
unfolding bucket_hash
bucket_hash_iff xxhash fuel h key i hs = elim (Bool-cases (h.num_buckets == 0)) [
  | inl zeros ↦ rw zeros (λ e. cc, λ (pos, u, first, same). absurd (ground arith))
  | inr some_buckets ↦
      let pos : 0 < h.num_buckets = ground arith in
      rw some_buckets (
        rw (threshold_lem h.num_buckets pos hs) (
          λ e.
              let (u, q, r) =
                bind_inv (rotate fuel (2 ^ 64 % h.num_buckets) (xxhash key))
                  (λ u. ok (u % h.num_buckets)) e in
              (pos, u, (rotate_iff fuel (2 ^ 64 % h.num_buckets) (xxhash key) u).0 q, cc),
          λ (pos', u, first, same).
              bind_ok (rotate fuel (2 ^ 64 % h.num_buckets) (xxhash key))
                (λ u. ok (u % h.num_buckets))
                ((rotate_iff fuel (2 ^ 64 % h.num_buckets) (xxhash key) u).1 first)
              ∙ cc,
        ))
]

mod_lt : (a b : ℕ) → 0 < b → a % b < b
mod_lt a b h = grind arith

pub bucket_hash-lt :
    (xxhash : List ℕ → ℕ) (fuel : ℕ) (h : Header) (key : List ℕ) (i : ℕ)
    → h.num_buckets < 2 ^ 32
    → bucket_hash xxhash fuel h key ≡ ok i
    → i < h.num_buckets
bucket_hash-lt xxhash fuel h key i hs e =
    let (pos, u, first, same) = (bucket_hash_iff xxhash fuel h key i hs).0 e in
    rw same (mod_lt u h.num_buckets pos)
