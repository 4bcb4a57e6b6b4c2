-- ===== src/Eytzinger/Subtree.antt =====
-- The implicit binary tree of an Eytzinger layout: the children of node `k` are `2 * k` and
-- `2 * k + 1`, and node `k` stands at index `k - 1`.
use yellowstone_faithful.Prelude.{
  ℕ, zero, suc, ◌+◌, ◌-◌, ◌*◌, ◌/◌, ◌≤◌, ◌<◌, ◌≡◌, ◌≢◌, refl, arith, ltb, leb, ◌==◌, if◌then◌else◌,
}

-- 1 if node `m` is `k` or lies below it, else 0; the fuel is at least `m`.
pub under : ℕ → ℕ → ℕ → ℕ
under zero k m = 0
under (suc f) k m = let up = under f k (m / 2) in if m == k then 1 else if ltb m k then 0 else up

pub is_node : ℕ → ℕ → ℕ
is_node k m = if m == k then 1 else 0

pub is_node_one : (k m : ℕ) → 1 ≤ k → 1 ≤ m → k - 1 ≡ m - 1 → is_node k m ≡ 1
unfolding is_node
is_node_one k m hk hm e = ground arith

pub is_node_other : (k m : ℕ) → m ≢ k → is_node k m ≡ 0
unfolding is_node
is_node_other k m h = ground arith

pub under-le : (f k m : ℕ) → under f k m ≤ 1
unfolding under
under-le zero k m = omega arith
under-le (suc f) k m = ground (arith, under-le f k (m / 2))

pub under_above : (f k m : ℕ) → m < k → under f k m ≡ 0
unfolding under
under_above zero k m h = refl
under_above (suc f) k m h = ground arith

pub under_self : (f k : ℕ) → 1 ≤ f → under f k k ≡ 1
unfolding under
under_self zero k h = absurd (omega arith)
under_self (suc f) k h = ground arith

-- A node of the tree under `k` is `k`, or lies under just one of its two children.
pub under_split :
    (f k m : ℕ)
    → 1 ≤ k
    → m ≤ f
    → under f k m ≡ is_node k m + under f (2 * k) m + under f (2 * k + 1) m
unfolding under is_node
under_split zero k m hk hm = ground arith
under_split (suc f) k m hk hm = ground (
  arith,
  under_split f k (m / 2) hk,
  under_above f (2 * k) (m / 2),
  under_above f (2 * k + 1) (m / 2),
  under_self f k,
)

pub under_root : (f m : ℕ) → 1 ≤ m → m ≤ f → under f 1 m ≡ 1
unfolding under
under_root zero m h hm = absurd (omega arith)
under_root (suc f) m h hm = ground (arith, under_root f (m / 2))

-- How many of the nodes 1 to `n` lie under `k`.
pub count : ℕ → ℕ → ℕ → ℕ
count f zero k = 0
count f (suc n) k = count f n k + under f k (suc n)

pub count_above : (f n k : ℕ) → n < k → count f n k ≡ 0
unfolding count
count_above f zero k h = refl
count_above f (suc n) k h = omega (arith, count_above f n k, under_above f k (suc n))

node_count : ℕ → ℕ → ℕ
node_count zero k = 0
node_count (suc n) k = node_count n k + is_node k (suc n)

node_count_lem : (n k : ℕ) → 1 ≤ k → node_count n k ≡ (if leb k n then 1 else 0)
unfolding node_count is_node
node_count_lem zero k h = ground arith
node_count_lem (suc n) k h = ground (arith, node_count_lem n k h)

count_sum :
    (f n k : ℕ)
    → 1 ≤ k
    → n ≤ f
    → count f n k ≡ node_count n k + count f n (2 * k) + count f n (2 * k + 1)
unfolding count node_count
count_sum f zero k hk h = refl
count_sum f (suc n) k hk h =
    omega (arith, count_sum f n k hk (omega arith), under_split f k (suc n) hk (omega arith))

pub count_split :
    (f n k : ℕ)
    → 1 ≤ k
    → k ≤ n
    → n ≤ f
    → count f n k ≡ 1 + count f n (2 * k) + count f n (2 * k + 1)
count_split f n k hk hn h = ground (arith, count_sum f n k hk h, node_count_lem n k hk)

pub count_root : (f n : ℕ) → n ≤ f → count f n 1 ≡ n
unfolding count
count_root f zero h = refl
count_root f (suc n) h = omega (arith, count_root f n (omega arith), under_root f (suc n))
