-- ===== src/CompactIndex/NewBuilder.antt =====
-- compactindexsized/build.go: the builder that `NewBuilderSized` makes, and buckets taken one by one.
use yellowstone_faithful.Prelude.{
  Bool, ℕ, zero, suc, ◌+◌, ◌-◌, ◌/◌, ◌%◌, ◌^◌, ◌<◌, ◌≤◌, ◌≡◌, ◌∙◌, refl, sym, ap, subst, some, List,
  [], ◌∷◌, length, get_elem?, replicate, ok, bind_inv, arith, All, length-replicate, Bool, guard,
  ltb, leb,
}
use yellowstone_faithful.CompactIndex.{
  Header, value_size_zero, value_size_too_large, num_items_zero,
}
use yellowstone_faithful.CompactIndex.Builder.{Builder, TempBucket, new_builder_sized}
use yellowstone_faithful.CompactIndex.Tuples.{Pair, Fits, Holds}
use yellowstone_faithful.CompactIndex.SealedFile.{Filled}
use yellowstone_faithful.CompactIndex.Inserting.{Kept, bucket_injective, ok_injective}
use yellowstone_faithful.Meta.{new_meta}

-- The number of buckets of `NewBuilderSized`.
abbrev buckets_for : ℕ → ℕ
buckets_for num_items = (num_items + 10000 - 1) % 2 ^ 64 / 10000

buckets_for-bounds :
    (num_items : ℕ)
    → 0 < num_items
    → num_items < 2 ^ 45
    → (0 < buckets_for num_items) × (buckets_for num_items < 2 ^ 32)
buckets_for-bounds num_items pos h = (omega arith, omega arith)

abbrev pub empty_builder : ℕ → ℕ → Builder
empty_builder n num_buckets = record {
  header = record { value_size = n; num_buckets = num_buckets; meta_data = new_meta };
  buckets = replicate num_buckets (record { records = 0; value_size = n; file = [] });
}

pub new_builder_sized-inv :
    (num_items n : ℕ) (b : Builder)
    → num_items < 2 ^ 45
    → new_builder_sized num_items n ≡ ok b
    → (0 < b.header.num_buckets)
      × (b.header.num_buckets < 2 ^ 32)
      × (0 < n)
      × (empty_builder n b.header.num_buckets ≡ b)
unfolding new_builder_sized
new_builder_sized-inv num_items n b h e =
    let (_, positive, e₁) = bind_inv (guard (ltb 0 n) value_size_zero) _ e in
    let (_, _, e₂) = bind_inv (guard (leb n 255) value_size_too_large) _ e₁ in
    let (_, some_items, e₃) = bind_inv (guard (ltb 0 num_items) num_items_zero) _ e₂ in
    let (lo, hi) = buckets_for-bounds num_items (ground arith) h in
    let same : buckets_for num_items % 2 ^ 32 ≡ buckets_for num_items = omega arith in
    let r : empty_builder n (buckets_for num_items) ≡ b =
      ap
        (λ k. record {
          header = record { value_size = n; num_buckets = k; meta_data = new_meta };
          buckets =
              replicate (buckets_for num_items) (record { records = 0; value_size = n; file = [] });
        })
        (sym same)
      ∙ ok_injective e₃ in
    subst
      (λ b.
        (0 < b.header.num_buckets)
        × (b.header.num_buckets < 2 ^ 32)
        × (0 < n)
        × (empty_builder n b.header.num_buckets ≡ b))
      r (lo, hi, ground arith, refl)

get_elem?-replicate :
    (n : ℕ) (x : TempBucket) (i : ℕ) {y : TempBucket} → get_elem? (replicate n x) i ≡ some y → x ≡ y
get_elem?-replicate zero x i e = cc
get_elem?-replicate (suc n) x zero e = bucket_injective e
get_elem?-replicate (suc n) x (suc i) e = get_elem?-replicate n x i e

pub empty_builder-Kept :
    (xxhash : List ℕ → ℕ) (fuel : ℕ) (n num_buckets : ℕ)
    → Kept xxhash fuel
        (Builder.header (empty_builder n num_buckets))
        []
        (empty_builder n num_buckets)
empty_builder-Kept xxhash fuel n num_buckets = (
  refl,
  (λ _. []),
  record {
    count = length-replicate num_buckets (record { records = 0; value_size = n; file = [] });
    held = λ i b e.
        subst (λ b. Holds n b []) (get_elem?-replicate num_buckets _ i e)
          (record { size_same = refl; counted = refl; written = refl });
    fits = λ _. tt;
    few = λ _. omega arith;
    sound = λ i p m. cc;
    only = λ i. refl;
    complete = λ p m. cc;
  },
)

-- Buckets in which a table is held, one by one.
pub Filled-pointwise :
    (xxhash : List ℕ → ℕ) (done : ℕ → ℕ → Bool) (h : Header) (small : h.value_size ≤ 252)
    (table : ℕ → List Pair) (i : ℕ) (bs : List TempBucket)
    → ((k : ℕ) → All (Fits h.value_size) (table k) × (length (table k) < 2 ^ 32))
    → ((k : ℕ) (b : TempBucket) → get_elem? bs k ≡ some b → Holds h.value_size b (table (i + k)))
    → Filled xxhash done h small table i bs
Filled-pointwise xxhash done h small table i [] all held = tt
Filled-pointwise xxhash done h small table i (b ∷ bs) all held = (
  subst (λ k. Holds h.value_size b (table k)) {x = i + 0} (omega arith) (held 0 b refl),
  (all i).0,
  (all i).1,
  Filled-pointwise xxhash done h small table (i + 1) bs all (λ k o e.
      subst (λ k. Holds h.value_size o (table k)) {x = i + suc k} (omega arith) (held (suc k) o e)),
)
