-- ===== src/Bucketteer/Examples.antt =====
-- A writer with two signatures, and the theorems of the package applied to it.
use yellowstone_faithful.Prelude.{
  ℕ, ◌+◌, ◌%◌, ◌^◌, ◌<◌, ◌≤◌, ◌≡◌, refl, Bool, true, false, ◌||◌, List, [], ◌∷◌, length, All,
  Result, ok, err, get_elem?, replicate, arith, ◌==◌, if◌then◌else◌, or_panic,
}
use yellowstone_faithful.Streams.{bytes_reader}
use yellowstone_faithful.Meta.{new_meta}
use yellowstone_faithful.Borsh.{list_borsh}
use yellowstone_faithful.Sorting.{sort_by, insert_sorted}
use yellowstone_faithful.Eytzinger.{eytzinger, layout, inorder}
use yellowstone_faithful.Eytzinger.Layout.{layout_total}
use yellowstone_faithful.Bucketteer.{BucketError, not_found, prefix_to_uint16, search_eytzinger}
use yellowstone_faithful.Bucketteer.Writer
use yellowstone_faithful.Bucketteer.Writer.{
  Writer, new_writer, put, has_hash, get_clean_set, sort_with_compare, seal,
}
use yellowstone_faithful.Bucketteer.Reader
use yellowstone_faithful.Bucketteer.Reader.{Reader, new_reader}
use yellowstone_faithful.Bucketteer.CleanSet.{Increasing, get_clean_set_lem}
use yellowstone_faithful.Bucketteer.Search.{Reads, search_eytzinger_lem}
use yellowstone_faithful.Bucketteer.BucketReads.{IsU64}
use yellowstone_faithful.Bucketteer.RoundTrip.{IsSignature}
use yellowstone_faithful.Bucketteer.Membership.{Fits, alike, has-put, has-seal}

-- A hash for the examples: the sum of the bytes.
sum_hash : List ℕ → ℕ
sum_hash [] = 0
sum_hash (b ∷ bs) = (b + sum_hash bs) % 2 ^ 64

abbrev sig_a : List ℕ
sig_a = 1 ∷ 2 ∷ replicate 62 0

abbrev sig_b : List ℕ
sig_b = 1 ∷ 2 ∷ replicate 62 5

abbrev one_put : Writer
one_put = put sum_hash (new_writer []) sig_a

has-put_example :
    Writer.has sum_hash (put sum_hash one_put sig_b) sig_a
    ≡ (Writer.has sum_hash one_put sig_a || alike sum_hash sig_b sig_a)
has-put_example = has-put sum_hash one_put sig_b sig_a

abbrev bucket : List ℕ
bucket = 9 ∷ 4 ∷ 4 ∷ 7 ∷ []

get_clean_set_lem_example :
    Increasing (get_clean_set bucket)
    × ((h : ℕ) → has_hash (get_clean_set bucket) h ≡ has_hash bucket h)
    × (length (get_clean_set bucket) ≤ 4)
get_clean_set_lem_example = get_clean_set_lem bucket

clean_bucket : get_clean_set bucket ≡ 4 ∷ 7 ∷ 9 ∷ []
unfolding get_clean_set insert_sorted sort_by Writer.dedup Writer.dedup_after
clean_bucket = refl

abbrev in_order : List ℕ
in_order = 7 ∷ 4 ∷ 9 ∷ []

bucket_laid : sort_with_compare (4 ∷ 7 ∷ 9 ∷ []) ≡ ok in_order
unfolding sort_with_compare layout eytzinger sort_by insert_sorted
bucket_laid = refl

layout_total_example :
    (out : List ℕ) × (layout {E = BucketError} 0 (4 ∷ 7 ∷ 9 ∷ []) ≡ ok out)
    × (length out ≡ 3)
    × ((f : ℕ) → 3 < f → inorder f out 1 ≡ 4 ∷ 7 ∷ 9 ∷ [])
layout_total_example = layout_total {E = BucketError} 0 (4 ∷ 7 ∷ 9 ∷ [])

abbrev getter : ℕ → Result BucketError ℕ
getter i = or_panic (get_elem? in_order i)

getter-Reads : Reads in_order getter
getter-Reads i v e = rw e

search_eytzinger_lem_example :
    search_eytzinger 3 9 getter ≡ (if has_hash (4 ∷ 7 ∷ 9 ∷ []) 9 then ok 9 else err not_found)
search_eytzinger_lem_example =
    search_eytzinger_lem (4 ∷ 7 ∷ 9 ∷ []) in_order 9 getter bucket_laid getter-Reads

branch-IsU64 : (b : Bool) → All IsU64 (if b then sum_hash sig_a ∷ [] else [])
unfolding sum_hash
branch-IsU64 true = omega arith
branch-IsU64 false = tt

one_put-Fits : Fits one_put
unfolding put new_writer
one_put-Fits = record {
  small = λ p. ground arith;
  hashes_u64 = λ p. branch-IsU64 (prefix_to_uint16 (1 ∷ 2 ∷ []) == p);
}

has-seal_example :
    (size : ℕ) × (file : List ℕ) × (r : Reader) × (seal list_borsh one_put new_meta
      ≡ ok (size, file))
    × (size ≡ length file)
    × (new_reader list_borsh (bytes_reader file) ≡ ok r)
    × (r.meta_data ≡ new_meta)
    × ((sig : List ℕ)
        → IsSignature sig
        → Reader.has sum_hash r sig ≡ ok (Writer.has sum_hash one_put sig))
has-seal_example = has-seal list_borsh sum_hash one_put new_meta (omega arith) one_put-Fits
