-- ===== src/Meta/Examples.antt =====
-- Metadata at concrete inputs, and the theorems about it applied there.
use yellowstone_faithful.Prelude.{
  ℕ, ◌<◌, ◌≤◌, ◌≡◌, ◌↔◌, refl, List, [], ◌∷◌, ◌++◌, length, ok, if◌then◌else◌,
}
use yellowstone_faithful.Bytes.{bytes_equal}
use yellowstone_faithful.Meta.{
  Meta, new_meta, marshal_binary, unmarshal_with_decoder, add, get, get_all, count, remove, replace,
}
use yellowstone_faithful.Meta.Decoder.{list_decoder}
use yellowstone_faithful.Meta.RoundTrip.{IsValid, encode, marshal_binary_iff, unmarshal-marshal}
use yellowstone_faithful.Meta.KeyValues.{
  first, with_first, queries_agree, get_all-add, get_all-remove, get_all-replace, FirstChanged,
  replace_iff,
}

abbrev kind : List ℕ
kind = 7 ∷ 8 ∷ []

abbrev sample : Meta
sample = record {
  key_vals =
      record { key = kind; value = 1 ∷ [] }
      ∷ record { key = []; value = 2 ∷ 3 ∷ [] }
      ∷ record { key = kind; value = [] }
      ∷ [];
}

abbrev sample_bytes : List ℕ
sample_bytes = 3 ∷ 2 ∷ 7 ∷ 8 ∷ 1 ∷ 1 ∷ 0 ∷ 2 ∷ 2 ∷ 3 ∷ 2 ∷ 7 ∷ 8 ∷ 0 ∷ []

sample_marshalled : marshal_binary sample ≡ ok sample_bytes
unfolding marshal_binary
sample_marshalled = refl

marshal_binary_iff_example :
    (marshal_binary sample ≡ ok sample_bytes) ↔ (IsValid sample × (sample_bytes ≡ encode sample))
marshal_binary_iff_example = marshal_binary_iff sample sample_bytes

unmarshal-marshal_example :
    (s' : List ℕ) × (unmarshal_with_decoder list_decoder new_meta (sample_bytes ++ (9 ∷ []))
      ≡ ok (sample, s'))
    × (s' ≡ 9 ∷ [])
unmarshal-marshal_example =
    unmarshal-marshal list_decoder sample new_meta sample_bytes (9 ∷ []) (sample_bytes ++ (9 ∷ []))
      sample_marshalled refl

queries_agree_example :
    (get sample kind ≡ first (get_all sample kind))
    × (count sample kind ≡ length (get_all sample kind))
queries_agree_example = queries_agree sample kind

abbrev longer : Meta
longer = record { key_vals = sample.key_vals ++ (record { key = kind; value = 4 ∷ [] } ∷ []) }

longer_added : add sample kind (4 ∷ []) ≡ ok longer
unfolding add
longer_added = refl

get_all-add_example :
    (get_all longer kind ≡ (
      if bytes_equal kind kind
      then get_all sample kind ++ ((4 ∷ []) ∷ [])
      else get_all sample kind))
    × (IsValid sample → IsValid longer)
get_all-add_example = get_all-add sample longer kind (4 ∷ []) kind longer_added

get_all-remove_example :
    get_all (remove sample kind) [] ≡ (if bytes_equal kind [] then [] else get_all sample [])
get_all-remove_example = get_all-remove sample kind []

abbrev five : List ℕ
five = 5 ∷ []

abbrev changed : Meta
changed = record {
  key_vals =
      record { key = kind; value = 5 ∷ [] }
      ∷ record { key = []; value = 2 ∷ 3 ∷ [] }
      ∷ record { key = kind; value = [] }
      ∷ [];
}

changed_replaced : replace sample kind five ≡ ok changed
unfolding replace bytes_equal
changed_replaced = refl

get_all-replace_example :
    get_all changed kind
    ≡ (if bytes_equal kind kind then with_first five (get_all sample kind) else get_all sample kind)
get_all-replace_example = get_all-replace sample changed kind five kind changed_replaced

replace_iff_example : (replace sample kind five ≡ ok changed) ↔ (
    (length sample.key_vals < 255)
    × (length kind ≤ 255)
    × (length five ≤ 255)
    × FirstChanged kind five sample.key_vals changed.key_vals)
replace_iff_example = replace_iff sample changed kind five
