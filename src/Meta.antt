-- ===== src/Meta.antt =====
-- indexmeta/indexmeta.go: the key-value metadata in the header of every index file. A `[]byte` is a
-- list of numbers, `nil` and the empty slice are one, and `cloneBytes` needs no model here, since
-- lists are never written in place.
pub mod Decoder
pub mod RoundTrip
pub mod KeyValues
mod Examples
use yellowstone_faithful.Prelude.{
  ℕ, zero, suc, ◌+◌, ◌≤◌, ◌<◌, Bool, true, false, Option, none, some, List, [], ◌∷◌, ◌++◌, length,
  take, Result, ok, err, panic, stuck, ◌>>=◌, ◌>>◌, guard, leb, ltb, ◌==◌, if◌then◌else◌, All, map,
}
use yellowstone_faithful.Bytes.{put_le, get_le, bytes_equal, AreBytes}
use yellowstone_faithful.Meta.Decoder.{ByteDecoder, read_full}

abbrev pub max_num_kvs : ℕ
max_num_kvs = 255

abbrev pub max_key_size : ℕ
max_key_size = 255

abbrev pub max_value_size : ℕ
max_value_size = 255

pub record Kv : Type 0 where
  pub key : List ℕ
  pub value : List ℕ

pub record Meta : Type 0 where
  pub key_vals : List Kv

-- The errors that the package returns, without their texts.
pub data MetaError : Type 0 where
  too_many_kvs key_too_long value_too_long key_not_found read_failed : MetaError

abbrev pub new_meta : Meta
new_meta = record { key_vals = [] }

-- One round of the loop of `MarshalBinary`: the buffer behind it.
marshal_kv : Kv → List ℕ → Result MetaError (List ℕ)
marshal_kv kv buf = do
  guard (leb (length kv.key) max_key_size) key_too_long
  guard (leb (length kv.value) max_value_size) value_too_long
  ok (buf ++ (length kv.key ∷ (kv.key ++ (length kv.value ∷ kv.value))))

marshal_loop : List Kv → List ℕ → Result MetaError (List ℕ)
marshal_loop [] buf = ok buf
marshal_loop (kv ∷ kvs) buf = marshal_kv kv buf >>= marshal_loop kvs

unfoldable pub marshal_binary : Meta → Result MetaError (List ℕ)
unfolding marshal_kv marshal_loop
marshal_binary m = do
  guard (leb (length m.key_vals) max_num_kvs) too_many_kvs
  marshal_loop m.key_vals (length m.key_vals ∷ [])

-- `Bytes`: an error of `MarshalBinary` is a panic.
unfoldable pub bytes {κ} : {E : Type κ} → Meta → Result E (List ℕ)
bytes m = elim (marshal_binary m) [ ok b ↦ ok b | err e ↦ panic | panic ↦ panic | stuck ↦ stuck ]

module _ (D : ByteDecoder) where
  open D use {State, read_byte}

  abbrev read_or_fail {ℓ} : {A : Type ℓ} → Option A → Result MetaError A
  read_or_fail none = err read_failed
  read_or_fail (some a) = ok a

  -- A length byte and so many bytes.
  read_prefixed : State → Result MetaError (List ℕ × State)
  read_prefixed d = do (n, d') ← read_or_fail (read_byte d); read_or_fail (read_full D n d')

  read_kvs : ℕ → List Kv → State → Result MetaError (Meta × State)
  unfolding read_prefixed
  read_kvs zero kvs d = ok (record { key_vals = kvs }, d)
  read_kvs (suc n) kvs d = do
    (k, d') ← read_prefixed d
    (v, d'') ← read_prefixed d'
    read_kvs n (kvs ++ (record { key = k; value = v } ∷ [])) d''

  -- `UnmarshalWithDecoder`: the metadata with the pairs that it has read appended. (On an error the
  -- pairs read until then stay appended in Go; every caller drops the value then.)
  unfoldable pub unmarshal_with_decoder : Meta → State → Result MetaError (Meta × State)
  unfolding read_kvs read_prefixed
  unmarshal_with_decoder m d = do
    (num_kvs, d') ← read_or_fail (read_byte d)
    guard (leb num_kvs max_num_kvs) too_many_kvs
    read_kvs num_kvs m.key_vals d'

  -- `UnmarshalBinary`, with the decoder that `bin.NewBorshDecoder` makes.
  unfoldable pub unmarshal_binary : (List ℕ → State) → Meta → List ℕ → Result MetaError Meta
  unmarshal_binary new_decoder m [] = ok m
  unmarshal_binary new_decoder m (b ∷ bs) = do
    (m', _) ← unmarshal_with_decoder m (new_decoder (b ∷ bs))
    ok m'

unfoldable pub add : Meta → List ℕ → List ℕ → Result MetaError Meta
add m key value = do
  guard (ltb (length m.key_vals) max_num_kvs) too_many_kvs
  guard (leb (length key) max_key_size) key_too_long
  guard (leb (length value) max_value_size) value_too_long
  ok (record m { key_vals = m.key_vals ++ (record { key = key; value = value } ∷ []) })

-- `AddUint64` and `GetUint64`; `decodeUint64` panics on fewer than 8 bytes and reads the first 8.
unfoldable pub add_uint64 : Meta → List ℕ → ℕ → Result MetaError Meta
add_uint64 m key value = add m key (put_le 8 value)

unfoldable pub get_from : List Kv → List ℕ → Option (List ℕ)
get_from [] key = none
get_from (kv ∷ kvs) key = if bytes_equal kv.key key then some kv.value else get_from kvs key

unfoldable pub get : Meta → List ℕ → Option (List ℕ)
unfolding get_from
get m key = get_from m.key_vals key

unfoldable pub decode_uint64 {κ} : {E : Type κ} → List ℕ → Result E ℕ
decode_uint64 buf = if ltb (length buf) 8 then panic else ok (get_le (take 8 buf))

unfoldable pub get_uint64 {κ} : {E : Type κ} → Meta → List ℕ → Result E (Option ℕ)
get_uint64 m key = elim (get m key) [
  | none ↦ ok none
  | some value ↦ decode_uint64 value >>= λ n. ok (some n)
]

-- The loop of `Replace`.
replace_in : List Kv → List ℕ → List ℕ → Option (List Kv)
replace_in [] key value = none
replace_in (kv ∷ kvs) key value =
    let rest : Option (List Kv) = elim (replace_in kvs key value) [
      | none ↦ none
      | some kvs' ↦ some (kv ∷ kvs')
    ] in
    if bytes_equal kv.key key then some (record kv { value = value } ∷ kvs) else rest

unfoldable pub replace : Meta → List ℕ → List ℕ → Result MetaError Meta
unfolding replace_in
replace m key value = do
  guard (ltb (length m.key_vals) max_num_kvs) too_many_kvs
  guard (leb (length key) max_key_size) key_too_long
  guard (leb (length value) max_value_size) value_too_long
  elim (replace_in m.key_vals key value) [
    | none ↦ err key_not_found
    | some kvs ↦ ok (record m { key_vals = kvs })
  ]

-- `ReadFirst`, with the number of bytes copied and the destination behind the copy.
unfoldable pub read_first : Meta → List ℕ → List ℕ → ℕ × List ℕ
read_first m key dst = elim (get m key) [ none ↦ (0, dst) | some v ↦ copy_into dst v ]
  where
    copy_into : List ℕ → List ℕ → ℕ × List ℕ
    copy_into [] v = (0, [])
    copy_into (d ∷ ds) [] = (0, d ∷ ds)
    copy_into (d ∷ ds) (b ∷ bs) = let (n, out) = copy_into ds bs in (suc n, b ∷ out)

seen_before : List (List ℕ) → List ℕ → Bool
seen_before [] key = false
seen_before (k ∷ ks) key = if bytes_equal k key then true else seen_before ks key

-- The loop of `HasDuplicateKeys`, with the keys seen.
duplicates_from : List (List ℕ) → List Kv → Bool
duplicates_from seen [] = false
duplicates_from seen (kv ∷ kvs) =
    let rest : Bool = duplicates_from (kv.key ∷ seen) kvs in
    if seen_before seen kv.key then true else rest

unfoldable pub has_duplicate_keys : Meta → Bool
unfolding seen_before duplicates_from
has_duplicate_keys m = duplicates_from [] m.key_vals

remove_from : List Kv → List ℕ → List Kv
remove_from [] key = []
remove_from (kv ∷ kvs) key =
    let rest : List Kv = remove_from kvs key in if bytes_equal kv.key key then rest else kv ∷ rest

unfoldable pub remove : Meta → List ℕ → Meta
unfolding remove_from
remove m key = record m { key_vals = remove_from m.key_vals key }

all_from : List Kv → List ℕ → List (List ℕ)
all_from [] key = []
all_from (kv ∷ kvs) key =
    let rest : List (List ℕ) = all_from kvs key in
    if bytes_equal kv.key key then kv.value ∷ rest else rest

unfoldable pub get_all : Meta → List ℕ → List (List ℕ)
unfolding all_from
get_all m key = all_from m.key_vals key

count_from : ℕ → List Kv → List ℕ → ℕ
count_from n [] key = n
count_from n (kv ∷ kvs) key = count_from (if bytes_equal kv.key key then n + 1 else n) kvs key

unfoldable pub count : Meta → List ℕ → ℕ
unfolding count_from
count m key = count_from 0 m.key_vals key
