-- ===== src/Meta/KeyValues.antt =====
-- indexmeta/indexmeta.go: `Add`, `Replace`, `Remove` and the queries, told by one view of the
-- metadata: the values under each key, in order (`GetAll`).
use yellowstone_faithful.Prelude.{
  ℕ, ◌+◌, ◌≤◌, ◌<◌, ◌≡◌, ◌≢◌, ◌↔◌, refl, sym, ap, ◌∙◌, All, ◌⊎◌, inl, inr, true, false, Option,
  none, some, List, [], ◌∷◌, ◌++◌, length, ok, arith, append-nil, if◌then◌else◌, Bool-cases,
  Option-cases, length-append, All-append,
}
use yellowstone_faithful.Bytes.{bytes_equal}
use yellowstone_faithful.Bytes.Laws.{bytes_equal_iff, bytes_equal_self}
use yellowstone_faithful.Meta.{
  Meta, Kv, add, get, get_from, get_all, all_from, replace, replace_in, remove, remove_from, count,
  count_from,
}
use yellowstone_faithful.Meta.RoundTrip.{IsValid, Fits}

abbrev pub first : List (List ℕ) → Option (List ℕ)
first [] = none
first (v ∷ vs) = some v

-- `Get` returns the first of the values, and `Count` their number.
get-first : (kvs : List Kv) (key : List ℕ) → get_from kvs key ≡ first (all_from kvs key)
unfolding get_from all_from
get-first [] key = refl
get-first (kv ∷ kvs) key = ground (arith, get-first kvs key)

count_from-length :
    (n : ℕ) (kvs : List Kv) (key : List ℕ) → count_from n kvs key ≡ n + length (all_from kvs key)
unfolding count_from all_from
count_from-length n [] key = omega arith
count_from-length n (kv ∷ kvs) key =
    ground (arith, count_from-length n kvs key, count_from-length (n + 1) kvs key)

-- `Get` returns the first of the values that `GetAll` returns, none if there are none, and `Count`
-- is their number.
pub queries_agree :
    (m : Meta) (key : List ℕ)
    → (get m key ≡ first (get_all m key)) × (count m key ≡ length (get_all m key))
unfolding get get_all count
queries_agree m key = (get-first m.key_vals key, count_from-length 0 m.key_vals key ∙ omega arith)

all_from-append :
    (xs ys : List Kv) (key : List ℕ) → all_from (xs ++ ys) key ≡ all_from xs key ++ all_from ys key
unfolding all_from
all_from-append [] ys key = refl
all_from-append (kv ∷ xs) ys key = ground (arith, all_from-append xs ys key)

add-eq-ok :
    (m m' : Meta) (key value : List ℕ)
    → add m key value ≡ ok m'
    → (length m.key_vals < 255)
      × (length key ≤ 255)
      × (length value ≤ 255)
      × (m' ≡ record { key_vals = m.key_vals ++ (record { key = key; value = value } ∷ []) })
unfolding add
add-eq-ok m m' key value e = ground arith

-- A successful `Add` appends the value to those of its key, leaves the other keys alone, and keeps
-- the metadata within the format's limits.
pub get_all-add :
    (m m' : Meta) (key value other : List ℕ)
    → add m key value ≡ ok m'
    → (get_all m' other
        ≡ (if bytes_equal key other then get_all m other ++ (value ∷ []) else get_all m other))
      × (IsValid m → IsValid m')
unfolding get_all
get_all-add m m' key value other e =
    let (room, k, v, q) = add-eq-ok m m' key value e in
    let kv : Kv = record { key = key; value = value } in
    rw q (
      rw all_from-append
          (unfold all_from in ground (arith, append-nil (all_from m.key_vals other))),
      λ valid. (
        omega (arith, length-append m.key_vals (kv ∷ [])),
        All-append Fits m.key_vals (kv ∷ []) valid.1 ((k, v), tt),
      ),
    )

all_from-remove :
    (kvs : List Kv) (key other : List ℕ)
    → all_from (remove_from kvs key) other
      ≡ (if bytes_equal key other then [] else all_from kvs other)
unfolding all_from remove_from
all_from-remove [] key other = ground arith
all_from-remove (kv ∷ kvs) key other = ground (
  arith,
  all_from-remove kvs key other,
  bytes_equal_iff kv.key key,
  bytes_equal_iff kv.key other,
  bytes_equal_iff key other,
)

-- `Remove` drops every value of its key and nothing else.
pub get_all-remove :
    (m : Meta) (key other : List ℕ)
    → get_all (remove m key) other ≡ (if bytes_equal key other then [] else get_all m other)
unfolding get_all remove
get_all-remove m key other = all_from-remove m.key_vals key other

-- The first value replaced.
abbrev pub with_first : List ℕ → List (List ℕ) → List (List ℕ)
with_first v [] = []
with_first v (w ∷ ws) = v ∷ ws

abbrev Replaced : Kv → List Kv → List ℕ → List ℕ → List Kv → Type 0
Replaced kv kvs key value kvs' =
    ((bytes_equal kv.key key ≡ true) × (kvs' ≡ record kv { value = value } ∷ kvs))
    ⊎ ((bytes_equal kv.key key ≡ false)
        × (rest : List Kv) × (replace_in kvs key value ≡ some rest)
        × (kvs' ≡ kv ∷ rest))

replace_in-cons :
    (kv : Kv) (kvs kvs' : List Kv) (key value : List ℕ)
    → replace_in (kv ∷ kvs) key value ≡ some kvs'
    → Replaced kv kvs key value kvs'
unfolding replace_in
replace_in-cons kv kvs kvs' key value e = elim (Option-cases (replace_in kvs key value)) [
  | inl q ↦ inl (ground arith, ground arith)
  | inr (rest, q) ↦ elim (Bool-cases (bytes_equal kv.key key)) [
    | inl t ↦ inl (t, ground arith)
    | inr f ↦ inr (f, rest, q, ground arith)
  ]
]

all_from-replace :
    (kvs kvs' : List Kv) (key value other : List ℕ)
    → replace_in kvs key value ≡ some kvs'
    → all_from kvs' other ≡ (
        if bytes_equal key other then with_first value (all_from kvs other) else all_from kvs other)
unfolding all_from
all_from-replace [] kvs' key value other e = unfold replace_in in cc
all_from-replace (kv ∷ kvs) kvs' key value other e =
    elim (replace_in-cons kv kvs kvs' key value e) [
      | inl (t, q) ↦ rw q (
          ground (
            arith,
            bytes_equal_iff kv.key key,
            bytes_equal_iff kv.key other,
            bytes_equal_iff key other,
          ))
      | inr (f, rest, r, q) ↦ rw q (
          ground (
            arith,
            all_from-replace kvs rest key value other r,
            bytes_equal_iff kv.key key,
            bytes_equal_iff kv.key other,
            bytes_equal_iff key other,
          ))
    ]

replace-eq-ok :
    (m m' : Meta) (key value : List ℕ)
    → replace m key value ≡ ok m'
    → (length m.key_vals < 255) × (replace_in m.key_vals key value ≡ some m'.key_vals)
unfolding replace
replace-eq-ok m m' key value e = elim (Option-cases (replace_in m.key_vals key value)) [
  | inl q ↦ ground arith
  | inr (kvs, q) ↦ ground arith
]

-- A successful `Replace` changes the first value of its key, and no other value.
pub get_all-replace :
    (m m' : Meta) (key value other : List ℕ)
    → replace m key value ≡ ok m'
    → get_all m' other
      ≡ (if bytes_equal key other then with_first value (get_all m other) else get_all m other)
unfolding get_all
get_all-replace m m' key value other e =
    all_from-replace m.key_vals m'.key_vals key value other (replace-eq-ok m m' key value e).1

abbrev HasOther : List ℕ → Kv → Type 0
HasOther key kv = kv.key ≢ key

-- The lists differ in one value: that of the first pair with the key.
abbrev pub FirstChanged : List ℕ → List ℕ → List Kv → List Kv → Type 0
FirstChanged key value kvs kvs' =
    (pre : List Kv) × (old : List ℕ) × (post : List Kv) × All (HasOther key) pre
    × (kvs ≡ pre ++ (record { key = key; value = old } ∷ post))
    × (kvs' ≡ pre ++ (record { key = key; value = value } ∷ post))

replace_in-FirstChanged :
    (kvs kvs' : List Kv) (key value : List ℕ)
    → replace_in kvs key value ≡ some kvs'
    → FirstChanged key value kvs kvs'
replace_in-FirstChanged [] kvs' key value e = unfold replace_in in cc
replace_in-FirstChanged (kv ∷ kvs) kvs' key value e =
    elim (replace_in-cons kv kvs kvs' key value e) [
      | inl (t, q) ↦
          let same : kv.key ≡ key = (bytes_equal_iff kv.key key).0 t in
          let with_key : List ℕ → List ℕ → List Kv = λ v k. record { key = k; value = v } ∷ kvs in
          ([], kv.value, kvs, tt, ap (with_key kv.value) same, q ∙ ap (with_key value) same)
      | inr (f, rest, r, q) ↦
          let (pre, old, post, others, before, after) =
            replace_in-FirstChanged kvs rest key value r in
          (
            kv ∷ pre,
            old,
            post,
            ((λ same. let t = (bytes_equal_iff kv.key key).1 same in cc), others),
            ap (◌∷◌ kv) before,
            q ∙ ap (◌∷◌ kv) after,
          )
    ]

replace_in-append :
    (pre post : List Kv) (key old value : List ℕ)
    → All (HasOther key) pre
    → replace_in (pre ++ (record { key = key; value = old } ∷ post)) key value
      ≡ some (pre ++ (record { key = key; value = value } ∷ post))
unfolding replace_in
replace_in-append [] post key old value others = rw (bytes_equal_self key) refl
replace_in-append (kv ∷ pre) post key old value (other, others) =
    elim (Bool-cases (bytes_equal kv.key key)) [
      | inl t ↦ absurd (other ((bytes_equal_iff kv.key key).0 t))
      | inr f ↦ rw f (rw (replace_in-append pre post key old value others) refl)
    ]

replace-within :
    (m : Meta) (kvs : List Kv) (key value : List ℕ)
    → length m.key_vals < 255
    → length key ≤ 255
    → length value ≤ 255
    → replace_in m.key_vals key value ≡ some kvs
    → replace m key value ≡ ok (record { key_vals = kvs })
unfolding replace
replace-within m kvs key value room k v e = ground arith

replace-limits :
    (m m' : Meta) (key value : List ℕ)
    → replace m key value ≡ ok m'
    → (length key ≤ 255) × (length value ≤ 255)
unfolding replace
replace-limits m m' key value e = ground arith

-- `Replace` succeeds exactly where the metadata holds fewer than 255 pairs, the key and the value
-- have at most 255 bytes each, and the key is there; then the value of the first pair with the key
-- is the new one, and all else, the number of pairs too, is as before.
pub replace_iff :
    (m m' : Meta) (key value : List ℕ)
    → (replace m key value ≡ ok m') ↔ (
        (length m.key_vals < 255)
        × (length key ≤ 255)
        × (length value ≤ 255)
        × FirstChanged key value m.key_vals m'.key_vals)
replace_iff m m' key value = (
  λ e.
      let (room, q) = replace-eq-ok m m' key value e in
      let (k, v) = replace-limits m m' key value e in
      (room, k, v, replace_in-FirstChanged m.key_vals m'.key_vals key value q),
  λ (room, k, v, changed).
      let (pre, old, post, others, before, after) = changed in
      replace-within m m'.key_vals key value room k v
        (rw before (replace_in-append pre post key old value others) ∙ ap some (sym after)),
)
