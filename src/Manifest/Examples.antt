-- ===== src/Manifest/Examples.antt =====
-- A manifest of two pairs, and the theorems about it applied to it.
use yellowstone_faithful.Prelude.{
  ℕ, ◌%◌, ◌≤◌, ◌≡◌, ◌≢◌, refl, List, [], ◌∷◌, ◌++◌, length, ok, err, arith, All,
}
use yellowstone_faithful.Bytes.{put_le}
use yellowstone_faithful.Meta.Decoder.{list_decoder}
use yellowstone_faithful.Meta.{Meta, new_meta, marshal_binary}
use yellowstone_faithful.Meta.{bytes as meta_bytes}
use yellowstone_faithful.Manifest.{
  Header, Manifest, corrupt, new_manifest, read_all, content_length, write_header,
}
use yellowstone_faithful.Manifest.RoundTrip.{Fits, put_all, read_all-put_all, new_manifest-torn}

abbrev pairs : List (ℕ × ℕ)
pairs = (1, 300) ∷ (2, 5) ∷ []

abbrev reader : List ℕ → List ℕ
reader bs = bs

new_meta-IsValid : (length (Meta.key_vals new_meta) ≤ 255) × Unit {0}
new_meta-IsValid = (omega arith, tt)

pairs-Fits : All Fits pairs
pairs-Fits = ((omega arith, omega arith), ((omega arith, omega arith), tt))

read_all-put_all_example :
    (man : Manifest) × (new_manifest list_decoder reader [] new_meta ≡ ok man)
    × (Header.meta_data (Manifest.header man) ≡ new_meta)
    × (read_all (put_all man pairs) ≡ ok pairs)
    × (content_length (put_all man pairs) ≡ 32)
    × (new_manifest list_decoder reader (Manifest.file (put_all man pairs)) new_meta
        ≡ ok (put_all man pairs))
read_all-put_all_example =
    read_all-put_all list_decoder reader (λ bs. refl) new_meta new_meta pairs new_meta-IsValid
      pairs-Fits

-- The magic, the version and no metadata.
abbrev empty : Manifest
empty = record {
  file = 103 ∷ 115 ∷ 102 ∷ 97 ∷ 109 ∷ 110 ∷ 102 ∷ 115 ∷ 4 ∷ 0 ∷ 0 ∷ 0 ∷ 0 ∷ 0 ∷ 0 ∷ 0 ∷ 0 ∷ [];
  header = record { version = 4; meta_byte_size = 1; meta_data = new_meta };
}

new_empty : new_manifest list_decoder reader [] new_meta ≡ ok empty
unfolding new_manifest write_header meta_bytes marshal_binary put_le
new_empty = refl

torn : length {A = ℕ} (3 ∷ 0 ∷ []) % 16 ≢ 0
torn e = omega arith

new_manifest-torn_example :
    new_manifest list_decoder reader (Manifest.file (put_all empty pairs) ++ (3 ∷ 0 ∷ [])) new_meta
    ≡ err corrupt
new_manifest-torn_example =
    new_manifest-torn list_decoder reader (λ bs. refl) new_meta new_meta pairs (3 ∷ 0 ∷ [])
      new_meta-IsValid new_empty torn
