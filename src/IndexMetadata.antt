-- ===== src/IndexMetadata.antt =====
-- indexes/metadata.go and indexes/networks.go: what every index file says of itself. CIDs are those of
-- go-cid, a parameter; a string is its bytes. On an error, the pairs that were added until then stay in
-- Go, where every caller drops the builder.
use yellowstone_faithful.Prelude.{
  ℕ, ◌≡◌, Bool, true, false, ◌||◌, ltb, List, [], ◌∷◌, length, Option, none, some, Result, ok, err,
  panic, stuck, ◌>>=◌, ◌>>◌, guard, map_err,
}
use yellowstone_faithful.Bytes.{bytes_equal}
use yellowstone_faithful.Indexes.{uint64tob, b_to_uint64}
use yellowstone_faithful.Meta.{Meta, MetaError, add, get}
use yellowstone_faithful.CompactIndex.Builder.{kind_key}

-- go-cid: `Bytes`, `Cast` and `CidFromBytes`, `Undef` and the comparison with it.
pub record Cids : Type 1 where
  pub Cid : Type 0
  pub is_undef : Cid → Bool
  pub bytes : Cid → List ℕ
  pub cast : List ℕ → Option Cid
  pub cid_from_bytes : List ℕ → Option Cid
  pub cast_lem : (c : Cid) → is_undef c ≡ false → cast (bytes c) ≡ some c
  pub cid_from_bytes_lem : (c : Cid) → is_undef c ≡ false → cid_from_bytes (bytes c) ≡ some c

pub data Error : Type 0 where
  meta : MetaError → Error
  root_cid_undefined invalid_network kind_empty no_kind no_epoch no_root_cid no_network bad_cid :
      Error

-- "epoch", "rootCid" and "network"
abbrev pub epoch_key : List ℕ
epoch_key = 101 ∷ 112 ∷ 111 ∷ 99 ∷ 104 ∷ []

abbrev pub root_cid_key : List ℕ
root_cid_key = 114 ∷ 111 ∷ 111 ∷ 116 ∷ 67 ∷ 105 ∷ 100 ∷ []

abbrev pub network_key : List ℕ
network_key = 110 ∷ 101 ∷ 116 ∷ 119 ∷ 111 ∷ 114 ∷ 107 ∷ []

-- "mainnet", "testnet" and "devnet"
abbrev pub network_mainnet : List ℕ
network_mainnet = 109 ∷ 97 ∷ 105 ∷ 110 ∷ 110 ∷ 101 ∷ 116 ∷ []

abbrev pub network_testnet : List ℕ
network_testnet = 116 ∷ 101 ∷ 115 ∷ 116 ∷ 110 ∷ 101 ∷ 116 ∷ []

abbrev pub network_devnet : List ℕ
network_devnet = 100 ∷ 101 ∷ 118 ∷ 110 ∷ 101 ∷ 116 ∷ []

-- `IsValidNetwork`
unfoldable pub is_valid_network : List ℕ → Bool
is_valid_network network =
    bytes_equal network network_mainnet
    || (bytes_equal network network_testnet || bytes_equal network network_devnet)

unfoldable pub not : Bool → Bool
not true = false
not false = true

unfoldable pub found {ℓ} : {A : Type ℓ} → Option A → Error → Result Error A
found none e = err e
found (some a) e = ok a

-- `BtoUint64` has no error; it panics.
unfoldable pub epoch_of : List ℕ → Result Error ℕ
epoch_of buf = elim (b_to_uint64 buf) [
  | ok n ↦ ok n
  | err e ↦ panic
  | panic ↦ panic
  | stuck ↦ stuck
]

module _ (C : Cids) where
  open C use {Cid}

  pub record Metadata : Type 0 where
    pub epoch : ℕ
    pub root_cid : Cid
    pub network : List ℕ
    pub index_kind : List ℕ

  -- `setDefaultMetadata`, on the metadata of the builder.
  unfoldable pub set_default_metadata : Meta → Metadata → Result Error Meta
  unfolding not
  set_default_metadata setter m = do
    with_epoch ← map_err meta (add setter epoch_key (uint64tob m.epoch))
    guard (not (C.is_undef m.root_cid)) root_cid_undefined
    with_root ← map_err meta (add with_epoch root_cid_key (C.bytes m.root_cid))
    guard (is_valid_network m.network) invalid_network
    with_network ← map_err meta (add with_root network_key m.network)
    guard (ltb 0 (length m.index_kind)) kind_empty
    map_err meta (add with_network kind_key m.index_kind)

  -- `getDefaultMetadata`, on the metadata of the header.
  unfoldable pub get_default_metadata : Meta → Result Error Metadata
  unfolding found epoch_of
  get_default_metadata m = do
    index_kind ← found (get m kind_key) no_kind
    epoch_bytes ← found (get m epoch_key) no_epoch
    epoch ← epoch_of epoch_bytes
    root_bytes ← found (get m root_cid_key) no_root_cid
    root_cid ← found (C.cast root_bytes) bad_cid
    network ← found (get m network_key) no_network
    ok (record { epoch = epoch; root_cid = root_cid; network = network; index_kind = index_kind })
