-- ===== src/BlockTime.antt =====
-- blocktimeindex/writer.go and error.go: the block time of each slot of an epoch. The methods that
-- fill an `Index` from bytes are modelled as `FromBytes`, which starts from an empty one and drops
-- it on an error. `ReadAll`, `ReadFile` and the `Write` of `WriteTo` are left out, and so is running
-- out of memory.
pub mod Access
pub mod RoundTrip
pub mod Truncated
mod Examples
use yellowstone_faithful.Prelude.{
  ℕ, zero, suc, ◌+◌, ◌-◌, ◌<◌, ◌≤◌, ◌^◌, ◌≡◌, Bool, true, false, ◌||◌, ltb, leb, ◌==◌,
  if◌then◌else◌, List, [], ◌∷◌, ◌++◌, length, get_elem?, set, take, drop, replicate, All, Result,
  ok, err, panic, ◌>>=◌, ◌>>◌, guard, or_panic,
}
use yellowstone_faithful.Prelude.Int.{ℤ, pos, negsuc}
use yellowstone_faithful.Bytes.{put_le, get_le, bytes_equal}
use yellowstone_faithful.Slots.{calc_epoch_for_slot, calc_epoch_limits}

pub data Error : Type 0 where
  slot_out_of_range : ℕ → ℕ → ℕ → Error
  negative_time time_too_large : Error
  read_eof bad_magic : Error
  epochs_differ : ℕ → ℕ → Error
  epoch_mismatch : ℕ → ℕ → ℕ → Error

-- `int64` values, `uint64` numbers.
pub record Index : Type 0 where
  pub start : ℕ
  pub end : ℕ
  pub epoch : ℕ
  pub capacity : ℕ
  pub values : List ℤ

-- "blocktimeindex"
abbrev pub magic : List ℕ
magic = 98 ∷ 108 ∷ 111 ∷ 99 ∷ 107 ∷ 116 ∷ 105 ∷ 109 ∷ 101 ∷ 105 ∷ 110 ∷ 100 ∷ 101 ∷ 120 ∷ []

abbrev pub default_capacity_for_epoch : ℕ
default_capacity_for_epoch = 432000

-- `make([]int64, n)`, which panics where `n` is no `int`.
unfoldable pub make_values : ℕ → Result Error (List ℤ)
make_values n = if ltb n (2 ^ 63) then ok (replicate n (pos 0)) else panic

-- `NewIndexer`; its own panic is that of slots in two epochs.
unfoldable pub new_indexer : ℕ → ℕ → ℕ → Result Error Index
new_indexer start end capacity =
    if calc_epoch_for_slot start == calc_epoch_for_slot end
    then (do
      values ← make_values capacity
      let i : Index = record {
        start = start;
        end = end;
        epoch = calc_epoch_for_slot start;
        capacity = capacity;
        values = values;
      }
      ok i)
    else panic

unfoldable pub new_for_epoch : ℕ → Result Error Index
new_for_epoch epoch =
    let limits = calc_epoch_limits epoch in new_indexer limits.0 limits.1 default_capacity_for_epoch

-- `slot < i.start || slot > i.end`
unfoldable pub out_of_range : Index → ℕ → Bool
out_of_range i slot = ltb slot i.start || ltb i.end slot

-- `Set`, with the index as it leaves it.
unfoldable pub set_time : Index → ℕ → ℤ → Result Error Index
set_time i slot time =
    if out_of_range i slot
    then err (slot_out_of_range i.start i.end slot)
    else if ltb (slot - i.start) (length i.values)
    then ok (record i { values = set i.values (slot - i.start) time })
    else panic

unfoldable pub get_time : Index → ℕ → Result Error ℤ
get_time i slot =
    if out_of_range i slot
    then err (slot_out_of_range i.start i.end slot)
    else or_panic (get_elem? i.values (slot - i.start))

unfoldable pub blocktime_to_bytes : ℤ → Result Error (List ℕ)
blocktime_to_bytes (negsuc n) = err negative_time
blocktime_to_bytes (pos n) = if ltb (2 ^ 32 - 1) n then err time_too_large else ok (put_le 4 n)

-- The loop over the values, writing behind `out`.
unfoldable pub marshal_values : List ℤ → List ℕ → Result Error (List ℕ)
marshal_values [] out = ok out
marshal_values (t ∷ ts) out = do b ← blocktime_to_bytes t; marshal_values ts (out ++ b)

unfoldable pub marshal_binary : Index → Result Error (List ℕ)
marshal_binary i =
    marshal_values i.values
      (magic ++ (put_le 8 i.start ++ (put_le 8 i.end ++ (put_le 8 i.epoch ++ put_le 8 i.capacity))))

-- `Read` of a `bytes.Reader` into a new buffer of `n` bytes, with what is left to read: it fails
-- only at the end, and what it does not fill stays zero.
unfoldable pub read_buf : ℕ → List ℕ → Result Error (List ℕ × List ℕ)
read_buf n [] = err read_eof
read_buf n (x ∷ xs) =
    let got : List ℕ = take n (x ∷ xs) in ok (got ++ replicate (n - length got) 0, drop n (x ∷ xs))

-- The loop that reads the values: `n` of them are left.
unfoldable pub read_values : ℕ → List ℕ → Result Error (List ℤ)
read_values zero r = ok []
read_values (suc n) r = do
  (time_buf, r) ← read_buf 4 r
  ts ← read_values n r
  ok (pos (get_le time_buf) ∷ ts)

-- `EpochForSlot` of the two ends, and the epoch that was read.
unfoldable pub check_epochs : ℕ → ℕ → ℕ → Result Error (Unit {0})
check_epochs start end epoch = do
  guard (calc_epoch_for_slot start == calc_epoch_for_slot end)
      (epochs_differ (calc_epoch_for_slot start) (calc_epoch_for_slot end))
  guard (calc_epoch_for_slot start == epoch)
      (epoch_mismatch (calc_epoch_for_slot start) (calc_epoch_for_slot end) epoch)

-- Everything behind the epoch.
unfoldable pub read_capacity : ℕ → ℕ → ℕ → List ℕ → Result Error Index
read_capacity start end epoch r = do
  (capacity_buf, r) ← read_buf 8 r
  let capacity : ℕ = get_le capacity_buf
  _ ← make_values capacity
  values ← read_values capacity r
  let i : Index = record {
    start = start;
    end = end;
    epoch = epoch;
    capacity = capacity;
    values = values;
  }
  ok i

-- `FromBytes`, by way of `unmarshalBinary`.
unfoldable pub from_bytes : List ℕ → Result Error Index
from_bytes buf = do
  (magic_buf, r) ← read_buf 14 buf
  guard (bytes_equal magic_buf magic) bad_magic
  (start_buf, r) ← read_buf 8 r
  (end_buf, r) ← read_buf 8 r
  (epoch_buf, r) ← read_buf 8 r
  check_epochs (get_le start_buf) (get_le end_buf) (get_le epoch_buf)
  read_capacity (get_le start_buf) (get_le end_buf) (get_le epoch_buf) r

-- What the operations keep: numbers of 64 bits, both ends in the epoch, and a value for each
-- slot that the capacity counts.
pub record IsValid (i : Index) : Type 0 where
  pub start_lt : i.start < 2 ^ 64
  pub end_lt : i.end < 2 ^ 64
  pub start_epoch : calc_epoch_for_slot i.start ≡ i.epoch
  pub end_epoch : calc_epoch_for_slot i.end ≡ i.epoch
  pub capacity_lt : i.capacity < 2 ^ 63
  pub filled : length i.values ≡ i.capacity

-- A time that the format has room for.
unfoldable pub FitsTime : ℤ → Type 0
FitsTime (pos n) = n < 2 ^ 32
FitsTime (negsuc n) = 2 ^ 32 ≤ zero
