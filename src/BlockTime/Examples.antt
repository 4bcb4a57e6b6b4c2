-- ===== src/BlockTime/Examples.antt =====
-- An index of the first two slots of epoch 1, and the theorems applied to it.
use yellowstone_faithful.Prelude.{
  ℕ, ◌≡◌, ◌↔◌, ◌==◌, refl, List, ◌∷◌, [], take, length, ◌-◌, ◌%◌, ◌^◌, ◌++◌, All, ok, if◌then◌else◌,
  arith,
}
use yellowstone_faithful.Prelude.Int.{pos}
use yellowstone_faithful.Slots.{calc_epoch_for_slot}
use yellowstone_faithful.BlockTime.{
  Index, IsValid, FitsTime, set_time, get_time, new_for_epoch, marshal_binary, from_bytes,
}
use yellowstone_faithful.BlockTime.Access.{Covers, get_time-set_time, new_for_epoch_lem}
use yellowstone_faithful.BlockTime.Truncated.{from_bytes-truncated}
use yellowstone_faithful.BlockTime.RoundTrip.{
  header, times_bytes, marshal_index_iff, from_bytes-marshal_binary,
}

abbrev two_slots : Index
two_slots = record {
  start = 432000;
  end = 432001;
  epoch = 1;
  capacity = 2;
  values = pos 1584368940 ∷ pos 1700000000 ∷ [];
}

abbrev two_slots_bytes : List ℕ
two_slots_bytes = header two_slots ++ times_bytes two_slots.values

two_slots-IsValid : IsValid two_slots
unfolding calc_epoch_for_slot
two_slots-IsValid = record {
  start_lt = omega arith;
  end_lt = omega arith;
  start_epoch = refl;
  end_epoch = refl;
  capacity_lt = omega arith;
  filled = refl;
}

two_slots-fit : All FitsTime two_slots.values
unfolding FitsTime
two_slots-fit = (omega arith, (omega arith, tt))

get_time-set_time_example :
    (i' : Index) × (set_time two_slots 432001 (pos 7) ≡ ok i')
    × IsValid i'
    × ((s : ℕ) → get_time i' s ≡ (if s == 432001 then ok (pos 7) else get_time two_slots s))
get_time-set_time_example =
    get_time-set_time two_slots 432001 (pos 7) two_slots-IsValid
      (omega arith, omega arith, omega arith)

new_for_epoch_lem_example :
    (i : Index) × (new_for_epoch 800 ≡ ok i)
    × IsValid i
    × (i.epoch ≡ 800)
    × ((slot : ℕ) → calc_epoch_for_slot slot ≡ 800 → Covers i slot × (get_time i slot ≡ ok (pos 0)))
new_for_epoch_lem_example = new_for_epoch_lem 800 (omega arith)

marshal_index_iff_example :
    (marshal_binary two_slots ≡ ok two_slots_bytes)
    ↔ (All FitsTime two_slots.values × (two_slots_bytes ≡ two_slots_bytes))
marshal_index_iff_example = marshal_index_iff two_slots two_slots_bytes

from_bytes-marshal_binary_example : from_bytes (two_slots_bytes ++ (9 ∷ [])) ≡ ok two_slots
from_bytes-marshal_binary_example =
    from_bytes-marshal_binary two_slots two_slots_bytes (9 ∷ []) two_slots-IsValid
      (marshal_index_iff_example.1 (two_slots-fit, refl))

from_bytes-truncated_example :
    from_bytes (take (length two_slots_bytes - 3) two_slots_bytes)
    ≡ ok (record two_slots { values = pos 1584368940 ∷ pos (1700000000 % 256 ^ (4 - 3)) ∷ [] })
from_bytes-truncated_example =
    from_bytes-truncated two_slots (pos 1584368940 ∷ []) 1700000000 3 two_slots_bytes
      two_slots-IsValid refl (marshal_index_iff_example.1 (two_slots-fit, refl)) (omega arith)
