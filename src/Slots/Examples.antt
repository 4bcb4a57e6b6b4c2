-- ===== src/Slots/Examples.antt =====
-- The theorems at concrete epochs and ranges.
use yellowstone_faithful.Prelude.{ℕ, ◌≤◌, ◌≡◌, ◌↔◌, true, arith}
use yellowstone_faithful.Slots.{calc_epoch_for_slot, calc_epoch_limits, ranges_overlap}
use yellowstone_faithful.Slots.Epochs.{calc_epoch_limits_iff, ranges_overlap_iff}

calc_epoch_limits_iff_example :
    (((calc_epoch_limits 477).0 ≤ 206459118) × (206459118 ≤ (calc_epoch_limits 477).1))
    ↔ (calc_epoch_for_slot 206459118 ≡ 477)
calc_epoch_limits_iff_example = calc_epoch_limits_iff 477 206459118 (omega arith)

ranges_overlap_iff_example :
    (ranges_overlap (0, 10) (10, 15) ≡ true) ↔ ((x : ℕ) × (0 ≤ x) × (x ≤ 10) × (10 ≤ x) × (x ≤ 15))
ranges_overlap_iff_example = ranges_overlap_iff (0, 10) (10, 15) (omega arith) (omega arith)
