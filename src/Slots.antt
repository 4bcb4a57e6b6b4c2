-- ===== src/Slots.antt =====
-- slottools: epochs and their slots. A slot and an epoch are `uint64`, so sums and products wrap.
pub mod Epochs
mod Examples
use yellowstone_faithful.Prelude.{ℕ, ◌+◌, ◌-◌, ◌*◌, ◌/◌, ◌%◌, ◌^◌, Bool, ltb, leb, if◌then◌else◌}

abbrev pub epoch_len : ℕ
epoch_len = 432000

-- `CalcEpochForSlot`, and `EpochForSlot`
unfoldable pub calc_epoch_for_slot : ℕ → ℕ
calc_epoch_for_slot slot = slot / epoch_len

-- `CalcEpochLimits`, and `EpochLimits`
unfoldable pub calc_epoch_limits : ℕ → ℕ × ℕ
calc_epoch_limits epoch =
    let epoch_start : ℕ = epoch * epoch_len % 2 ^ 64 in
    let past : ℕ = (epoch_start + epoch_len) % 2 ^ 64 in (epoch_start, (past + 2 ^ 64 - 1) % 2 ^ 64)

-- `Uint64RangesHavePartialOverlapIncludingEdges`
unfoldable pub ranges_overlap : ℕ × ℕ → ℕ × ℕ → Bool
ranges_overlap r₁ r₂ = if ltb r₁.0 r₂.0 then leb r₂.0 r₁.1 else leb r₁.0 r₂.1
