-- ===== src/Slots/Epochs.antt =====
-- slottools/edges.go: the limits of an epoch, and overlapping ranges.
use yellowstone_faithful.Prelude.{ℕ, ◌+◌, ◌*◌, ◌^◌, ◌≤◌, ◌≡◌, ◌↔◌, true, arith}
use Prim.Native.Nat.{max}
use yellowstone_faithful.Slots.{calc_epoch_for_slot, calc_epoch_limits, ranges_overlap}

-- A slot lies within the limits of an epoch exactly if it belongs to the epoch, where the whole
-- epoch has numbers of 64 bits.
pub calc_epoch_limits_iff :
    (epoch slot : ℕ)
    → (epoch + 1) * 432000 ≤ 2 ^ 64
    → (((calc_epoch_limits epoch).0 ≤ slot) × (slot ≤ (calc_epoch_limits epoch).1))
      ↔ (calc_epoch_for_slot slot ≡ epoch)
unfolding calc_epoch_limits calc_epoch_for_slot
calc_epoch_limits_iff epoch slot h = (λ within. omega arith, λ same. (omega arith, omega arith))

-- Two ranges, neither of them empty, overlap exactly if they have a number in common.
pub ranges_overlap_iff :
    (r₁ r₂ : ℕ × ℕ)
    → r₁.0 ≤ r₁.1
    → r₂.0 ≤ r₂.1
    → (ranges_overlap r₁ r₂ ≡ true) ↔ ((x : ℕ) × (r₁.0 ≤ x) × (x ≤ r₁.1) × (r₂.0 ≤ x) × (x ≤ r₂.1))
unfolding ranges_overlap
ranges_overlap_iff r₁ r₂ h₁ h₂ = (
  λ e. (max r₁.0 r₂.0, omega arith, ground arith, omega arith, ground arith),
  λ (x, a, b, c, d). ground arith,
)
