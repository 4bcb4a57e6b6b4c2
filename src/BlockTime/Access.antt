-- ===== src/BlockTime/Access.antt =====
-- blocktimeindex/writer.go: `Set` and `Get`, and the index of a whole epoch.
use yellowstone_faithful.Prelude.{
  ℕ, zero, suc, ◌+◌, ◌-◌, ◌*◌, ◌^◌, ◌<◌, ◌≤◌, ◌≡◌, ◌==◌, ◌∙◌, refl, sym, ap, false, some, length,
  get_elem?, set, replicate, ok, if◌then◌else◌, or_panic, arith, length-set, get_elem?-set_self,
  get_elem?-set_ne, length-replicate, ==_iff, dec_lt, ℕ_discrete, ◌≢◌,
}
use yellowstone_faithful.Prelude.Int.{ℤ, pos}
use yellowstone_faithful.Slots.{calc_epoch_for_slot, calc_epoch_limits}
use yellowstone_faithful.Slots.Epochs.{calc_epoch_limits_iff}
use yellowstone_faithful.BlockTime.{
  Index, IsValid, make_values, new_indexer, new_for_epoch, out_of_range, set_time, get_time,
}

-- `slot` lies in the range of the index, and there is a value for it.
abbrev pub Covers : Index → ℕ → Type 0
Covers i slot = (i.start ≤ slot) × (slot ≤ i.end) × (slot - i.start < length i.values)

out_of_range-false :
    (i : Index) (slot : ℕ) → i.start ≤ slot → slot ≤ i.end → out_of_range i slot ≡ false
unfolding out_of_range
out_of_range-false i slot lo hi = ground arith

set_time-ok :
    (i : Index) (slot : ℕ) (time : ℤ)
    → Covers i slot
    → set_time i slot time ≡ ok (record i { values = set i.values (slot - i.start) time })
unfolding set_time
set_time-ok i slot time (lo, hi, h) = rw (out_of_range-false i slot lo hi) (ground arith)

get_time_self :
    (i : Index) (slot : ℕ) (time : ℤ)
    → Covers i slot
    → get_time (record i { values = set i.values (slot - i.start) time }) slot ≡ ok time
unfolding get_time out_of_range
get_time_self i slot time (lo, hi, h) =
    ground (arith, get_elem?-set_self i.values (slot - i.start) time h)

get_time-other :
    (i : Index) (slot s : ℕ) (time : ℤ)
    → Covers i slot
    → s ≢ slot
    → get_time (record i { values = set i.values (slot - i.start) time }) s ≡ get_time i s
unfolding get_time out_of_range
get_time-other i slot s time (lo, hi, h) ne = elim (dec_lt s i.start) [
  | yes below ↦ ground arith
  | no above ↦
      ground (arith, get_elem?-set_ne i.values (slot - i.start) (s - i.start) time (omega arith))
]

-- On an index that keeps its invariant, `Set` of a slot that the index covers succeeds and keeps
-- the invariant; afterwards `Get` answers the time for this slot, and for any other slot what it
-- answered before.
pub get_time-set_time :
    (i : Index) (slot : ℕ) (time : ℤ)
    → IsValid i
    → Covers i slot
    → (i' : Index) × (set_time i slot time ≡ ok i')
      × IsValid i'
      × ((s : ℕ) → get_time i' s ≡ (if s == slot then ok time else get_time i s))
get_time-set_time i slot time v c = (
  record i { values = set i.values (slot - i.start) time },
  set_time-ok i slot time c,
  record {
    start_lt = v.start_lt;
    end_lt = v.end_lt;
    start_epoch = v.start_epoch;
    end_epoch = v.end_epoch;
    capacity_lt = v.capacity_lt;
    filled = length-set i.values (slot - i.start) time ∙ v.filled;
  },
  λ s. elim (ℕ_discrete s slot) [
    | yes same ↦ rw same (ground (arith, get_time_self i slot time c))
    | no ne ↦ ground (arith, get_time-other i slot s time c ne)
  ],
)

make_values-ok : (n : ℕ) → n < 2 ^ 63 → make_values n ≡ ok (replicate n (pos 0))
unfolding make_values
make_values-ok n h = ground arith

new_indexer-ok :
    (start end capacity : ℕ)
    → calc_epoch_for_slot start ≡ calc_epoch_for_slot end
    → capacity < 2 ^ 63
    → new_indexer start end capacity
      ≡ ok (record {
        start = start;
        end = end;
        epoch = calc_epoch_for_slot start;
        capacity = capacity;
        values = replicate capacity (pos 0);
      })
unfolding new_indexer
new_indexer-ok start end capacity same h = rw (make_values-ok capacity h, (==_iff _ _).1 same) refl

get_elem?-replicate : (n k : ℕ) (t : ℤ) → k < n → get_elem? (replicate n t) k ≡ some t
get_elem?-replicate zero k t h = absurd (omega arith)
get_elem?-replicate (suc n) zero t h = refl
get_elem?-replicate (suc n) (suc k) t h = get_elem?-replicate n k t (omega arith)

get_time-fresh :
    (i : Index) (slot n : ℕ)
    → i.values ≡ replicate n (pos 0)
    → Covers i slot
    → get_time i slot ≡ ok (pos 0)
unfolding get_time
get_time-fresh i slot n e (lo, hi, h) =
    rw (out_of_range-false i slot lo hi, e)
      (ap or_panic (
        get_elem?-replicate n (slot - i.start) (pos 0)
          (omega (arith, h, ap length e, length-replicate n (pos 0)))))

new_indexer_lem :
    (start end capacity : ℕ)
    → calc_epoch_for_slot start ≡ calc_epoch_for_slot end
    → start ≤ end
    → end < 2 ^ 64
    → capacity < 2 ^ 63
    → end - start < capacity
    → (i : Index) × (new_indexer start end capacity ≡ ok i)
      × IsValid i
      × (i.epoch ≡ calc_epoch_for_slot start)
      × ((slot : ℕ) → start ≤ slot → slot ≤ end → Covers i slot × (get_time i slot ≡ ok (pos 0)))
new_indexer_lem start end capacity same order h₁ h₂ h₃ =
    let i : Index = record {
      start = start;
      end = end;
      epoch = calc_epoch_for_slot start;
      capacity = capacity;
      values = replicate capacity (pos 0);
    } in
    (
      i,
      new_indexer-ok start end capacity same h₂,
      record {
        start_lt = omega arith;
        end_lt = h₁;
        start_epoch = refl;
        end_epoch = sym same;
        capacity_lt = h₂;
        filled = length-replicate capacity (pos 0);
      },
      refl,
      λ slot lo hi.
          let c : Covers i slot = (lo, hi, omega (arith, length-replicate capacity (pos 0))) in
          (c, get_time-fresh i slot capacity refl c),
    )

calc_epoch_limits_bounds :
    (epoch : ℕ)
    → (epoch + 1) * 432000 ≤ 2 ^ 64
    → ((calc_epoch_limits epoch).0 ≤ (calc_epoch_limits epoch).1)
      × ((calc_epoch_limits epoch).1 < 2 ^ 64)
      × ((calc_epoch_limits epoch).1 - (calc_epoch_limits epoch).0 < 432000)
unfolding calc_epoch_limits
calc_epoch_limits_bounds epoch h = (omega arith, omega arith, omega arith)

-- The index of an epoch, whose slots all have numbers of 64 bits, is made without a panic, keeps
-- the invariant, covers every slot of the epoch, and has the time 0 for each.
pub new_for_epoch_lem :
    (epoch : ℕ)
    → (epoch + 1) * 432000 ≤ 2 ^ 64
    → (i : Index) × (new_for_epoch epoch ≡ ok i)
      × IsValid i
      × (i.epoch ≡ epoch)
      × ((slot : ℕ)
          → calc_epoch_for_slot slot ≡ epoch
          → Covers i slot × (get_time i slot ≡ ok (pos 0)))
unfolding new_for_epoch
new_for_epoch_lem epoch h =
    let start : ℕ = (calc_epoch_limits epoch).0 in
    let end : ℕ = (calc_epoch_limits epoch).1 in
    let (order, small, near) = calc_epoch_limits_bounds epoch h in
    let first = (calc_epoch_limits_iff epoch start h).0 (le_refl start, order) in
    let last = (calc_epoch_limits_iff epoch end h).0 (order, le_refl end) in
    let (i, q, v, e, f) =
      new_indexer_lem start end 432000 (first ∙ sym last) order small (omega arith) near in
    (
      i,
      q,
      v,
      e ∙ first,
      λ slot same. let (lo, hi) = (calc_epoch_limits_iff epoch slot h).1 same in f slot lo hi,
    )
  where
    le_refl : (n : ℕ) → n ≤ n
    le_refl n = omega arith
