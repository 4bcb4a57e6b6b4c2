-- ===== src/Eytzinger.antt =====
-- The Eytzinger layout that bucketteer/bucketteer.go and compactindexsized/build.go store sorted
-- slices in (`sortWithCompare` and `eytzinger`, the same code twice), and its in-order reading.
pub mod Subtree
pub mod Layout
pub mod Search
pub mod Walk
pub mod Lookup
pub mod Members
use yellowstone_faithful.Prelude.{
  ℕ, zero, suc, ◌+◌, ◌-◌, ◌*◌, Option, none, some, List, [], ◌∷◌, ◌++◌, length, get_elem?, set,
  replicate, Result, ok, panic, stuck, or_panic, ◌>>=◌, leb, if◌then◌else◌,
}

module _ {ℓ κ} {E : Type κ} {A : Type ℓ} where
  -- `eytzinger(in, out, i, k)` with fuel. It returns the next index into `in`; `out` is written in
  -- place, so the slice as it then stands is returned too. `stuck` is fuel that ran out.
  unfoldable pub eytzinger : ℕ → List A → List A → ℕ → ℕ → Result E (ℕ × List A)
  eytzinger zero inp out i k = stuck
  eytzinger (suc f) inp out i k =
      let deeper : Result E (ℕ × List A) = do
        (i', out') ← eytzinger f inp out i (2 * k)
        x ← or_panic (get_elem? inp i')
        eytzinger f inp (set out' (k - 1) x) (i' + 1) (2 * k + 1)
      in if leb k (length inp) then deeper else ok (i, out)

  -- The second half of `sortWithCompare`, behind the sort: `make`, `eytzinger`, `copy`. The new
  -- slice is as long as the old one, so `copy` replaces all of it. `z` is the type's zero value.
  unfoldable pub layout : A → List A → Result E (List A)
  unfolding eytzinger
  layout z a = do (_, sorted) ← eytzinger (length a + 1) a (replicate (length a) z) 0 1; ok sorted

-- The slice read in the order of the tree: what lies under node `k`, left to right.
unfoldable pub inorder {ℓ} : {A : Type ℓ} → ℕ → List A → ℕ → List A
inorder zero out k = []
inorder (suc f) out k = elim (get_elem? out (k - 1)) [
  | none ↦ []
  | some v ↦ inorder f out (2 * k) ++ (v ∷ inorder f out (2 * k + 1))
]
