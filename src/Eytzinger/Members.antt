-- ===== src/Eytzinger/Members.antt =====
-- bucketteer/bucketteer.go: the items of a slice that was laid out.
use yellowstone_faithful.Prelude.{
  ℕ, zero, suc, ◌+◌, ◌-◌, ◌*◌, ◌≤◌, ◌<◌, ◌≡◌, sym, subst, some, List, ◌∷◌, length, get_elem?, All,
  All-append_left, All-append_right, All-pointwise, ok, arith, ℕ_discrete, get_elem?-some,
  get_elem?-none, dec_lt,
}
use yellowstone_faithful.Eytzinger.{layout, inorder}
use yellowstone_faithful.Eytzinger.Layout.{layout_total, inorder_node}
use yellowstone_faithful.Eytzinger.Subtree.{
  under, under-le, under_above, under_split, under_root, is_node_other,
}

get_elem?-lt {ℓ} :
    {A : Type ℓ} (xs : List A) (i : ℕ) (v : A) → get_elem? xs i ≡ some v → i < length xs
get_elem?-lt xs i v e = elim (dec_lt i (length xs)) [
  | yes h ↦ h
  | no h ↦ cc (get_elem?-none xs i (omega arith))
]

under_above_le : (F k m : ℕ) → under F k m ≡ 1 → k ≤ m
under_above_le F k m u = elim (dec_lt m k) [
  | yes above ↦ absurd (omega (arith, under_above F k m above))
  | no h ↦ omega arith
]

module _ {ℓ κ} {A : Type ℓ} (P : A → Type κ) (F : ℕ) (out : List A) (hF : length out ≤ F) where
  -- What stands at a node below `k` is read in the order of the tree from `k` on.
  under-All :
      (f k m : ℕ) (v : A)
      → 1 ≤ k
      → length out < f + k
      → under F k m ≡ 1
      → get_elem? out (m - 1) ≡ some v
      → 1 ≤ m
      → All P (inorder f out k)
      → P v
  under-All zero k m v hk h u e hm all =
      absurd (omega (arith, under_above_le F k m u, get_elem?-lt out (m - 1) v e))
  under-All (suc f) k m v hk h u e hm all =
      let inside = get_elem?-lt out (m - 1) v e in
      let (w, q) = get_elem?-some out (k - 1) (omega (arith, under_above_le F k m u)) in
      let all' = subst (All P) (inorder_node f out k w q) all in
      let right = All-append_right P (inorder f out (2 * k)) (w ∷ inorder f out (2 * k + 1)) all' in
      elim (ℕ_discrete m k) [
        | yes same ↦ subst P (cc (subst (λ j. get_elem? out (j - 1) ≡ some v) same e)) right.0
        | no ne ↦ elim (ℕ_discrete (under F (2 * k) m) 1) [
          | yes below ↦
              under-All f (2 * k) m v (omega arith) (omega arith) below e hm
                (All-append_left P (inorder f out (2 * k)) (w ∷ inorder f out (2 * k + 1)) all')
          | no above ↦
              under-All f (2 * k + 1) m v (omega arith) (omega arith)
                (omega (
                  arith,
                  under_split F k m hk (omega arith),
                  is_node_other k m ne,
                  under-le F (2 * k) m,
                ))
                e hm right.1
        ]
      ]

module _ {ℓ κ μ} {E : Type μ} {A : Type ℓ} (P : A → Type κ) where
  -- A laid out slice holds only items of the sorted one.
  pub layout-All : (z : A) (a out : List A) → All P a → layout {E = E} z a ≡ ok out → All P out
  layout-All z a out h e =
      let n : ℕ = length a in
      let (out', e', same_length, reads) = layout_total {E = E} z a in
      let same : out' ≡ out = cc in
      subst (All P) same (
        All-pointwise P out' (λ i v q.
          under-All P (n + 1) out' (omega arith) (n + 1) 1 (i + 1) v (omega arith) (omega arith)
            (under_root (n + 1) (i + 1) (omega arith) (omega (arith, get_elem?-lt out' i v q)))
            (subst (λ j. get_elem? out' j ≡ some v) {x = i} (omega arith) q) (omega arith)
            (subst (All P) (sym (reads (n + 1) (omega arith))) h)))
