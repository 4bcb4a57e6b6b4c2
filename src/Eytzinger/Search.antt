-- ===== src/Eytzinger/Search.antt =====
-- The walk down an Eytzinger tree, as both `searchEytzinger` functions make it, on a slice whose
-- items carry a number.
use yellowstone_faithful.Prelude.{
  ℕ, zero, suc, ◌+◌, ◌-◌, ◌*◌, ◌≤◌, ◌<◌, ◌≡◌, sym, ap, ◌∙◌, ◌≢◌, inl, inr, Option, none, some, List,
  [], ◌∷◌, ◌++◌, get_elem?, All, ltb, ◌==◌, if◌then◌else◌, Option-cases, arith, All-append,
  All-append_left, All-append_right, All-imp, dec_lt, ℕ_discrete, subst,
}
use yellowstone_faithful.Eytzinger.{inorder}

-- Where the walk goes on from index `i` past an item with the key `k`.
abbrev pub next_index : ℕ → ℕ → ℕ → ℕ
next_index k x i = if ltb k x then 2 * i + 1 + 1 else 2 * i + 1

module _ {ℓ} {A : Type ℓ} (key : A → ℕ) where
  -- Non-decreasing in the key.
  abbrev pub Sorted : List A → Type 0
  Sorted [] = Unit {0}
  Sorted (x ∷ xs) = All (λ y. key x ≤ key y) xs × Sorted xs

  pub Sorted-append :
      (xs : List A) (v : A) (ys : List A)
      → Sorted (xs ++ (v ∷ ys))
      → Sorted xs × Sorted ys × All (λ y. key y ≤ key v) xs × All (λ y. key v ≤ key y) ys
  Sorted-append [] v ys h = (tt, h.1, tt, h.0)
  Sorted-append (x ∷ xs) v ys h =
      let (sx, sy, le, ge) = Sorted-append xs v ys h.1 in
      (
        (All-append_left _ xs (v ∷ ys) h.0, sx),
        sy,
        ((All-append_right _ xs (v ∷ ys) h.0).0, le),
        ge,
      )

  unfoldable pub find : ℕ → List A → ℕ → ℕ → Option A
  find zero out x i = none
  find (suc f) out x i = elim (get_elem? out i) [
    | none ↦ none
    | some v ↦
        let deeper : Option A = find f out x (next_index (key v) x i) in
        if key v == x then some v else deeper
  ]

  find_step :
      (f : ℕ) (out : List A) (x i : ℕ) (v : A)
      → get_elem? out i ≡ some v
      → find (suc f) out x i
        ≡ (if key v == x then some v else find f out x (next_index (key v) x i))
  unfolding find
  find_step f out x i v e = rw (e, find)

  module _ (f : ℕ) (out : List A) (x k : ℕ) (v : A) (hk : 1 ≤ k)
      (e : get_elem? out (k - 1) ≡ some v) where
    find_hit : key v ≡ x → find (suc f) out x (k - 1) ≡ some v
    find_hit h = ground (arith, find_step f out x (k - 1) v e)

    find_left : x < key v → find (suc f) out x (k - 1) ≡ find f out x (2 * k - 1)
    find_left h = ground (
      arith,
      find_step f out x (k - 1) v e,
      ap (find f out x) {x = 2 * (k - 1) + 1} {y = 2 * k - 1} (omega arith),
    )

    find_right : key v < x → find (suc f) out x (k - 1) ≡ find f out x (2 * k + 1 - 1)
    find_right h = ground (
      arith,
      find_step f out x (k - 1) v e,
      ap (find f out x) {x = 2 * (k - 1) + 1 + 1} {y = 2 * k + 1 - 1} (omega arith),
    )

  inorder_node :
      (f : ℕ) (out : List A) (k : ℕ) (v : A)
      → get_elem? out (k - 1) ≡ some v
      → inorder (suc f) out k ≡ inorder f out (2 * k) ++ (v ∷ inorder f out (2 * k + 1))
  unfolding inorder
  inorder_node f out k v e = rw (e, inorder)

  inorder_leaf :
      (f : ℕ) (out : List A) (k : ℕ) → get_elem? out (k - 1) ≡ none → inorder (suc f) out k ≡ []
  unfolding inorder
  inorder_leaf f out k e = rw (e, inorder)

  find_leaf :
      (f : ℕ) (out : List A) (x i : ℕ) → get_elem? out i ≡ none → find (suc f) out x i ≡ none
  unfolding find
  find_leaf f out x i e = rw (e, find)

  data Order (m n : ℕ) : Type 0 where
    below : m < n → Order m n
    equal : m ≡ n → Order m n
    above : n < m → Order m n

  order : (m n : ℕ) → Order m n
  order m n = elim (dec_lt m n) [
    | yes l ↦ below l
    | no g ↦ elim (ℕ_discrete m n) [ yes e ↦ equal e | no ne ↦ above (omega arith) ]
  ]

  -- What is found lies in the tree, and has the key.
  pub find-All {μ} :
      (P : A → Type μ) (f : ℕ) (out : List A) (x k : ℕ) (w : A)
      → 1 ≤ k
      → All P (inorder f out k)
      → find f out x (k - 1) ≡ some w
      → P w × (key w ≡ x)
  find-All P zero out x k w hk h e = unfold find in cc
  find-All P (suc f) out x k w hk h e = elim (Option-cases (get_elem? out (k - 1))) [
    | inl q ↦ cc (find_leaf f out x (k - 1) q)
    | inr (v, q) ↦
        let h' = rw (inorder_node f out k v q) at h in
        let here = All-append_right P (inorder f out (2 * k)) _ h' in
        elim (order (key v) x) [
          | equal p ↦
              let s : v ≡ w = cc (find_hit f out x k v hk q p) in (subst P s here.0, rw (← s) p)
          | below p ↦
              find-All P f out x (2 * k + 1) w (omega arith) here.1
                (sym (find_right f out x k v hk q p) ∙ e)
          | above p ↦
              find-All P f out x (2 * k) w (omega arith)
                (All-append_left P (inorder f out (2 * k)) _ h')
                (sym (find_left f out x k v hk q p) ∙ e)
        ]
  ]

  -- What is not found does not lie in the tree, if that is sorted.
  pub find-none :
      (f : ℕ) (out : List A) (x k : ℕ)
      → 1 ≤ k
      → Sorted (inorder f out k)
      → find f out x (k - 1) ≡ none
      → All (λ y. key y ≢ x) (inorder f out k)
  find-none zero out x k hk s e = unfold inorder in tt
  find-none (suc f) out x k hk s e = elim (Option-cases (get_elem? out (k - 1))) [
    | inl q ↦ rw (inorder_leaf f out k q) tt
    | inr (v, q) ↦
        let left : List A = inorder f out (2 * k) in
        let right : List A = inorder f out (2 * k + 1) in
        let (sl, sr, le, ge) = Sorted-append left v right (rw (inorder_node f out k v q) at s) in
        rw (inorder_node f out k v q) (elim (order (key v) x) [
          | equal p ↦ cc (find_hit f out x k v hk q p)
          | below p ↦ All-append _ left (v ∷ right) (All-imp _ _ (λ a l. omega arith) left le) (
            omega arith,
            find-none f out x (2 * k + 1) (omega arith) sr
                (sym (find_right f out x k v hk q p) ∙ e),
          )
          | above p ↦
              All-append _ left (v ∷ right)
                (find-none f out x (2 * k) (omega arith) sl
                  (sym (find_left f out x k v hk q p) ∙ e))
                (omega arith, All-imp _ _ (λ a l. omega arith) right ge)
        ])
  ]
