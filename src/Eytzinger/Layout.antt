-- ===== src/Eytzinger/Layout.antt =====
-- bucketteer/bucketteer.go: what `eytzinger` writes, and where.
use yellowstone_faithful.Prelude.{
  ℕ, zero, suc, ◌+◌, ◌-◌, ◌*◌, ◌≤◌, ◌<◌, ◌≡◌, refl, sym, ap, ap₂, ◌∙◌, some, List, [], ◌∷◌, ◌++◌,
  length, get_elem?, set, take, replicate, Result, ok, arith, append_assoc, append-nil, dec_le,
  length-set, length-replicate, get_elem?-set_self, get_elem?-set_ne, get_elem?-some,
  get_elem?-none, take-suc, take_all,
}
use mathlib.Core.Path.{◌≡⟨◌⟩◌, ◌∎}
use yellowstone_faithful.Eytzinger.{eytzinger, layout, inorder}
use yellowstone_faithful.Eytzinger.Subtree.{
  under, under-le, under_above, under_self, under_split, is_node_one, count, count_above,
  count_split, count_root,
}

module _ {ℓ} {A : Type ℓ} where
  inorder_leaf : (f : ℕ) (out : List A) (k : ℕ) → length out ≤ k - 1 → inorder f out k ≡ []
  unfolding inorder
  inorder_leaf zero out k h = refl
  inorder_leaf (suc f) out k h = rw (get_elem?-none out (k - 1) h, inorder)

  pub inorder_node :
      (f : ℕ) (out : List A) (k : ℕ) (v : A)
      → get_elem? out (k - 1) ≡ some v
      → inorder (suc f) out k ≡ inorder f out (2 * k) ++ (v ∷ inorder f out (2 * k + 1))
  unfolding inorder
  inorder_node f out k v e = rw (e, inorder)

  -- Two slices agree on the nodes under `k`.
  abbrev Agree : ℕ → List A → List A → ℕ → Type ℓ
  Agree F out out' k =
      (m : ℕ) → 1 ≤ m → m ≤ F → under F k m ≡ 1 → get_elem? out' (m - 1) ≡ get_elem? out (m - 1)

  Agree-left : (F k : ℕ) (out out' : List A) → 1 ≤ k → Agree F out out' k → Agree F out out' (2 * k)
  Agree-left F k out out' hk h m h1 hF u =
      h m h1 hF (omega (arith, under_split F k m hk hF, under-le F k m))

  Agree-right :
      (F k : ℕ) (out out' : List A) → 1 ≤ k → Agree F out out' k → Agree F out out' (2 * k + 1)
  Agree-right F k out out' hk h m h1 hF u =
      h m h1 hF (omega (arith, under_split F k m hk hF, under-le F k m))

  inorder-Agree :
      (F f : ℕ) (out out' : List A) (k : ℕ)
      → 1 ≤ k
      → length out ≤ F
      → length out' ≡ length out
      → Agree F out out' k
      → inorder f out' k ≡ inorder f out k
  unfolding inorder
  inorder-Agree F zero out out' k hk hF hl h = refl
  inorder-Agree F (suc f) out out' k hk hF hl h = elim (dec_le k (length out)) [
    | no p ↦
        inorder_leaf (suc f) out' k (omega arith) ∙ sym (inorder_leaf (suc f) out k (omega arith))
    | yes p ↦
        let (v, e) = get_elem?-some out (k - 1) (omega arith) in
        inorder_node f out' k v (h k hk (omega arith) (under_self F k (omega arith)) ∙ e)
        ∙ ap₂ (λ l r. l ++ (v ∷ r))
            (inorder-Agree F f out out' (2 * k) (omega arith) hF hl (Agree-left F k out out' hk h))
            (inorder-Agree F f out out' (2 * k + 1) (omega arith) hF hl
              (Agree-right F k out out' hk h))
        ∙ sym (inorder_node f out k v e)
  ]

module _ {ℓ} {A : Type ℓ} (F : ℕ) (inp : List A) where
  -- How many nodes lie under `k`.
  abbrev size : ℕ → ℕ
  size k = count F (length inp) k

  -- What a call of `eytzinger` for node `k` has done to the slice `out`, which is `after` now.
  record Laid (out : List A) (i k : ℕ) (after : List A) : Type ℓ where
    same_length : length after ≡ length inp
    elsewhere :
        (m : ℕ) → 1 ≤ m → m ≤ F → under F k m ≡ 0 → get_elem? after (m - 1) ≡ get_elem? out (m - 1)
    reads :
        (f : ℕ) → length inp + 1 < f + k → take i inp ++ inorder f after k ≡ take (i + size k) inp

  leaf-Laid : (out : List A) (i k : ℕ) → length inp < k → length out ≡ length inp → Laid out i k out
  leaf-Laid out i k h hl = record {
    same_length = hl;
    elsewhere = λ m _ _ _. refl;
    reads = λ f _.
        ap (λ l. take i inp ++ l) (inorder_leaf f out k (omega arith))
        ∙ append-nil (take i inp)
        ∙ ap (λ n. take n inp) {x = i} (omega (arith, count_above F (length inp) k h));
  }

  module _ (out left right : List A) (i k : ℕ) (x : A) where
    abbrev mid : ℕ
    mid = i + size (2 * k)

    module _ (hF : length inp ≤ F) (hk : 1 ≤ k) (hn : k ≤ length inp) (l : Laid out i (2 * k) left)
        (e : get_elem? inp mid ≡ some x)
        (r : Laid (set left (k - 1) x) (mid + 1) (2 * k + 1) right) where
      middle : get_elem? right (k - 1) ≡ some x
      middle =
          r.elsewhere k hk (omega arith) (under_above F (2 * k + 1) k (omega arith))
          ∙ get_elem?-set_self left (k - 1) x (omega (arith, l.same_length))

      left_kept : Agree F left right (2 * k)
      left_kept m h1 hm u =
          r.elsewhere m h1 hm (omega (arith, under_split F k m hk hm, under-le F k m))
          ∙ get_elem?-set_ne left (k - 1) (m - 1) x
              (λ q. absurd (omega (arith, under_above F (2 * k) m, u, q)))

      node_reads :
          (f : ℕ) → length inp + 1 < f + k → take i inp ++ inorder f right k ≡ take (i + size k) inp
      node_reads zero hf = absurd (omega arith)
      node_reads (suc f) hf =
          take i inp ++ inorder (suc f) right k
          ≡⟨ ap (◌++◌ (take i inp)) (inorder_node f right k x middle) ⟩
            take i inp ++ (inorder f right (2 * k) ++ (x ∷ inorder f right (2 * k + 1)))
          ≡⟨ ap (λ t. take i inp ++ (t ++ (x ∷ inorder f right (2 * k + 1))))
              (inorder-Agree F f left right (2 * k) (omega arith) (omega (arith, l.same_length))
                (omega (arith, l.same_length, r.same_length)) left_kept) ⟩
            take i inp ++ (inorder f left (2 * k) ++ (x ∷ inorder f right (2 * k + 1)))
          ≡⟨ sym (append_assoc (take i inp) _ _) ⟩
            (take i inp ++ inorder f left (2 * k)) ++ (x ∷ inorder f right (2 * k + 1))
          ≡⟨ ap (λ t. t ++ (x ∷ inorder f right (2 * k + 1))) (l.reads f (omega arith)) ⟩
            take mid inp ++ (x ∷ inorder f right (2 * k + 1))
          ≡⟨ sym (append_assoc (take mid inp) (x ∷ []) _) ⟩
            (take mid inp ++ (x ∷ [])) ++ inorder f right (2 * k + 1)
          ≡⟨ ap (λ t. t ++ inorder f right (2 * k + 1)) (sym (take-suc inp mid x e)) ⟩
            take (suc mid) inp ++ inorder f right (2 * k + 1)
          ≡⟨ ap (λ n. take n inp ++ inorder f right (2 * k + 1)) {x = suc mid} (omega arith) ⟩
            take (mid + 1) inp ++ inorder f right (2 * k + 1)
          ≡⟨ r.reads f (omega arith) ⟩ take (mid + 1 + size (2 * k + 1)) inp
          ≡⟨ ap (λ n. take n inp) {x = mid + 1 + size (2 * k + 1)}
              (omega (arith, count_split F (length inp) k hk hn hF)) ⟩
            take (i + size k) inp ∎

      node-Laid : Laid out i k right
      node-Laid = record {
        same_length = r.same_length;
        elsewhere = λ m h1 hm u.
            r.elsewhere m h1 hm (omega (arith, under_split F k m hk hm))
            ∙ get_elem?-set_ne left (k - 1) (m - 1) x
                (λ q. absurd (omega (arith, under_split F k m hk hm, is_node_one k m, q)))
            ∙ l.elsewhere m h1 hm (omega (arith, under_split F k m hk hm));
        reads = node_reads;
      }

module _ {ℓ κ} {E : Type κ} {A : Type ℓ} (F : ℕ) (inp : List A) (hF : length inp ≤ F) where
  eytzinger_leaf :
      (f : ℕ) (out : List A) (i k : ℕ)
      → length inp < k
      → eytzinger {E = E} (suc f) inp out i k ≡ ok (i, out)
  unfolding eytzinger
  eytzinger_leaf f out i k h = ground arith

  eytzinger_node :
      (f : ℕ) (out : List A) (i k i' : ℕ) (out' : List A) (x : A)
      → k ≤ length inp
      → eytzinger {E = E} f inp out i (2 * k) ≡ ok (i', out')
      → get_elem? inp i' ≡ some x
      → eytzinger {E = E} (suc f) inp out i k
        ≡ eytzinger f inp (set out' (k - 1) x) (i' + 1) (2 * k + 1)
  unfolding eytzinger
  eytzinger_node f out i k i' out' x h e q = ground arith

  -- What is returned, and the slice behind it.
  abbrev Done : List A → ℕ → ℕ → Result E (ℕ × List A) → Type (ℓ ⊔ κ)
  Done out i k r =
      (after : List A) × (r ≡ ok (i + count F (length inp) k, after)) × Laid F inp out i k after

  eytzinger-Done :
      (f : ℕ) (out : List A) (i k : ℕ)
      → 1 ≤ k
      → 1 ≤ f
      → length inp + 1 < f + k
      → length out ≡ length inp
      → i + count F (length inp) k ≤ length inp
      → Done out i k (eytzinger f inp out i k)
  eytzinger-Done zero out i k hk h1 hf hl hc = absurd (omega arith)
  eytzinger-Done (suc f) out i k hk h1 hf hl hc = elim (dec_le k (length inp)) [
    | no leaf ↦ (
      out,
      eytzinger_leaf f out i k (omega arith)
          ∙ ap (λ n. ok (n, out)) {x = i}
              (omega (arith, count_above F (length inp) k (omega arith))),
      leaf-Laid F inp out i k (omega arith) hl,
    )
    | yes node ↦
        let sizes = count_split F (length inp) k hk node hF in
        let (left, e, l) =
          eytzinger-Done f out i (2 * k) (omega arith) (omega arith) (omega arith) hl
            (omega (arith, sizes)) in
        let (x, q) = get_elem?-some inp (i + count F (length inp) (2 * k)) (omega (arith, sizes)) in
        let (right, e', r) =
          eytzinger-Done f (set left (k - 1) x) (i + count F (length inp) (2 * k) + 1) (2 * k + 1)
            (omega arith) (omega arith) (omega arith) (length-set left (k - 1) x ∙ l.same_length)
            (omega (arith, sizes)) in
        (
          right,
          eytzinger_node f out i k _ left x node e q
              ∙ e'
              ∙ ap (λ n. ok (n, right))
                  {x = i + count F (length inp) (2 * k) + 1 + count F (length inp) (2 * k + 1)}
                  (omega (arith, sizes)),
          node-Laid F inp out left right i k x hF hk node l q r,
        )
  ]

module _ {ℓ κ} {E : Type κ} {A : Type ℓ} where
  -- Laying a slice out neither panics nor runs out of fuel; the result has the slice's length,
  -- and its tree read in order is the slice.
  pub layout_total :
      (z : A) (a : List A)
      → (out : List A) × (layout {E = E} z a ≡ ok out)
        × (length out ≡ length a)
        × ((f : ℕ) → length a < f → inorder f out 1 ≡ a)
  unfolding layout
  layout_total z a =
      let n = length a in
      let (out, e, l) =
        eytzinger-Done {E = E} n a (omega arith) (n + 1) (replicate n z) 0 1 (omega arith)
          (omega arith) (omega arith) (length-replicate n z)
          (omega (arith, count_root n n (omega arith))) in
      (
        out,
        rw e,
        l.same_length,
        λ f h.
            l.reads f (omega arith)
            ∙ take_all a (0 + count n n 1) (omega (arith, count_root n n (omega arith))),
      )
