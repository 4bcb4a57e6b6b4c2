-- ===== src/Eytzinger/Lookup.antt =====
-- The walk over a slice that `layout` made from a sorted one.
use yellowstone_faithful.Prelude.{
  ℕ, ◌<◌, ◌≡◌, ◌≢◌, sym, subst, none, some, List, length, All, ok, arith,
}
use yellowstone_faithful.Eytzinger.{layout, inorder}
use yellowstone_faithful.Eytzinger.Layout.{layout_total}
use yellowstone_faithful.Eytzinger.Search.{Sorted, find, find-All, find-none}

module _ {ℓ κ} {E : Type κ} {A : Type ℓ} (key : A → ℕ) (z : A) (a out : List A) (f x : ℕ)
    (laid : layout {E = E} z a ≡ ok out) (enough : length a < f) where
  inorder-layout : inorder f out 1 ≡ a
  inorder-layout =
      let (out', e, _, reads) = layout_total {E = E} z a in
      let same : out' ≡ out = cc in subst (λ o. inorder f o 1 ≡ a) same (reads f enough)

  pub length-layout : length out ≡ length a
  length-layout =
      let (out', e, same_length, _) = layout_total {E = E} z a in
      let same : out' ≡ out = cc in subst (λ o. length o ≡ length a) same same_length

  pub find-layout_some {μ} :
      (P : A → Type μ) (w : A) → All P a → find key f out x 0 ≡ some w → P w × (key w ≡ x)
  find-layout_some P w h e =
      find-All key P f out x 1 w (omega arith) (subst (All P) (sym inorder-layout) h) e

  pub find-layout_none : Sorted key a → find key f out x 0 ≡ none → All (λ y. key y ≢ x) a
  find-layout_none s e =
      subst (All (λ y. key y ≢ x)) inorder-layout
        (find-none key f out x 1 (omega arith) (subst (Sorted key) (sym inorder-layout) s) e)
