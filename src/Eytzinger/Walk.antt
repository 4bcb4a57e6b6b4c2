-- ===== src/Eytzinger/Walk.antt =====
-- What the two `searchEytzinger` loops share: a loop that reads the items of a slice, and goes on as
-- the tree says, makes the walk of `find`.
use yellowstone_faithful.Prelude.{
  ℕ, zero, suc, ◌+◌, ◌≤◌, ◌<◌, ◌≡◌, refl, sym, ap, ◌∙◌, inl, inr, Option, none, some, List, length,
  get_elem?, Result, ok, err, arith, ◌==◌, if◌then◌else◌, Bool-cases, dec_lt, get_elem?-some,
  get_elem?-none,
}
use yellowstone_faithful.Eytzinger.Search.{find, next_index}

abbrev pub as_result {ℓ κ μ} :
    {A : Type ℓ} {R : Type κ} {E : Type μ} → (A → R) → E → Option A → Result E R
as_result result missing none = err missing
as_result result missing (some a) = ok (result a)

module _ {ℓ κ μ} {A : Type ℓ} {R : Type κ} {E : Type μ} (key : A → ℕ) (result : A → R) (missing : E)
    (out : List A) (x : ℕ) where
  find_end : (f i : ℕ) → length out ≤ i → find key f out x i ≡ none
  unfolding find
  find_end zero i h = refl
  find_end (suc f) i h = rw (get_elem?-none out i h, find)

  find_step :
      (f i : ℕ) (a : A)
      → get_elem? out i ≡ some a
      → find key (suc f) out x i
        ≡ (if key a == x then some a else find key f out x (next_index (key a) x i))
  unfolding find
  find_step f i a e = rw (e, find)

  -- `loop` is the loop on fuel, by its index.
  pub loop-find :
      (loop : ℕ → ℕ → Result E R)
      → ((f i : ℕ) → length out ≤ i → loop (suc f) i ≡ err missing)
      → ((f i : ℕ) (a : A)
          → get_elem? out i ≡ some a
          → i < length out
          → loop (suc f) i
            ≡ (if key a == x then ok (result a) else loop f (next_index (key a) x i)))
      → (f i : ℕ) → 1 ≤ f
      → length out + 1 ≤ f + i
      → loop f i ≡ as_result result missing (find key f out x i)
  loop-find loop ends steps zero i h1 h = absurd (omega arith)
  loop-find loop ends steps (suc f) i h1 h = elim (dec_lt i (length out)) [
    | no over ↦
        ends f i (omega arith)
        ∙ ap (as_result result missing) (sym (find_end (suc f) i (omega arith)))
    | yes inside ↦
        let (a, e) = get_elem?-some out i inside in
        steps f i a e inside
        ∙ split a
            (loop-find loop ends steps f (next_index (key a) x i) (omega arith) (ground arith))
        ∙ ap (as_result result missing) (sym (find_step f i a e))
  ]
    where
      split :
          (a : A)
          → loop f (next_index (key a) x i)
            ≡ as_result result missing (find key f out x (next_index (key a) x i))
          → (if key a == x then ok (result a) else loop f (next_index (key a) x i))
            ≡ as_result result missing
                (if key a == x then some a else find key f out x (next_index (key a) x i))
      split a ih = elim (Bool-cases (key a == x)) [ inl e ↦ rw e | inr e ↦ rw e ih ]
