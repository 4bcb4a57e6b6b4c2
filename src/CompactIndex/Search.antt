-- ===== src/CompactIndex/Search.antt =====
-- compactindexsized/query.go: `searchEytzinger` on the entries that `hashBucket` laid out.
use yellowstone_faithful.Prelude.{
  ℕ, suc, ◌+◌, ◌≤◌, ◌<◌, ◌≡◌, ◌≢◌, ◌⊎◌, refl, ap, ◌∙◌, inl, inr, some, List, [], ◌∷◌, length,
  get_elem?, All, All-imp, Result, ok, err, arith, ◌==◌, if◌then◌else◌, Option-cases,
}
use yellowstone_faithful.Eytzinger.Search.{find, next_index}
use yellowstone_faithful.Eytzinger.Walk.{as_result, loop-find}
use yellowstone_faithful.Eytzinger.Lookup.{find-layout_some, find-layout_none, length-layout}
use yellowstone_faithful.Sorting.{sort_by, sort_by-Sorted, sort_by-All, All-sort_by, length-sort_by}
use yellowstone_faithful.CompactIndex.{Error, not_found, Entry}
use yellowstone_faithful.CompactIndex.Builder.{sort_with_compare, zero_entry}
use yellowstone_faithful.CompactIndex.Query.{search_loop, search_eytzinger}

-- `getter` reads the slice `out`.
abbrev pub Reads : List Entry → (ℕ → Result Error Entry) → Type 0
Reads out getter = (i : ℕ) (e : Entry) → get_elem? out i ≡ some e → getter i ≡ ok e

-- The entry stands in the list.
abbrev pub Among : List Entry → Entry → Type 0
Among entries e = (j : ℕ) × (get_elem? entries j ≡ some e)

All-Among : (entries : List Entry) → All (Among entries) entries
All-Among [] = tt
All-Among (e ∷ es) = ((0, refl), All-imp _ _ (λ o (j, q). (suc j, q)) es (All-Among es))

module _ (max x : ℕ) (getter : ℕ → Result Error Entry) where
  loop_end : (f i : ℕ) → max ≤ i → search_loop (suc f) max x getter i ≡ err not_found
  unfolding search_loop
  loop_end f i h = ground arith

  loop_step :
      (f i : ℕ) (e : Entry)
      → i < max
      → getter i ≡ ok e
      → search_loop (suc f) max x getter i
        ≡ (if e.hash == x then ok e.value else search_loop f max x getter (next_index e.hash x i))
  unfolding search_loop
  loop_step f i e h q = ground arith

search_eytzinger-find :
    (out : List Entry) (x : ℕ) (getter : ℕ → Result Error Entry)
    → Reads out getter
    → search_eytzinger (length out) x getter
      ≡ as_result Entry.value not_found (find Entry.hash (length out + 1) out x 0)
unfolding search_eytzinger
search_eytzinger-find out x getter r =
    loop-find Entry.hash Entry.value not_found out x (λ f i. search_loop f (length out) x getter i)
      (loop_end (length out) x getter)
      (λ f i e q inside. loop_step (length out) x getter f i e inside (r i e q)) (length out + 1) 0
      (omega arith) (omega arith)

pub length-sort_with_compare :
    (entries out : List Entry) → sort_with_compare entries ≡ ok out → length out ≡ length entries
unfolding sort_with_compare
length-sort_with_compare entries out e =
    length-layout Entry.hash zero_entry (sort_by Entry.hash entries) out
      (length (sort_by Entry.hash entries) + 1) 0 e (omega arith)
    ∙ length-sort_by Entry.hash entries

-- The search ends: with the value of an entry that has the hash, or with `ErrNotFound`, and then no
-- entry has it.
pub search_eytzinger-sorted :
    (entries out : List Entry) (x : ℕ) (getter : ℕ → Result Error Entry)
    → sort_with_compare entries ≡ ok out
    → Reads out getter
    → ((e : Entry) × Among entries e
        × (e.hash ≡ x)
        × (search_eytzinger (length out) x getter ≡ ok e.value))
      ⊎ (All (λ e. Entry.hash e ≢ x) entries
          × (search_eytzinger (length out) x getter ≡ err not_found))
unfolding sort_with_compare
search_eytzinger-sorted entries out x getter e r =
    elim (Option-cases (find Entry.hash (length out + 1) out x 0)) [
      | inl q ↦ inr (
        All-sort_by Entry.hash (λ o. o.hash ≢ x) entries
            (find-layout_none Entry.hash zero_entry sorted out (length out + 1) x e enough
              (sort_by-Sorted Entry.hash entries) q),
        search_eytzinger-find out x getter r ∙ ap (as_result Entry.value not_found) q,
      )
      | inr (w, q) ↦
          let (member, same) =
            find-layout_some Entry.hash zero_entry sorted out (length out + 1) x e enough
              (Among entries) w (sort_by-All Entry.hash (Among entries) entries (All-Among entries))
              q in
          inl (
            w,
            member,
            same,
            search_eytzinger-find out x getter r ∙ ap (as_result Entry.value not_found) q,
          )
    ]
  where
    sorted : List Entry
    sorted = sort_by Entry.hash entries

    enough : length sorted < length out + 1
    enough = omega (
      arith,
      length-layout Entry.hash zero_entry sorted out (length sorted + 1) x e (omega arith),
    )
