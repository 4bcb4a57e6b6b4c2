-- ===== src/RangeCache/Invariant.antt =====
-- range-cache/range-cache.go: what every operation keeps true of the cache.
use yellowstone_faithful.Prelude.{
  ℕ, ◌+◌, ◌-◌, ◌%◌, ◌^◌, ◌≡◌, ◌∙◌, ap, inl, inr, Bool, false, ltb, List, [], ◌∷◌, length, arith,
  All, Bool-cases,
}
use yellowstone_faithful.RangeCache.{
  Range, CacheEntry, contains, sub64, set_loop, Ending, context_done, already_cached, to_insert,
  delete_loop,
}

-- Neither range contains the other.
abbrev pub Apart : Range → Range → Type 0
Apart r r2 = (contains r r2 ≡ false) × (contains r2 r ≡ false)

abbrev pub Antichain : List CacheEntry → Type 0
Antichain [] = Unit {0}
Antichain (e ∷ es) = All (λ o. Apart (CacheEntry.range o) e.range) es × Antichain es

-- The bytes that the entries hold.
abbrev pub total : List CacheEntry → ℕ
total [] = 0
total (e ∷ es) = length e.value + total es

-- A list with some entries left out.
pub record Part (es' es : List CacheEntry) : Type 1 where
  pub part_all : (P : CacheEntry → Type 0) → All P es → All P es'
  pub part_antichain : Antichain es → Antichain es'

whole-Part : (es : List CacheEntry) → Part es es
whole-Part es = record { part_all = λ P h. h; part_antichain = λ h. h }

keep-Part : (e : CacheEntry) (es' es : List CacheEntry) → Part es' es → Part (e ∷ es') (e ∷ es)
keep-Part e es' es p = record {
  part_all = λ P h. (h.0, p.part_all P h.1);
  part_antichain = λ h. (p.part_all _ h.0, p.part_antichain h.1);
}

skip-Part : (e : CacheEntry) (es' es : List CacheEntry) → Part es' es → Part es' (e ∷ es)
skip-Part e es' es p = record {
  part_all = λ P h. p.part_all P h.1;
  part_antichain = λ h. p.part_antichain h.1;
}

-- The space of the rest, when an entry is deleted.
sub64-total : (c l t : ℕ) → sub64 ((c + (l + t)) % 2 ^ 64) l ≡ (c + t) % 2 ^ 64
sub64-total c l t = omega arith

regroup : (c l t occupied : ℕ) → occupied ≡ (c + (l + t)) % 2 ^ 64 → occupied ≡ (c + l + t) % 2 ^ 64
regroup c l t occupied h = omega arith

ungroup : (c l t occupied : ℕ) → occupied ≡ (c + l + t) % 2 ^ 64 → occupied ≡ (c + (l + t)) % 2 ^ 64
ungroup c l t occupied h = omega arith

-- The entries that an iteration leaves, and the space counted for them.
pub record Left (c : ℕ) (es : List CacheEntry) (es' : List CacheEntry) (occupied : ℕ) : Type 1 where
  pub part : Part es' es
  pub space : occupied ≡ (c + total es') % 2 ^ 64

Left-all :
    (c : ℕ) (es : List CacheEntry) (occupied : ℕ)
    → occupied ≡ (c + total es) % 2 ^ 64
    → Left c es es occupied
Left-all c es occupied h = record { part = whole-Part es; space = h }

Left-keep :
    (c : ℕ) (e : CacheEntry) (es es' : List CacheEntry) (occupied : ℕ)
    → Left (c + length e.value) es es' occupied
    → Left c (e ∷ es) (e ∷ es') occupied
Left-keep c e es es' occupied l = record {
  part = keep-Part e es' es l.part;
  space = ungroup c (length e.value) (total es') occupied l.space;
}

Left-skip :
    (c : ℕ) (e : CacheEntry) (es es' : List CacheEntry) (occupied : ℕ)
    → Left c es es' occupied
    → Left c (e ∷ es) es' occupied
Left-skip c e es es' occupied l = record { part = skip-Part e es' es l.part; space = l.space }

pub delete_loop-Left :
    (done : ℕ → Bool) (now : ℕ → ℕ) (max_age i c : ℕ) (es : List CacheEntry) (occupied : ℕ)
    → occupied ≡ (c + total es) % 2 ^ 64
    → Left c es
        (delete_loop done now max_age i es occupied).0
        (delete_loop done now max_age i es occupied).1
unfolding delete_loop
delete_loop-Left done now max_age i c [] occupied h = Left-all c [] occupied h
delete_loop-Left done now max_age i c (e ∷ es) occupied h = elim (Bool-cases (done i)) [
  | inl stop ↦ rw stop (Left-all c (e ∷ es) occupied h)
  | inr go ↦ elim (Bool-cases (ltb max_age (now i - e.last_read))) [
    | inl old ↦
        rw (go, old)
          (Left-skip c e es _ _ (
            delete_loop-Left done now max_age (i + 1) c es (sub64 occupied (length e.value))
              (ap (λ o. sub64 o (length e.value)) h ∙ sub64-total c (length e.value) (total es))))
    | inr fresh ↦
        rw (go, fresh)
          (Left-keep c e es _ _ (
            delete_loop-Left done now max_age (i + 1) (c + length e.value) es occupied
              (regroup c (length e.value) (total es) occupied h)))
  ]
]

-- Behind a whole iteration no entry is left that contains the range, or is contained in it.
abbrev pub Clear : Range → List CacheEntry → Ending → Type 0
Clear r es context_done = Unit {0}
Clear r es already_cached = Unit {0}
Clear r es to_insert = All (λ o. Apart (CacheEntry.range o) r) es

Clear-cons :
    (r : Range) (e : CacheEntry) (es : List CacheEntry) (ending : Ending)
    → Apart e.range r
    → Clear r es ending
    → Clear r (e ∷ es) ending
Clear-cons r e es context_done a c = tt
Clear-cons r e es already_cached a c = tt
Clear-cons r e es to_insert a c = (a, c)

pub set_loop-Left :
    (done : ℕ → Bool) (r : Range) (i c : ℕ) (es : List CacheEntry) (occupied : ℕ)
    → occupied ≡ (c + total es) % 2 ^ 64
    → Left c es (set_loop done r i es occupied).0 (set_loop done r i es occupied).1
      × Clear r (set_loop done r i es occupied).0 (set_loop done r i es occupied).2
unfolding set_loop
set_loop-Left done r i c [] occupied h = (Left-all c [] occupied h, tt)
set_loop-Left done r i c (e ∷ es) occupied h = elim (Bool-cases (done i)) [
  | inl stop ↦ rw stop (Left-all c (e ∷ es) occupied h, tt)
  | inr go ↦ elim (Bool-cases (contains e.range r)) [
    | inl covered ↦ rw (go, covered) (Left-all c (e ∷ es) occupied h, tt)
    | inr free ↦ elim (Bool-cases (contains r e.range)) [
      | inl inside ↦
          let (l, k) =
            set_loop-Left done r (i + 1) c es (sub64 occupied (length e.value))
              (ap (λ o. sub64 o (length e.value)) h ∙ sub64-total c (length e.value) (total es)) in
          rw (go, free, inside) (Left-skip c e es _ _ l, k)
      | inr outside ↦
          let (l, k) =
            set_loop-Left done r (i + 1) (c + length e.value) es occupied
              (regroup c (length e.value) (total es) occupied h) in
          rw (go, free, outside) (Left-keep c e es _ _ l, Clear-cons r e _ _ (free, outside) k)
    ]
  ]
]
