-- ===== src/RangeCache/Validity.antt =====
-- range-cache/range-cache.go: a cache of a file that every operation keeps valid.
use yellowstone_faithful.Prelude.{
  if_true, if_false, not_ltb, ℕ, ◌+◌, ◌-◌, ◌%◌, ◌^◌, ◌<◌, ◌≤◌, ◌≡◌, ◌∙◌, refl, sym, ap, subst, inl,
  inr, Bool, true, ◌&&◌, ◌||◌, ltb, ◌==◌, List, [], ◌∷◌, ◌++◌, length, err, arith, All, All-append,
  Bool-cases, dec_le, lt→ltb,
}
use yellowstone_faithful.Bytes.{slice}
use yellowstone_faithful.Bytes.Laws.{length-slice}
use yellowstone_faithful.RangeCache.{
  Range, CacheEntry, RangeCache, contains, sub64, int64_lt, set_loop, Ending, context_done,
  already_cached, to_insert, delete_old_entries, assign, finish_set, set_range, invalid_range,
}
use yellowstone_faithful.RangeCache.Invariant.{
  Apart, Antichain, total, Left, Clear, delete_loop-Left, set_loop-Left,
}

-- The entry holds the bytes of its range of the file.
pub record Faithful (file : List ℕ) (e : CacheEntry) : Type 0 where
  pub ordered : e.range.start ≤ e.range.end
  pub inside : e.range.end ≤ length file
  pub true_value : e.value ≡ slice file e.range.start (e.range.end - e.range.start)

-- A cache of the file: its entries hold the file's bytes, none of their ranges contains another, and
-- the occupied space is what they hold together.
pub record IsValid (file : List ℕ) (rc : RangeCache) : Type 0 where
  pub size_same : rc.size ≡ length file
  pub faithful : All (Faithful file) rc.cache
  pub antichain : Antichain rc.cache
  pub space : rc.occupied_space ≡ total rc.cache % 2 ^ 64

pub contains_self : (r r2 : Range) → r.start ≡ r2.start → r.end ≡ r2.end → contains r r2 ≡ true
unfolding contains
contains_self r r2 h₁ h₂ = ground (arith, h₁, h₂)

pub both_same : (a b c d : ℕ) → ((a == b) && (c == d)) ≡ true → (a ≡ b) × (c ≡ d)
both_same a b c d h = (ground arith, ground arith)

-- The check of a range, in 64 bits, is that it ends within the file.
pub range_check :
    (start ln size : ℕ)
    → start < 2 ^ 64
    → ln < 2 ^ 64
    → size < 2 ^ 63
    → (int64_lt start 0
        || (int64_lt size ((start + ln) % 2 ^ 64) || int64_lt ((start + ln) % 2 ^ 64) start))
      ≡ ltb size (start + ln)
range_check start ln size hs hl hz = ground arith

pub whole_length :
    (start ln size : ℕ)
    → start + ln ≤ size
    → size < 2 ^ 63
    → sub64 ((start + ln) % 2 ^ 64) start ≡ ln
whole_length start ln size h hz = omega arith

pub same_end :
    (start ln size : ℕ) → start + ln ≤ size → size < 2 ^ 63 → (start + ln) % 2 ^ 64 ≡ start + ln
same_end start ln size h hz = omega arith

pub same_length : (a b c : ℕ) → a ≡ b → c ≡ b → (a == c) ≡ true
same_length a b c h k = ground arith

module _ (done : ℕ → Bool) (now : ℕ) (rc : RangeCache) (start ln : ℕ) (value : List ℕ)
    (hs : start < 2 ^ 64) (hl : ln < 2 ^ 64) (small : rc.size < 2 ^ 63) where
  set_range_beyond :
      rc.size < start + ln → set_range done now rc start ln value ≡ (rc, err invalid_range)
  unfolding set_range
  set_range_beyond h =
      if_true _ _ _ (range_check start ln rc.size hs hl small ∙ lt→ltb rc.size (start + ln) h)

  pub set_range_within :
      start + ln ≤ rc.size
      → length value ≡ ln
      → set_range done now rc start ln value ≡ (
          let r : Range = record { start = start; end = start + ln } in
          finish_set
            (record { range = r; value = value; last_read = now })
            rc
            (set_loop done r 0 rc.cache rc.occupied_space))
  unfolding set_range
  set_range_within h hv =
      if_false _ _ _ (range_check start ln rc.size hs hl small ∙ not_ltb rc.size (start + ln) h)
      ∙ if_true _ _ _ (
          same_length (length value) ln (sub64 ((start + ln) % 2 ^ 64) start) hv
            (whole_length start ln rc.size h small))
      ∙ ap
          (λ end.
            finish_set
              (record {
                range = record { start = start; end = end };
                value = value;
                last_read = now;
              })
              rc (set_loop done (record { start = start; end = end }) 0 rc.cache rc.occupied_space))
          (same_end start ln rc.size h small)

-- A new key goes to the end.
pub assign-new :
    (e : CacheEntry) (os : List CacheEntry)
    → All (λ o. Apart (CacheEntry.range o) e.range) os
    → assign e os ≡ os ++ (e ∷ [])
unfolding assign
assign-new e [] h = refl
assign-new e (o ∷ os) h =
    let tail = assign-new e os h.1 in
    elim (Bool-cases ((o.range.start == e.range.start) && (o.range.end == e.range.end))) [
      | inl same ↦
          let (e₁, e₂) = both_same o.range.start e.range.start o.range.end e.range.end same in
          cc (h.0.0, contains_self o.range e.range e₁ e₂)
      | inr other ↦ rw other (ap (λ l. o ∷ l) tail)
    ]

total-append : (es os : List CacheEntry) → total (es ++ os) ≡ total es + total os
total-append [] os = omega arith
total-append (e ∷ es) os = omega (arith, total-append es os)

Antichain-append :
    (e : CacheEntry) (es : List CacheEntry)
    → Antichain es
    → All (λ o. Apart (CacheEntry.range o) e.range) es
    → Antichain (es ++ (e ∷ []))
Antichain-append e [] a h = (tt, tt)
Antichain-append e (o ∷ os) a h =
    (All-append _ os (e ∷ []) a.0 ((h.0.1, h.0.0), tt), Antichain-append e os a.1 h.1)

module _ (file : List ℕ) where
  Left-IsValid :
      (rc : RangeCache) (es : List CacheEntry) (occupied : ℕ)
      → IsValid file rc
      → Left 0 rc.cache es occupied
      → IsValid file (record rc { cache = es; occupied_space = occupied })
  Left-IsValid rc es occupied v l = record {
    size_same = v.size_same;
    faithful = l.part.part_all (Faithful file) v.faithful;
    antichain = l.part.part_antichain v.antichain;
    space = omega (arith, l.space);
  }

  pub from_zero :
      (rc : RangeCache) → IsValid file rc → rc.occupied_space ≡ (0 + total rc.cache) % 2 ^ 64
  from_zero rc v = omega (arith, v.space)

  -- Deleting old entries leaves a valid cache.
  pub delete_old_entries-IsValid :
      (done : ℕ → Bool) (now : ℕ → ℕ) (max_age : ℕ) (rc : RangeCache)
      → IsValid file rc
      → IsValid file (delete_old_entries done now max_age rc)
  unfolding delete_old_entries
  delete_old_entries-IsValid done now max_age rc v =
      Left-IsValid rc _ _ v
        (delete_loop-Left done now max_age 0 0 rc.cache rc.occupied_space (from_zero rc v))

  finish_set-IsValid :
      (e : CacheEntry) (rc : RangeCache) (es : List CacheEntry) (occupied : ℕ) (ending : Ending)
      → IsValid file rc
      → Faithful file e
      → Left 0 rc.cache es occupied
      → Clear e.range es ending
      → IsValid file (finish_set e rc (es, occupied, ending)).0
  unfolding finish_set
  finish_set-IsValid e rc es occupied context_done v f l c = Left-IsValid rc es occupied v l
  finish_set-IsValid e rc es occupied already_cached v f l c = Left-IsValid rc es occupied v l
  finish_set-IsValid e rc es occupied to_insert v f l c = record {
    size_same = v.size_same;
    faithful = subst (All (Faithful file)) (sym (assign-new e es c)) (
        All-append (Faithful file) es (e ∷ []) (l.part.part_all (Faithful file) v.faithful)
          (f, tt));
    antichain =
        subst Antichain (sym (assign-new e es c))
          (Antichain-append e es (l.part.part_antichain v.antichain) c);
    space = omega (arith, l.space, ap total (assign-new e es c), total-append es (e ∷ []));
  }

  module _ (small : length file < 2 ^ 63) where
    -- `SetRange` leaves a valid cache, whatever it returns, where it is given the bytes of the file.
    pub set_range-IsValid :
        (done : ℕ → Bool) (now : ℕ) (rc : RangeCache) (start ln : ℕ) (value : List ℕ)
        → IsValid file rc
        → start < 2 ^ 64
        → ln < 2 ^ 64
        → value ≡ slice file start ln
        → IsValid file (set_range done now rc start ln value).0
    unfolding set_range
    set_range-IsValid done now rc start ln value v hs hl hv = elim (dec_le (start + ln) rc.size) [
      | no beyond ↦
          subst (λ q. IsValid file q.0)
            (sym (
              set_range_beyond done now rc start ln value hs hl (omega (arith, v.size_same))
                (omega arith)))
            v
      | yes within ↦
          let size = length-slice file start ln (omega (arith, v.size_same)) in
          let r : Range = record { start = start; end = start + ln } in
          let e : CacheEntry = record { range = r; value = value; last_read = now } in
          let f : Faithful file e = record {
            ordered = omega arith;
            inside = omega (arith, v.size_same);
            true_value = hv ∙ ap (slice file start) (omega arith);
          } in
          let (l, c) = set_loop-Left done r 0 0 rc.cache rc.occupied_space (from_zero rc v) in
          subst (λ q. IsValid file q.0)
            (sym (
              set_range_within done now rc start ln value hs hl (omega (arith, v.size_same)) within
                (ap length hv ∙ size)))
            (finish_set-IsValid e rc _ _ _ v f l c)
    ]
