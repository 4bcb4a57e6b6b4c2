-- ===== src/CompactIndex/Inserting.antt =====
-- compactindexsized/build.go: which pairs the temporary buckets hold after some calls of `Insert`.
use yellowstone_faithful.Prelude.{
  Bool, false, true, ℕ, zero, suc, ◌<◌, ◌≤◌, ◌≡◌, ◌≢◌, ◌∙◌, refl, sym, ap, subst, none, some,
  Option, List, [], ◌∷◌, ◌++◌, length, get_elem?, set, Result, ok, bind_inv, arith, All, All-append,
  length-append, append-nil, append_assoc, length-set, get_elem?-set_self, get_elem?-set_ne,
  get_elem?-append, ℕ_discrete, or_panic, ◌==◌, if◌then◌else◌, ◌>>=◌, get_elem?-inside, Bool,
}
use yellowstone_faithful.CompactIndex.{Error, Header, bucket_hash}
use yellowstone_faithful.CompactIndex.Builder.{Builder, TempBucket, write_tuple, insert}
use yellowstone_faithful.CompactIndex.Tuples.{Pair, Fits, Holds, write_tuple-Holds}

-- The pair stands in the list.
abbrev pub Member : List Pair → Pair → Type 0
Member ps p = (j : ℕ) × (get_elem? ps j ≡ some p)

Member-append_left : (ps qs : List Pair) (p : Pair) → Member ps p → Member (ps ++ qs) p
Member-append_left [] qs p (j, e) = cc
Member-append_left (o ∷ ps) qs p (zero, e) = (0, e)
Member-append_left (o ∷ ps) qs p (suc j, e) =
    let (k, q) = Member-append_left ps qs p (j, e) in (suc k, q)

Member-last : (ps : List Pair) (p : Pair) → Member (ps ++ (p ∷ [])) p
Member-last ps p = (length ps, get_elem?-append ps p [] (length ps) refl)

-- A member of a longer list is in the list, or is the last.
Member-append_inv :
    (P : Pair → Type 0) (ps : List Pair) (p o : Pair)
    → ((q : Pair) → Member ps q → P q)
    → P p
    → Member (ps ++ (p ∷ [])) o
    → P o
Member-append_inv P [] p o h hp (zero, e) = subst P (cc) hp
Member-append_inv P [] p o h hp (suc j, e) = cc
Member-append_inv P (q ∷ ps) p o h hp (zero, e) = h o (0, e)
Member-append_inv P (q ∷ ps) p o h hp (suc j, e) =
    Member-append_inv P ps p o (λ r (k, e'). h r (suc k, e')) hp (j, e)

abbrev pub insert_all : (List ℕ → ℕ) → ℕ → Builder → List Pair → Result Error Builder
insert_all xxhash fuel b [] = ok b
insert_all xxhash fuel b (p ∷ ps) =
    insert xxhash fuel b p.key p.value >>= λ b'. insert_all xxhash fuel b' ps

or_panic-inv : {A : Type 0} (o : Option A) {a : A} → or_panic {E = Error} o ≡ ok a → o ≡ some a
or_panic-inv none e = cc
or_panic-inv (some x) e = cc

pub bucket_injective : {a b : TempBucket} → ◌≡◌ {A = Option TempBucket} (some a) (some b) → a ≡ b
bucket_injective q = cc

pub ok_injective : {x y : Builder} → ◌≡◌ {A = Result Error Builder} (ok x) (ok y) → x ≡ y
ok_injective q = cc

-- The table behind an insertion into bucket `i`.
abbrev pub put_in : (ℕ → List Pair) → ℕ → Pair → ℕ → List Pair
put_in table i p k = if k == i then table k ++ (p ∷ []) else table k

-- The hash is that of bucket `i`.
abbrev pub lands : Result Error ℕ → ℕ → Bool
lands (ok j) i = j == i
lands _ i = false

-- The pairs whose keys belong to bucket `i`, in order.
abbrev pub in_bucket : (List ℕ → ℕ) → ℕ → Header → ℕ → List Pair → List Pair
in_bucket xxhash fuel h i [] = []
in_bucket xxhash fuel h i (p ∷ ps) =
    let rest = in_bucket xxhash fuel h i ps in
    if lands (bucket_hash xxhash fuel h p.key) i then p ∷ rest else rest

in_bucket-last :
    (xxhash : List ℕ → ℕ) (fuel : ℕ) (h : Header) (i : ℕ) (ps : List Pair) (p : Pair)
    → in_bucket xxhash fuel h i (ps ++ (p ∷ [])) ≡ (
        if lands (bucket_hash xxhash fuel h p.key) i
        then in_bucket xxhash fuel h i ps ++ (p ∷ [])
        else in_bucket xxhash fuel h i ps)
in_bucket-last xxhash fuel h i [] p = refl
in_bucket-last xxhash fuel h i (o ∷ ps) p =
    ap (λ l. if lands (bucket_hash xxhash fuel h o.key) i then o ∷ l else l)
      (in_bucket-last xxhash fuel h i ps p)
    ∙ if_cons (lands (bucket_hash xxhash fuel h o.key) i)
        (lands (bucket_hash xxhash fuel h p.key) i) (in_bucket xxhash fuel h i ps)
  where
    if_cons :
        (a b : Bool) (l : List Pair)
        → (if a then o ∷ (if b then l ++ (p ∷ []) else l) else (if b then l ++ (p ∷ []) else l))
          ≡ (if b then (if a then o ∷ l else l) ++ (p ∷ []) else (if a then o ∷ l else l))
    if_cons true true l = refl
    if_cons true false l = refl
    if_cons false true l = refl
    if_cons false false l = refl

module _ (xxhash : List ℕ → ℕ) (fuel : ℕ) (h : Header) where
  -- The buckets hold the pairs inserted, each in the bucket of its key.
  pub record Tracks (pairs : List Pair) (buckets : List TempBucket) (table : ℕ → List Pair)
      : Type 0 where
    pub count : length buckets ≡ h.num_buckets
    pub held :
        (i : ℕ) (b : TempBucket) → get_elem? buckets i ≡ some b → Holds h.value_size b (table i)
    pub fits : (i : ℕ) → All (Fits h.value_size) (table i)
    pub few : (i : ℕ) → length (table i) ≤ length pairs
    pub sound : (i : ℕ) (p : Pair) → Member (table i) p → Member pairs p
    pub only : (i : ℕ) → table i ≡ in_bucket xxhash fuel h i pairs
    pub complete :
        (p : Pair)
        → Member pairs p
        → (i : ℕ) × (bucket_hash xxhash fuel h p.key ≡ ok i) × Member (table i) p

  module _ (pairs : List Pair) (buckets : List TempBucket) (table : ℕ → List Pair)
      (t : Tracks pairs buckets table) (p : Pair) (fit : Fits h.value_size p) (i : ℕ)
      (hashed : bucket_hash xxhash fuel h p.key ≡ ok i) (bucket : TempBucket)
      (at : get_elem? buckets i ≡ some bucket) where
    inside : i < length buckets
    inside = get_elem?-inside buckets i at

    put-elim :
        (P : ℕ → List Pair → Type 0) (k : ℕ)
        → P i (table i ++ (p ∷ []))
        → (k ≢ i → P k (table k))
        → P k (put_in table i p k)
    put-elim P k own other = elim (ℕ_discrete k i) [
      | yes same ↦
          subst (λ j. P j (put_in table i p j)) (sym same)
            (subst (P i) {x = table i ++ (p ∷ [])} {y = put_in table i p i} (ground arith) own)
      | no ne ↦ subst (P k) {x = table k} {y = put_in table i p k} (ground arith) (other ne)
    ]

    put-held :
        (k : ℕ) (b : TempBucket)
        → get_elem? (set buckets i (write_tuple bucket p.key p.value)) k ≡ some b
        → Holds h.value_size b (put_in table i p k)
    put-held k =
        put-elim
          (λ k l.
            (b : TempBucket)
            → get_elem? (set buckets i (write_tuple bucket p.key p.value)) k ≡ some b
            → Holds h.value_size b l)
          k
          (λ b e.
            subst (λ c. Holds h.value_size c (table i ++ (p ∷ [])))
              (bucket_injective (sym (get_elem?-set_self buckets i _ inside) ∙ e))
              (write_tuple-Holds h.value_size bucket (table i) p fit (t.held i bucket at)))
          (λ ne b e. t.held k b (sym (get_elem?-set_ne buckets i k _ (λ s. ne (sym s))) ∙ e))

    lands-own :
        (if lands (bucket_hash xxhash fuel h p.key) i then table i ++ (p ∷ []) else table i)
        ≡ table i ++ (p ∷ [])
    lands-own = rw hashed (ground arith)

    lands-other :
        (k : ℕ)
        → k ≢ i
        → (if lands (bucket_hash xxhash fuel h p.key) k then table k ++ (p ∷ []) else table k)
          ≡ table k
    lands-other k ne = rw hashed (ground arith)

    in_bucket-table :
        (k : ℕ)
        → (if lands (bucket_hash xxhash fuel h p.key) k then table k ++ (p ∷ []) else table k)
          ≡ in_bucket xxhash fuel h k (pairs ++ (p ∷ []))
    in_bucket-table k =
        ap (λ l. if lands (bucket_hash xxhash fuel h p.key) k then l ++ (p ∷ []) else l) (t.only k)
        ∙ sym (in_bucket-last xxhash fuel h k pairs p)

    pub insert-Tracks :
        Tracks
          (pairs ++ (p ∷ []))
          (set buckets i (write_tuple bucket p.key p.value))
          (put_in table i p)
    insert-Tracks = record {
      count = length-set buckets i _ ∙ t.count;
      held = put-held;
      fits = λ k.
          put-elim (λ k l. All (Fits h.value_size) l) k
            (All-append (Fits h.value_size) (table i) (p ∷ []) (t.fits i) (fit, tt))
            (λ _. t.fits k);
      few = λ k.
          put-elim (λ k l. length l ≤ length (pairs ++ (p ∷ []))) k
            (omega (arith, t.few i, length-append (table i) (p ∷ []), length-append pairs (p ∷ [])))
            (λ _. omega (arith, t.few k, length-append pairs (p ∷ [])));
      sound = λ k.
          put-elim (λ k l. (o : Pair) → Member l o → Member (pairs ++ (p ∷ [])) o) k
            (λ o.
              Member-append_inv (Member (pairs ++ (p ∷ []))) (table i) p o
                (λ q m. Member-append_left pairs (p ∷ []) q (t.sound i q m)) (Member-last pairs p))
            (λ _ o m. Member-append_left pairs (p ∷ []) o (t.sound k o m));
      only = λ k.
          put-elim (λ k l. l ≡ in_bucket xxhash fuel h k (pairs ++ (p ∷ []))) k
            (sym lands-own ∙ in_bucket-table i) (λ ne. sym (lands-other k ne) ∙ in_bucket-table k);
      complete = λ o.
          Member-append_inv
            (λ o.
              (k : ℕ) × (bucket_hash xxhash fuel h o.key ≡ ok k) × Member (put_in table i p k) o)
            pairs p o
            (λ q m.
              let (k, e, n) = t.complete q m in
              (
                k,
                e,
                put-elim (λ k l. Member (table k) q → Member l q) k
                    (Member-append_left (table i) (p ∷ []) q) (λ _ n. n) n,
              ))
            (
              i,
              hashed,
              put-elim (λ k l. k ≡ i → Member l p) i (λ _. Member-last (table i) p)
                  (λ ne same. absurd (ne same)) refl,
            );
    }

pub insert-inv :
    (xxhash : List ℕ → ℕ) (fuel : ℕ) (b b' : Builder) (key value : List ℕ)
    → insert xxhash fuel b key value ≡ ok b'
    → (i : ℕ) × (bucket : TempBucket) × (bucket_hash xxhash fuel b.header key ≡ ok i)
      × (get_elem? b.buckets i ≡ some bucket)
      × (record b { buckets = set b.buckets i (write_tuple bucket key value) } ≡ b')
unfolding insert
insert-inv xxhash fuel b b' key value e =
    let (i, q, e₁) = bind_inv (bucket_hash xxhash fuel b.header key) _ e in
    let (bucket, r, e₂) = bind_inv (or_panic (get_elem? b.buckets i)) _ e₁ in
    (i, bucket, q, or_panic-inv (get_elem? b.buckets i) r, ok_injective e₂)

module _ (xxhash : List ℕ → ℕ) (fuel : ℕ) (h : Header) where
  -- The builder holds the pairs inserted.
  abbrev pub Kept : List Pair → Builder → Type 0
  Kept pairs b =
      (b.header ≡ h) × (table : ℕ → List Pair) × Tracks xxhash fuel h pairs b.buckets table

  pub insert_all-Kept :
      (ps seen : List Pair) (b b' : Builder)
      → All (Fits h.value_size) ps
      → Kept seen b
      → insert_all xxhash fuel b ps ≡ ok b'
      → Kept (seen ++ ps) b'
  insert_all-Kept [] seen b b' f k e =
      subst (Kept (seen ++ [])) (ok_injective e) (subst (λ l. Kept l b) (sym (append-nil seen)) k)
  insert_all-Kept (p ∷ ps) seen b b' f (same, table, t) e =
      let (b₁, q, e₁) = bind_inv (insert xxhash fuel b p.key p.value) _ e in
      let (i, bucket, hashed, at, r) = insert-inv xxhash fuel b b₁ p.key p.value q in
      let hashed' = subst (λ h. bucket_hash xxhash fuel h p.key ≡ ok i) same hashed in
      let k : Kept (seen ++ (p ∷ [])) b₁ = subst (Kept (seen ++ (p ∷ []))) r (
        same,
        put_in table i p,
        insert-Tracks xxhash fuel h seen b.buckets table t p f.0 i hashed' bucket at,
      ) in
      subst (λ l. Kept l b') (append_assoc seen (p ∷ []) ps)
        (insert_all-Kept ps (seen ++ (p ∷ [])) b₁ b' f.1 k e₁)
