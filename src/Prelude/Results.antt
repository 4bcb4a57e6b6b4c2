-- ===== src/Prelude/Results.antt =====
-- What a call of the program can come to.
use mathlib.Core.Path.{◌≡◌, refl, ap}
use mathlib.Core.Bool.{Bool, true, false}
use mathlib.Core.Option.{Option, none, some}

-- Go's `(value, error)` pair. `panic` is a run-time panic, such as an index out of range, and
-- `stuck` is no value of Go: a loop that was given too little fuel.
pub data Result {ℓ κ} (E : Type κ) (A : Type ℓ) : Type (ℓ ⊔ κ) where
  ok : A → Result E A
  err : E → Result E A
  panic : Result E A
  stuck : Result E A

infixl 5 ◌>>=◌ ◌>>◌
abbrev pub ◌>>=◌ {ℓ κ μ} :
    {E : Type μ} {A : Type ℓ} {B : Type κ} → Result E A → (A → Result E B) → Result E B
ok a >>= f = f a
err e >>= f = err e
panic >>= f = panic
stuck >>= f = stuck

abbrev pub ◌>>◌ {ℓ μ} : {E : Type μ} {B : Type ℓ} → Result E (Unit {0}) → Result E B → Result E B
m >> k = m >>= λ _. k

-- `if !test { return e }`
abbrev pub guard {μ} : {E : Type μ} → Bool → E → Result E (Unit {0})
guard true e = ok tt
guard false e = err e

pub guard-true {μ} : {E : Type μ} (b : Bool) (e : E) → b ≡ true → guard b e ≡ ok tt
guard-true b e h = ap (λ t. guard t e) h

-- An indexed access that panics out of range.
abbrev pub or_panic {ℓ μ} : {E : Type μ} {A : Type ℓ} → Option A → Result E A
or_panic none = panic
or_panic (some a) = ok a

-- An error of a callee, wrapped by the caller.
abbrev pub map_err {ℓ κ μ} :
    {E : Type κ} {F : Type μ} {A : Type ℓ} → (E → F) → Result E A → Result F A
map_err f (ok a) = ok a
map_err f (err e) = err (f e)
map_err f panic = panic
map_err f stuck = stuck

module _ {ℓ κ μ} {E : Type μ} {A : Type ℓ} {B : Type κ} where
  -- A chain whose first part succeeds goes on with its value.
  pub bind_ok : (m : Result E A) (next : A → Result E B) {a : A} → m ≡ ok a → (m >>= next) ≡ next a
  bind_ok m next e = ap (λ t. t >>= next) e

  -- A chain whose first part fails does so.
  pub bind_err : (m : Result E A) (next : A → Result E B) {e : E} → m ≡ err e → (m >>= next) ≡ err e
  bind_err m next e = ap (λ t. t >>= next) e

  -- A chain that succeeds did so in both parts.
  pub bind_inv :
      (m : Result E A) (next : A → Result E B) {out : B}
      → (m >>= next) ≡ ok out
      → (a : A) × (m ≡ ok a) × (next a ≡ ok out)
  bind_inv stuck next e = cc
  bind_inv panic next e = cc
  bind_inv (err x) next e = cc
  bind_inv (ok a) next e = (a, refl, e)

pub map_err-inv {ℓ κ μ} :
    {E : Type κ} {F : Type μ} {A : Type ℓ} (f : E → F) (r : Result E A) {a : A}
    → map_err f r ≡ ok a
    → r ≡ ok a
map_err-inv f (ok a) e = cc
map_err-inv f (err x) e = cc
map_err-inv f panic e = cc
map_err-inv f stuck e = cc
