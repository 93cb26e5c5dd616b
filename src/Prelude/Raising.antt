-- ===== src/Prelude/Raising.antt =====
-- Code that raises: a value or an exception, with rules for what a chain of calls ensures.
use mathlib.Core.Path.{◌≡◌, refl}
use mathlib.Core.Logic.{◌⊎◌, inl, inr}
use mathlib.Core.Bool.{Bool, true, false}
use mathlib.Core.Option.{Option, none, some}

pub data Result {ℓ} (E : Type 0) (A : Type ℓ) : Type ℓ where
  ok : A → Result E A
  err : E → Result E A

module _ {E : Type 0} where
  infixl 5 ◌>>=◌ ◌>>◌
  abbrev pub ◌>>=◌ {ℓ κ} : {A : Type ℓ} {B : Type κ} → Result E A → (A → Result E B) → Result E B
  ok a >>= next = next a
  err e >>= next = err e

  abbrev pub ◌>>◌ {ℓ} : {B : Type ℓ} → Result E (Unit {0}) → Result E B → Result E B
  step >> next = step >>= λ _. next

  -- `if test: raise e`
  abbrev pub raise_if : Bool → E → Result E (Unit {0})
  raise_if true e = err e
  raise_if false e = ok tt

  abbrev pub or_raise {ℓ} : {A : Type ℓ} → Option A → E → Result E A
  or_raise none e = err e
  or_raise (some a) e = ok a

  -- What holds of the value, if there is one.
  abbrev pub Ensures {ℓ κ} : {A : Type ℓ} → (A → Type κ) → Result E A → Type κ
  Ensures P (ok a) = P a
  Ensures P (err _) = Unit

  pub Ensures-bind {ℓ κ μ ν} :
      {A : Type ℓ} {B : Type κ} (P : A → Type μ) (Q : B → Type ν) (m : Result E A)
      (f : A → Result E B)
      → Ensures P m
      → ((a : A) → P a → Ensures Q (f a))
      → Ensures Q (m >>= f)
  Ensures-bind P Q (ok a) f p k = k a p
  Ensures-bind P Q (err e) f p k = tt

  -- A step of which nothing need be known.
  pub Ensures-skip {ℓ κ μ} :
      {A : Type ℓ} {B : Type κ} (Q : B → Type μ) (m : Result E A) (f : A → Result E B)
      → ((a : A) → Ensures Q (f a))
      → Ensures Q (m >>= f)
  Ensures-skip Q (ok a) f k = k a
  Ensures-skip Q (err e) f k = tt

  pub Ensures-raise_if {ℓ κ} :
      {B : Type ℓ} (Q : B → Type κ) (b : Bool) (e : E) (k : Result E B)
      → (b ≡ false → Ensures Q k)
      → Ensures Q (raise_if b e >> k)
  Ensures-raise_if Q true e k h = tt
  Ensures-raise_if Q false e k h = h refl

  pub Ensures-ok {ℓ κ} :
      {A : Type ℓ} (P : A → Type κ) (m : Result E A) {a : A} → m ≡ ok a → Ensures P m → P a
  Ensures-ok P m e h = rw e at h

  pub Ensures-self {ℓ} : {A : Type ℓ} (m : Result E A) → Ensures (λ a. m ≡ ok a) m
  Ensures-self (ok a) = refl
  Ensures-self (err e) = tt

  pub >>=-eq-ok {ℓ κ} :
      {A : Type ℓ} {B : Type κ} (step : Result E A) (next : A → Result E B) {result : B}
      → (step >>= next) ≡ ok result
      → (value : A) × (step ≡ ok value) × (next value ≡ ok result)
  >>=-eq-ok (ok value) next returned = (value, refl, returned)
  >>=-eq-ok (err e) next returned = cc

  pub Result-cases {ℓ} :
      {A : Type ℓ} (m : Result E A) → ((a : A) × (m ≡ ok a)) ⊎ ((e : E) × (m ≡ err e))
  Result-cases (ok a) = inl (a, refl)
  Result-cases (err e) = inr (e, refl)

  -- Two things ensured of one step.
  pub Ensures-both {ℓ κ μ ν} :
      {A : Type ℓ} (P : A → Type κ) (Q : A → Type μ) (R : A → Type ν) (m : Result E A)
      → Ensures P m
      → Ensures Q m
      → ((a : A) → P a → Q a → R a)
      → Ensures R m
  Ensures-both P Q R (ok a) p q k = k a p q
  Ensures-both P Q R (err e) p q k = tt

  pub Ensures-weaken {ℓ κ μ} :
      {A : Type ℓ} (P : A → Type κ) (Q : A → Type μ) (m : Result E A)
      → Ensures P m
      → ((a : A) → P a → Q a)
      → Ensures Q m
  Ensures-weaken P Q (ok a) p k = k a p
  Ensures-weaken P Q (err e) p k = tt

  pub or_raise-some {ℓ} :
      {A : Type ℓ} (o : Option A) (e : E) → Ensures (λ a. o ≡ some a) (or_raise o e)
  or_raise-some none e = tt
  or_raise-some (some a) e = refl
