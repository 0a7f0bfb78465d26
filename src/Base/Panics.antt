-- ===== src/Base/Panics.antt =====
-- A Go call that either returns a value or panics.
use mathlib.Core.Path.{◌≡◌, refl}
use mathlib.Core.Bool.{Bool, true, false}
use mathlib.Core.Option.{Option, none, some}
use mathlib.Core.Logic.{◌⊎◌, inl, inr}

pub data Outcome {ℓ} (A : Type ℓ) : Type ℓ where
  ok : A → Outcome A
  panic : Outcome A

infixl 5 ◌>>=◌
abbrev pub ◌>>=◌ {ℓ μ} : {A : Type ℓ} {B : Type μ} → Outcome A → (A → Outcome B) → Outcome B
panic >>= k = panic
ok a >>= k = k a

pub Outcome-cases {ℓ} : {A : Type ℓ} (o : Outcome A) → (o ≡ panic) ⊎ ((a : A) × (o ≡ ok a))
Outcome-cases (ok a) = inr (a, refl)
Outcome-cases panic = inl refl

-- A nil dereference, or an explicit panic on a missing entry.
abbrev pub or_panic {ℓ} : {A : Type ℓ} → Option A → Outcome A
or_panic none = panic
or_panic (some a) = ok a

-- Where the whole returns, so does its first call.
pub >>=-eq-ok {ℓ μ} :
    {A : Type ℓ} {B : Type μ} (call : Outcome A) (k : A → Outcome B) {result : B}
    → (call >>= k) ≡ ok result
    → (value : A) × (call ≡ ok value) × (k value ≡ ok result)
>>=-eq-ok panic k returned = cc
>>=-eq-ok (ok value) k returned = (value, refl, returned)

pub or_panic-eq-ok {ℓ} : {A : Type ℓ} (o : Option A) {a : A} → or_panic o ≡ ok a → o ≡ some a
or_panic-eq-ok none h = cc
or_panic-eq-ok (some b) h = cc

pub some-injective {ℓ} : {A : Type ℓ} {a b : A} → some a ≡ some b → a ≡ b
some-injective h = cc

pub ok-injective {ℓ} : {A : Type ℓ} {a b : A} → ok a ≡ ok b → a ≡ b
ok-injective h = cc

-- Whether the call returns.
abbrev pub returns {ℓ} : {A : Type ℓ} → Outcome A → Bool
returns (ok a) = true
returns panic = false

pub returns→ok {ℓ} : {A : Type ℓ} (o : Outcome A) → returns o ≡ true → (a : A) × (o ≡ ok a)
returns→ok (ok a) h = (a, refl)
returns→ok panic h = cc

pub panic_ne_ok {ℓ} : {A : Type ℓ} {a : A} → panic ≡ ok a → ⊥
panic_ne_ok h = cc
