-- ===== src/Common/Results.antt =====
-- Code that may return an error, or panic.
use mathlib.Core.Path.{◌≡◌, refl, ap}
use mathlib.Core.Logic.{◌⊎◌, inl, inr}
use mathlib.Core.Bool.{Bool, true, false}
use mathlib.Core.Option.{Option, none, some}
use native.Mathlib.Omega.{arith}

pub data Outcome {ℓ} (E : Type 0) (A : Type ℓ) : Type ℓ where
  ok : A → Outcome E A
  err : E → Outcome E A
  panic : Outcome E A

infixl 5 ◌>>=◌
abbrev pub ◌>>=◌ {ℓ κ} :
    {E : Type 0} {A : Type ℓ} {B : Type κ} → Outcome E A → (A → Outcome E B) → Outcome E B
ok a >>= f = f a
err e >>= f = err e
panic >>= f = panic

-- `unwrap`, `expect`, an index: `none` is a panic.
abbrev pub or_panic {ℓ} : {E : Type 0} {A : Type ℓ} → Option A → Outcome E A
or_panic none = panic
or_panic (some a) = ok a

-- `chain_err`, `ok_or`: `none` is this error.
abbrev pub or_err {ℓ} : {E : Type 0} {A : Type ℓ} → E → Option A → Outcome E A
or_err e none = err e
or_err e (some a) = ok a

abbrev pub returns {ℓ} : {E : Type 0} {A : Type ℓ} → Outcome E A → Bool
returns (ok a) = true
returns (err e) = true
returns panic = false

pub Outcome-cases {ℓ} :
    {E : Type 0} {A : Type ℓ} (o : Outcome E A)
    → returns o ≡ true
    → ((a : A) × (o ≡ ok a)) ⊎ ((e : E) × (o ≡ err e))
Outcome-cases (ok a) h = inl (a, refl)
Outcome-cases (err e) h = inr (e, refl)
Outcome-cases panic h = ground arith

pub ok-injective {ℓ} :
    {E : Type 0} {A : Type ℓ} (a b : A) → ◌≡◌ {A = Outcome E A} (ok a) (ok b) → a ≡ b
ok-injective a b q = ap (λ o. elim o [ ok x ↦ x | err e ↦ a | panic ↦ a ]) q

pub or_err-ok {ℓ} :
    {E : Type 0} {A : Type ℓ} (e : E) (m : Option A) (a : A) → or_err e m ≡ ok a → m ≡ some a
or_err-ok e none a h = ground (arith, h)
or_err-ok e (some b) a h = ap some (ok-injective b a h)

-- What a chain that returns went through.
pub >>=-eq-ok {ℓ κ} :
    {E : Type 0} {A : Type ℓ} {B : Type κ} (first : Outcome E A) (next : A → Outcome E B) {r : B}
    → (first >>= next) ≡ ok r
    → (x : A) × (first ≡ ok x) × (next x ≡ ok r)
>>=-eq-ok panic next q = cc
>>=-eq-ok (err e) next q = cc
>>=-eq-ok (ok x) next q = (x, refl, q)
