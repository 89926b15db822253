-- ===== src/Base/Results.antt =====
-- Python code that may raise: a value, or the exception that ended it.
use mathlib.Core.Path.{◌≡◌, refl, subst}
use mathlib.Core.Logic.{◌⊎◌, inl, inr}
use mathlib.Core.Bool.{Bool, true, false}

pub data Result {ℓ} (E : Type 0) (A : Type ℓ) : Type ℓ where
  ok : A → Result E A
  err : E → Result E A

infixl 5 ◌>>=◌
abbrev pub ◌>>=◌ {ℓ κ} :
    {E : Type 0} {A : Type ℓ} {B : Type κ} → Result E A → (A → Result E B) → Result E B
ok a >>= f = f a
err e >>= f = err e

abbrev pub is_ok {ℓ} : {E : Type 0} {A : Type ℓ} → Result E A → Bool
is_ok (ok a) = true
is_ok (err e) = false

pub Result-cases {ℓ} :
    {E : Type 0} {A : Type ℓ} (r : Result E A) → ((a : A) × (r ≡ ok a)) ⊎ ((e : E) × (r ≡ err e))
Result-cases (ok a) = inl (a, refl)
Result-cases (err e) = inr (e, refl)

-- The value has the property, where there is one.
abbrev pub Returns {ℓ κ} : {E : Type 0} {A : Type ℓ} → (A → Type κ) → Result E A → Type κ
Returns P (ok a) = P a
Returns P (err e) = Unit

pub Returns-bind :
    {E A B : Type 0} (P : A → Type 0) (Q : B → Type 0) (r : Result E A) (f : A → Result E B)
    → Returns P r
    → ((a : A) → P a → Returns Q (f a))
    → Returns Q (r >>= f)
Returns-bind P Q (ok a) f p step = step a p
Returns-bind P Q (err e) f p step = tt

pub Returns-any : {E A : Type 0} (r : Result E A) → Returns {0, 0} (λ a. Unit) r
Returns-any (ok a) = tt
Returns-any (err e) = tt

pub is_ok-bind :
    {E A B : Type 0} (r : Result E A) (f : A → Result E B)
    → is_ok r ≡ true
    → ((a : A) → r ≡ ok a → is_ok (f a) ≡ true)
    → is_ok (r >>= f) ≡ true
is_ok-bind (ok a) f h step = step a refl
is_ok-bind (err e) f h step = h

pub Returns-self {ℓ} : {E : Type 0} {A : Type ℓ} (r : Result E A) → Returns (λ a. r ≡ ok a) r
Returns-self (ok a) = refl
Returns-self (err e) = tt

pub Returns-weaken :
    {E A : Type 0} (P Q : A → Type 0) (r : Result E A)
    → Returns P r
    → ((a : A) → P a → Q a)
    → Returns Q r
Returns-weaken P Q (ok a) p f = f a p
Returns-weaken P Q (err e) p f = tt

pub Returns-ok :
    {E A : Type 0} (P : A → Type 0) (r : Result E A) (a : A) → Returns P r → r ≡ ok a → P a
Returns-ok P r a p e = subst (Returns P) e p
