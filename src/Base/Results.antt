-- ===== src/Base/Results.antt =====
-- The result of code that may throw, whatever its errors are.
use mathlib.Core.Path.{◌≡◌, refl}
use mathlib.Core.Logic.{◌⊎◌, inl, inr}
use mathlib.Core.Bool.{Bool, true, false}

pub data Result {ℓ κ} (Thrown : Type κ) (Value : Type ℓ) : Type (ℓ ⊔ κ) where
  err : Thrown → Result Thrown Value
  ok : Value → Result Thrown Value

infixl 5 ◌>>=◌
-- What follows a call, unless the call throws.
abbrev pub ◌>>=◌ {ι ℓ κ} :
    {Thrown : Type ι} {Value : Type ℓ} {Next : Type κ}
    → Result Thrown Value
    → (Value → Result Thrown Next)
    → Result Thrown Next
err thrown >>= _ = err thrown
ok value >>= next = next value

-- A result is one of the two.
pub Result-cases {ℓ ι} :
    {E : Type ι} {A : Type ℓ} (m : Result E A) → ((a : A) × (m ≡ ok a)) ⊎ ((e : E) × (m ≡ err e))
Result-cases (ok a) = inl (a, refl)
Result-cases (err e) = inr (e, refl)

abbrev pub is_ok {ℓ ι} : {E : Type ι} {A : Type ℓ} → Result E A → Bool
is_ok (ok a) = true
is_ok (err e) = false

pub is_ok-elim {ℓ ι} :
    {E : Type ι} {A : Type ℓ} (m : Result E A) → is_ok m ≡ true → (a : A) × (m ≡ ok a)
is_ok-elim (ok a) h = (a, refl)
is_ok-elim (err e) h = cc
