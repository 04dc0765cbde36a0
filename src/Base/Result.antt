-- ===== src/Base/Result.antt =====
-- A Go function's `(value, error)` pair as a value: an error, or a result.
use mathlib.Core.Path.{◌≡◌, refl}
use mathlib.Core.Logic.{◌⊎◌, inl, inr}

pub data Outcome {ℓ κ} (E : Type ℓ) (A : Type κ) : Type (ℓ ⊔ κ) where
  ok : A → Outcome E A
  err : E → Outcome E A

pub err_injective {ℓ κ} :
    {E : Type ℓ} {A : Type κ} {x y : E} → Path (Outcome E A) (err x) (err y) → x ≡ y
err_injective h = cc

pub ok_injective {ℓ κ} :
    {E : Type ℓ} {A : Type κ} {x y : A} → Path (Outcome E A) (ok x) (ok y) → x ≡ y
ok_injective h = cc

-- A split on a computed outcome that keeps the equation.
pub Outcome-cases {ℓ κ} :
    {E : Type ℓ} {A : Type κ} (r : Outcome E A) → ((a : A) × (r ≡ ok a)) ⊎ ((e : E) × (r ≡ err e))
Outcome-cases (ok a) = inl (a, refl)
Outcome-cases (err e) = inr (e, refl)
