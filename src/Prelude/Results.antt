-- ===== src/Prelude/Results.antt =====
-- A Python call that returns a value or raises an exception of type `E`.
use mathlib.Core.Path.{◌≡◌, refl}
use mathlib.Core.Logic.{◌⊎◌, inl, inr}

pub data Result {ε α} (E : Type ε) (A : Type α) : Type (ε ⊔ α) where
  ok : A → Result E A
  raise : E → Result E A

-- a result by its two ways
pub Result-cases {ε α} :
    {E : Type ε} {A : Type α} (r : Result E A) → ((a : A) × (r ≡ ok a)) ⊎ ((e : E) × (r ≡ raise e))
Result-cases (ok a) = inl (a, refl)
Result-cases (raise e) = inr (e, refl)
