-- ===== src/Prelude/Equality.antt =====
-- Python's `==` on a type of keys, as an interface.
use Prim.Native.String.{String}
use text.Mathlib.TextEquality.{eq_iff}
use text.Mathlib.Text.{◌==◌ as text_beq}
use mathlib.Core.Path.{◌≡◌, refl}
use mathlib.Core.Logic.{◌↔◌}
use mathlib.Core.Bool.{Bool, true}

pub record Eq {ℓ} (Key : Type ℓ) : Type ℓ where
  pub beq : Key → Key → Bool
  pub beq_iff : (x y : Key) → (beq x y ≡ true) ↔ (x ≡ y)

module _ {ℓ} {Key : Type ℓ} ⦃keys : Eq Key⦄ where
  infix 50 ◌==◌
  abbrev pub ◌==◌ : Key → Key → Bool
  x == y = keys.beq x y

  pub beq_refl : (x : Key) → (x == x) ≡ true
  beq_refl x = (keys.beq_iff x x).1 refl

instance abbrev pub text_keys : Eq String
text_keys = record { beq = text_beq; beq_iff = eq_iff }
