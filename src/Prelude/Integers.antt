-- ===== src/Prelude/Integers.antt =====
-- Python's `int`.
use Prim.Native.Nat.{ℕ}
use mathlib.Core.Bool.{Bool, true, false}
use foam_pilot.Prelude.Tests.{ltb, nat_beq}

-- `negsuc n` is -1 - n
pub data ℤ : Type 0 where
  pos : ℕ → ℤ
  negsuc : ℕ → ℤ

abbrev pub ltb_ℤ : ℤ → ℤ → Bool
ltb_ℤ (pos m) (pos n) = ltb m n
ltb_ℤ (pos m) (negsuc n) = false
ltb_ℤ (negsuc m) (pos n) = true
ltb_ℤ (negsuc m) (negsuc n) = ltb n m

-- `==` with a number that is not negative
abbrev pub is_pos : ℤ → ℕ → Bool
is_pos (pos m) n = nat_beq m n
is_pos (negsuc m) n = false
