-- ===== src/Base/Integers.antt =====
-- Signed integers as data: identifiers, error codes and limits of type `int`.
use Prim.Native.Nat.{ℕ, compare, Ordering}
use mathlib.Core.Bool.{Bool, true, false}

-- `negsuc n` is -(n + 1).
pub data ℤ : Type 0 where
  pos : ℕ → ℤ
  negsuc : ℕ → ℤ

abbrev same : ℕ → ℕ → Bool
same a b = elim (compare a b) [ Ordering.eq ↦ true | _ ↦ false ]

-- `==` on integers.
abbrev pub int_eq : ℤ → ℤ → Bool
int_eq (pos a) (pos b) = same a b
int_eq (negsuc a) (negsuc b) = same a b
int_eq _ _ = false

abbrev pub is_negative : ℤ → Bool
is_negative (pos n) = false
is_negative (negsuc n) = true
