-- ===== src/Common/Int.antt =====
-- Signed integers over the native numbers, for the `i64` values that the code compares.
use Prim.Native.Nat.{ℕ, compare, Ordering}
use mathlib.Core.Bool.{Bool, true, false}

-- `negsuc n` is -(n + 1).
pub data ℤ : Type 0 where
  pos : ℕ → ℤ
  negsuc : ℕ → ℤ

-- The `Ord` of `i64`.
abbrev pub cmp_ℤ : ℤ → ℤ → Ordering
cmp_ℤ (pos a) (pos b) = compare a b
cmp_ℤ (pos a) (negsuc b) = Ordering.gt
cmp_ℤ (negsuc a) (pos b) = Ordering.lt
cmp_ℤ (negsuc a) (negsuc b) = compare b a

abbrev pub lt_ℤ : ℤ → ℤ → Bool
lt_ℤ a b = elim (cmp_ℤ a b) [ Ordering.lt ↦ true | _ ↦ false ]

abbrev pub le_ℤ : ℤ → ℤ → Bool
le_ℤ a b = elim (cmp_ℤ a b) [ Ordering.gt ↦ false | _ ↦ true ]
