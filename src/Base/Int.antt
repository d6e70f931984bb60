-- ===== src/Base/Int.antt =====
-- Signed integers as they stand in a database column, over the native numbers.
use Prim.Native.Nat.{ℕ}
use mathlib.Core.Bool.{Bool, true, false}
use native.Mathlib.Decide.{ℕ_discrete}
use merkur_db.Base.Tests.{holds}

-- `negsuc n` is -(n + 1).
pub data ℤ : Type 0 where
  pos : ℕ → ℤ
  negsuc : ℕ → ℤ

unfoldable pub int_dec : Discrete ℤ
unfolding ℕ_discrete
int_dec (pos m) (pos n) = elim (ℕ_discrete m n) [ yes p ↦ yes (cc) | no p ↦ no (λ e. p (cc)) ]
int_dec (pos m) (negsuc n) = no (λ e. cc)
int_dec (negsuc m) (pos n) = no (λ e. cc)
int_dec (negsuc m) (negsuc n) = elim (ℕ_discrete m n) [ yes p ↦ yes (cc) | no p ↦ no (λ e. p (cc)) ]

abbrev pub int_eq : ℤ → ℤ → Bool
int_eq a b = holds (int_dec a b)

-- `a >= 0`.
abbrev pub nonneg : ℤ → Bool
nonneg (pos n) = true
nonneg (negsuc n) = false
